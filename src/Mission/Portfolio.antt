-- ===== src/Mission/Portfolio.antt =====
-- internal/mission/portfolio.go: the portfolio. Its map of missions and the sorted list of their ids are
-- one list, of the missions in the order of their ids. Amounts of dollars are finite, as counts of some
-- small unit: a budget and what is spent are not negative, a charge is an integer. A cap that is not
-- positive is 0. The time of the last pick is left out, and so are the panel and its text.
pub mod Counts
pub mod Valid
pub mod Charged
pub mod Extremes
pub mod Fair
pub mod Turns
use the_foundry.Prelude.{
  ℕ, zero, suc, ◌+◌, ◌-◌, Bool, true, false, not, ◌&&◌, ◌==◌, String, Option, none, some, List, [],
  ◌∷◌, map, any, ltb, leb, eqb, ℤ, pos, negsuc, str_ltb, insert_sorted, if◌then◌else◌,
}

pub record PortfolioMission : Type 0 where
  pub id : String
  pub monthly_budget : ℕ
  pub spent : ℕ
  pub revenue_bearing : Bool
  pub active : Bool
  pub budget_scope : String
  pub scheduled : ℕ

pub record Portfolio : Type 0 where
  pub max_active_products : ℕ
  pub missions : List PortfolioMission

pub data PortfolioError : Type 0 where
  no_id exists not_found cap_reached negative_charge over_budget : PortfolioError

unfoldable pub new_portfolio : ℕ → Portfolio
new_portfolio max_active = record { max_active_products = max_active; missions = [] }

unfoldable pub find : String → List PortfolioMission → Option PortfolioMission
find id [] = none
find id (m ∷ ms) = if m.id == id then some m else find id ms

abbrev pub has : String → List PortfolioMission → Bool
has id ms = any (λ m. m.id == id) ms

-- An assignment through the pointer that the map holds.
unfoldable pub modify :
    String → (PortfolioMission → PortfolioMission) → List PortfolioMission → List PortfolioMission
modify id f ms = map (λ m. if m.id == id then f m else m) ms

unfoldable pub active_count : List PortfolioMission → ℕ
active_count [] = 0
active_count (m ∷ ms) = if m.active then suc (active_count ms) else active_count ms

unfoldable pub at_active_cap : Portfolio → Bool
at_active_cap p = ltb 0 p.max_active_products && leb p.max_active_products (active_count p.missions)

abbrev pub by_id : PortfolioMission → PortfolioMission → Bool
by_id a b = str_ltb a.id b.id

unfoldable pub add_mission : PortfolioMission → Portfolio → Option PortfolioError × Portfolio
unfolding at_active_cap
add_mission m p =
    if m.id == ""
    then (some no_id, p)
    else if has m.id p.missions
    then (some exists, p)
    else if m.active && at_active_cap p
    then (some cap_reached, p)
    else (none, record p { missions = insert_sorted by_id m p.missions })

abbrev pub set_active : Bool → PortfolioMission → PortfolioMission
set_active b m = record m { active = b }

unfoldable pub activate_over :
    Option PortfolioMission → String → Portfolio → Option PortfolioError × Portfolio
unfolding at_active_cap
activate_over none id p = (some not_found, p)
activate_over (some m) id p =
    if m.active
    then (none, p)
    else if at_active_cap p
    then (some cap_reached, p)
    else (none, record p { missions = modify id (set_active true) p.missions })

unfoldable pub activate : String → Portfolio → Option PortfolioError × Portfolio
unfolding activate_over
activate id p = activate_over (find id p.missions) id p

unfoldable pub deactivate_over :
    Option PortfolioMission → String → Portfolio → Option PortfolioError × Portfolio
deactivate_over none id p = (some not_found, p)
deactivate_over (some m) id p =
    (none, record p { missions = modify id (set_active false) p.missions })

unfoldable pub deactivate : String → Portfolio → Option PortfolioError × Portfolio
unfolding deactivate_over
deactivate id p = deactivate_over (find id p.missions) id p

abbrev pub spend : ℕ → PortfolioMission → PortfolioMission
spend amount m = record m { spent = m.spent + amount }

unfoldable pub charge_over :
    Option PortfolioMission → String → ℤ → Portfolio → Option PortfolioError × Portfolio
charge_over none id amount p = (some not_found, p)
charge_over (some m) id (negsuc k) p = (some negative_charge, p)
charge_over (some m) id (pos amount) p =
    if ltb 0 m.monthly_budget && ltb m.monthly_budget (m.spent + amount)
    then (some over_budget, p)
    else (none, record p { missions = modify id (spend amount) p.missions })

unfoldable pub charge : String → ℤ → Portfolio → Option PortfolioError × Portfolio
unfolding charge_over
charge id amount p = charge_over (find id p.missions) id amount p

-- The loop of NextScheduled, with the pick so far.
unfoldable pub fewer : PortfolioMission → Option PortfolioMission → Bool
fewer m none = true
fewer m (some best) = ltb m.scheduled best.scheduled

unfoldable pub pick : Option PortfolioMission → List PortfolioMission → Option PortfolioMission
unfolding fewer
pick best [] = best
pick best (m ∷ ms) = pick (if m.active && fewer m best then some m else best) ms

abbrev pub bump : PortfolioMission → PortfolioMission
bump m = record m { scheduled = m.scheduled + 1 }

unfoldable pub take_turn : Option PortfolioMission → Portfolio → Option String × Portfolio
take_turn none p = (none, p)
take_turn (some m) p = (some m.id, record p { missions = modify m.id bump p.missions })

unfoldable pub next_scheduled : Portfolio → Option String × Portfolio
unfolding take_turn
next_scheduled p = take_turn (pick none p.missions) p

-- `rounds` turns, or as many as there is a mission for.
unfoldable pub and_later :
    Option String → Portfolio → List String × Portfolio → List String × Portfolio
and_later none after rest = ([], after)
and_later (some id) after rest = (id ∷ rest.0, rest.1)

unfoldable pub schedule : ℕ → Portfolio → List String × Portfolio
schedule zero p = ([], p)
schedule (suc rounds) p =
    and_later (next_scheduled p).0 (next_scheduled p).1 (schedule rounds (next_scheduled p).1)

-- The least and the greatest count of the active missions: -1 is `none`.
unfoldable pub lower : Option ℕ → ℕ → ℕ
lower none n = n
lower (some l) n = if ltb n l then n else l

unfoldable pub higher : Option ℕ → ℕ → ℕ
higher none n = n
higher (some h) n = if ltb h n then n else h

unfoldable pub extremes : Option ℕ → Option ℕ → List PortfolioMission → Option ℕ × Option ℕ
unfolding lower higher
extremes low high [] = (low, high)
extremes low high (m ∷ ms) =
    extremes (if m.active then some (lower low m.scheduled) else low)
      (if m.active then some (higher high m.scheduled) else high) ms

unfoldable pub spread_of : Option ℕ × Option ℕ → ℕ
spread_of (some low, some high) = high - low
spread_of (some low, none) = 0
spread_of (none, high) = 0

unfoldable pub fairness_spread : Portfolio → ℕ
unfolding spread_of
fairness_spread p = spread_of (extremes none none p.missions)

pub data DecisionKind : Type 0 where
  invest_more hold kill_candidate : DecisionKind

abbrev pub is_kill : DecisionKind → Bool
is_kill kill_candidate = true
is_kill invest_more = false
is_kill hold = false

pub record PortfolioDecision : Type 0 where
  pub mission_id : String
  pub kind : DecisionKind
  pub requires_human_approval : Bool
  pub rationale : String

unfoldable pub propose_over :
    Option PortfolioMission → String → DecisionKind → String → Option PortfolioDecision
propose_over none id kind rationale = none
propose_over (some m) id kind rationale = some (record {
  mission_id = id;
  kind = kind;
  requires_human_approval = is_kill kind && m.revenue_bearing;
  rationale = rationale;
})

-- `none` where the mission is not in the portfolio.
unfoldable pub propose_decision :
    String → DecisionKind → String → Portfolio → Option PortfolioDecision
unfolding propose_over
propose_decision id kind rationale p = propose_over (find id p.missions) id kind rationale

-- The operations that change a portfolio, and runs of them.
pub data Operation : Type 0 where
  adding : PortfolioMission → Operation
  activating deactivating : String → Operation
  charging : String → ℤ → Operation
  scheduling : Operation

unfoldable pub step : Operation → Portfolio → Portfolio
step (adding m) p = (add_mission m p).1
step (activating id) p = (activate id p).1
step (deactivating id) p = (deactivate id p).1
step (charging id amount) p = (charge id amount p).1
step scheduling p = (next_scheduled p).1

unfoldable pub run : List Operation → Portfolio → Portfolio
unfolding step
run [] p = p
run (op ∷ ops) p = run ops (step op p)
