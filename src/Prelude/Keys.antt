-- ===== src/Prelude/Keys.antt =====
-- Keys of the form kind ++ "|" ++ target, as the program builds them for its maps: where the kind
-- holds no bar, a key determines both parts.
use Prim.Native.Char.{Char, code}
use Prim.Native.String.{String, [], ◌∷◌, ◌++◌}
use mathlib.Core.Path.{◌≡◌, refl, sym, ap, ◌∙◌}
use mathlib.Core.Bool.{Bool, true, not, ◌&&◌}
use native.Mathlib.Omega.{arith}
use text.Mathlib.TextLemmas.{append_cancel_left, cons-append, nil-append}
use the_foundry.Prelude.Tests.{eqb, if◌then◌else◌}

abbrev pub bar_free : String → Bool
bar_free [] = true
bar_free (c ∷ s) = not (eqb (code c) b'|') && bar_free s

abbrev bar : Char
bar = "|"

-- What stands before the first bar.
before_bar : String → String
before_bar [] = []
before_bar (c ∷ s) = let rest = before_bar s in if eqb (code c) b'|' then [] else c ∷ rest

before_bar-key :
    (kind target : String) → bar_free kind ≡ true → before_bar (kind ++ ("|" ++ target)) ≡ kind
unfolding before_bar
before_bar-key [] target free =
    rw (nil-append ((bar ∷ []) ++ target), cons-append bar [] target) refl
before_bar-key (c ∷ kind) target free = rw cons-append (ground (arith, before_bar-key kind target))

pub key_inj :
    (s t u v : String)
    → bar_free s ≡ true
    → bar_free t ≡ true
    → s ++ ("|" ++ u) ≡ t ++ ("|" ++ v)
    → (s ≡ t) × (u ≡ v)
key_inj s t u v hs ht e =
    let same : s ≡ t = sym (before_bar-key s u hs) ∙ ap before_bar e ∙ before_bar-key t v ht in
    let swapped = ap (λ kind. kind ++ ("|" ++ v)) (sym same) in
    (same, append_cancel_left "|" u v (append_cancel_left s _ _ (e ∙ swapped)))
