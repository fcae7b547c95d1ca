-- ===== src/Mission.antt =====
-- Missions: internal/mission.
pub mod Portfolio
