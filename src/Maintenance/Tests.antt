-- ===== src/Maintenance/Tests.antt =====
-- Runs of the maintenance loop of ais_server/__main__.py.
use ais_server.Prelude.{ℕ, ◌≡◌, refl, List, [], ◌∷◌}
use ais_server.Maintenance.{
  Schedule, new, turn, any_checkpoint, checkpoints, Spaced, checkpoints-Spaced,
}

abbrev hourly : Schedule
hourly = new 3600000 0 3600000 2592000000

abbrev turns : List ℕ
turns = 3600000 ∷ 5000000 ∷ 7200000 ∷ 9000000 ∷ []

checkpoints-Spaced_case : Spaced hourly.ckpt_iv hourly.last_ckpt (checkpoints hourly turns)
checkpoints-Spaced_case = checkpoints-Spaced hourly turns

two_checkpoints : checkpoints hourly turns ≡ 3600000 ∷ 7200000 ∷ []
unfolding checkpoints turn new any_checkpoint
two_checkpoints = refl
