-- ===== src/Supervisor/Tests.antt =====
-- Runs of the supervisor of ais_server/supervisor.py.
use ais_server.Prelude.{◌≡◌, refl, List, [], ◌∷◌, map}
use ais_server.Supervisor.{
  Ending, returned, crashed, first_backoff, supervise, run, crashes_before, sleep_after,
  run-sleep_after,
}

abbrev endings : List Ending
endings = crashed ∷ crashed ∷ crashed ∷ crashed ∷ crashed ∷ crashed ∷ returned ∷ crashed ∷ []

run-sleep_after_example : run first_backoff endings ≡ map sleep_after (crashes_before 0 endings)
run-sleep_after_example = run-sleep_after endings

sleeps : run first_backoff endings ≡ 1000 ∷ 2000 ∷ 4000 ∷ 8000 ∷ 16000 ∷ 30000 ∷ 0 ∷ 1000 ∷ []
unfolding run supervise
sleeps = refl
