-- ===== src/Supervisor.antt =====
-- ais_server/supervisor.py: the loop of `SupervisedThread`, one turn at a time. Times are whole
-- milliseconds.
mod Tests
use ais_server.Prelude.{
  ℕ, suc, ◌-◌, ◌*◌, ◌^◌, min, ◌≡◌, refl, ap, ◌∙◌, Option, none, some, List, [], ◌∷◌, map, arith,
}

-- How the supervised function ends.
pub data Ending : Type 0 where
  returned : Ending
  crashed : Ending

abbrev pub max_backoff : ℕ
max_backoff = 30000

abbrev pub first_backoff : ℕ
first_backoff = 1000

-- The backoff after a turn, and how long the turn sleeps before the restart.
unfoldable pub supervise : ℕ → Ending → ℕ × ℕ
supervise backoff returned = (first_backoff, 0)
supervise backoff crashed = (min max_backoff (backoff * 2), backoff)

-- The sleeps before the restarts.
unfoldable pub run : ℕ → List Ending → List ℕ
unfolding supervise
run backoff [] = []
run backoff (ending ∷ endings) =
    let (next, sleep) = supervise backoff ending in sleep ∷ run next endings

-- How many crashes came right before.
unfoldable pub crashes_before : ℕ → List Ending → List (Option ℕ)
crashes_before n [] = []
crashes_before n (returned ∷ endings) = none ∷ crashes_before 0 endings
crashes_before n (crashed ∷ endings) = some n ∷ crashes_before (suc n) endings

-- No sleep after a return; after a crash a second, doubled for each crash right before, up to half a
-- minute.
unfoldable pub sleep_after : Option ℕ → ℕ
sleep_after none = 0
sleep_after (some n) = min max_backoff (first_backoff * 2 ^ n)

doubled :
    (n : ℕ)
    → min max_backoff (min max_backoff (first_backoff * 2 ^ n) * 2)
      ≡ min max_backoff (first_backoff * 2 ^ suc n)
doubled n = let e : 2 ^ suc n ≡ 2 ^ n * 2 = grind arith in omega (arith, e)

run_from :
    (n : ℕ) (endings : List Ending)
    → run (min max_backoff (first_backoff * 2 ^ n)) endings
      ≡ map sleep_after (crashes_before n endings)
unfolding run supervise crashes_before sleep_after
run_from n [] = refl
run_from n (returned ∷ endings) = ap (λ l. 0 ∷ l) (run_from 0 endings)
run_from n (crashed ∷ endings) =
    ap (λ l. min max_backoff (first_backoff * 2 ^ n) ∷ l)
      (ap (λ b. run b endings) (doubled n) ∙ run_from (suc n) endings)

-- However a supervised function ends, each restart waits as long as the crashes right before it say:
-- not at all after a return, and 1, 2, 4, ... seconds after crashes, but never more than 30 seconds.
pub run-sleep_after :
    (endings : List Ending) → run first_backoff endings ≡ map sleep_after (crashes_before 0 endings)
run-sleep_after endings = run_from 0 endings
