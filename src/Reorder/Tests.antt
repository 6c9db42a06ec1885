-- ===== src/Reorder/Tests.antt =====
-- Runs of the reorder buffer of ais_server/reorder.py.
use ais_server.Prelude.{ℕ, ◌+◌, ◌≡◌, refl, some, List, [], ◌∷◌, ◌++◌, map, arith, length, In}
use mathlib.Core.List.{Perm}
use ais_server.Reorder.{ReorderBuffer, returned, heappush, empty, push, pop_loop, pop_ready}
use ais_server.Reorder.Order.{IsValid, empty-IsValid, push-IsValid}
use ais_server.Reorder.Release.{due, held, payloads, pop_ready-filter}
use ais_server.Reorder.Pushed.{lost, new_item, push-Perm, push-pop_ready_early}
use ais_server.Reorder.Stream.{Event, arrive, release, run, Chronological, run-Chronological}

-- Two sentences in a buffer for two, which hold 10 ms; a third one pushes out the oldest.
abbrev empty_buffer : ReorderBuffer ℕ
empty_buffer = empty 10 2

abbrev two_items : ReorderBuffer ℕ
two_items = (push (push empty_buffer 7 (some 7) 0).0 3 (some 3) 1).0

two_items-IsValid : IsValid two_items
unfolding empty push
two_items-IsValid =
    push-IsValid (push empty_buffer 7 (some 7) 0).0 3 (some 3) 1 (omega arith)
      (push-IsValid empty_buffer 7 (some 7) 0 (omega arith) (empty-IsValid 10 2))

full_run : (pop_ready two_items (some 14) 0).1 ≡ 3 ∷ []
unfolding empty push pop_ready heappush pop_loop
full_run = refl

pop_ready-filter_example : pop_ready two_items (some 14) 0 ≡ (
  record two_items {
    heap = held two_items 14;
    popped = two_items.popped + length (due two_items 14);
  },
  payloads (due two_items 14),
)
pop_ready-filter_example = pop_ready-filter two_items (some 14) 0 two_items-IsValid

push-Perm_example :
    Perm
      (lost two_items ++ (push two_items 5 (some 5) 2).0.heap)
      (new_item two_items 5 (some 5) 2 ∷ two_items.heap)
    × ((push two_items 5 (some 5) 2).0.dropped ≡ two_items.dropped + length (lost two_items))
    × ((push two_items 5 (some 5) 2).1 ≡ returned)
unfolding empty push heappush
push-Perm_example = push-Perm two_items 5 (some 5) 2 (omega arith) two_items-IsValid

push-pop_ready_early_case :
    In
      (new_item empty_buffer 5000 (some 5000) 0)
      (pop_ready (push empty_buffer 5000 (some 5000) 0).0 (some 4000) 4000).0.heap
unfolding empty
push-pop_ready_early_case =
    push-pop_ready_early empty_buffer 5000 5000 4000 0 4000 (empty-IsValid 10 2) (omega arith)
      (omega arith)

abbrev events : List (Event ℕ)
events = arrive 7 7 1 ∷ arrive 3 3 2 ∷ release 14 ∷ arrive 9 9 15 ∷ release 30 ∷ []

abbrev same : ℕ → ℕ
same x = x

run-Chronological_case : Chronological (map same (run (empty 10 2) events))
run-Chronological_case = run-Chronological same 10 2 events (omega arith) (
  refl,
  omega arith,
  omega arith,
  (
    refl,
    omega arith,
    omega arith,
    (omega arith, (refl, omega arith, omega arith, (omega arith, tt))),
  ),
)
