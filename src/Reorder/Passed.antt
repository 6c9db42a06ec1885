-- ===== src/Reorder/Passed.antt =====
-- ais_server/reorder.py: the buffer makes no payloads of its own.
use ais_server.Prelude.{
  ℕ, ◌+◌, inl, inr, some, List, [], ◌∷◌, ◌++◌, leb, Bool-cases, length, All, All-append,
}
use ais_server.Reorder.{HeapItem, ReorderBuffer, evict, push, is_due, pop_loop, pop_ready}
use ais_server.Reorder.Order.{All-heappush}
use ais_server.Reorder.Stream.{Event, arrive, release, run}

module _ {ℓ κ} {P : Type ℓ} (Q : P → Type κ) where
  abbrev Held : HeapItem P → Type κ
  Held x = Q x.payload

  push-Held :
      (b : ReorderBuffer P) (payload : P) (ts clock : ℕ)
      → Q payload
      → All Held b.heap
      → All Held (push b payload (some ts) clock).0.heap
  unfolding push
  push-Held b payload ts clock q a = elim (Bool-cases (leb b.max_queue (length b.heap))) [
    | inl full ↦ rw full (on_full b.heap a)
    | inr room ↦ rw room (All-heappush Held x b.heap q a)
  ]
    where
      x : HeapItem P
      x = record { ts = ts; seq = b.next_seq; payload = payload }

      on_full :
          (h : List (HeapItem P))
          → All Held h
          → All Held (evict (record b { next_seq = b.next_seq + 1 }) h x).0.heap
      on_full [] g = a
      on_full (y ∷ rest) g = All-heappush Held x rest q g.1

  pop_loop-Held :
      (hold now : ℕ) (h : List (HeapItem P)) (out : List P) (popped : ℕ)
      → All Held h
      → All Q out
      → All Held (pop_loop hold now h out popped).0 × All Q (pop_loop hold now h out popped).1
  unfolding pop_loop
  pop_loop-Held hold now [] out popped a o = (tt, o)
  pop_loop-Held hold now (x ∷ h) out popped a o = elim (Bool-cases (is_due hold now x)) [
    | inl due ↦ rw due (
        pop_loop-Held hold now h (out ++ x.payload ∷ []) (popped + 1) a.1
          (All-append Q out (x.payload ∷ []) o (a.0, tt)))
    | inr early ↦ rw early (a, o)
  ]

  -- Each payload that is pushed has the property.
  abbrev pub Offered : List (Event P) → Type κ
  Offered [] = Unit
  Offered (arrive payload ts clock ∷ events) = Q payload × Offered events
  Offered (release now ∷ events) = Offered events

  -- What all payloads in the buffer and all pushed ones have, all released ones have.
  pub run-All :
      (b : ReorderBuffer P) (events : List (Event P))
      → All Held b.heap
      → Offered events
      → All Q (run b events)
  unfolding run pop_ready
  run-All b [] a o = tt
  run-All b (arrive payload ts clock ∷ events) a o =
      run-All (push b payload (some ts) clock).0 events (push-Held b payload ts clock o.0 a) o.1
  run-All b (release now ∷ events) a o =
      let (kept, out) = pop_loop-Held b.hold now b.heap [] b.popped a tt in
      All-append Q (pop_ready b (some now) now).1 (run (pop_ready b (some now) now).0 events) out
        (run-All (pop_ready b (some now) now).0 events kept o)
