-- ===== src/Reorder/Pushed.antt =====
-- ais_server/reorder.py: what one push does, and how long its item stays.
use ais_server.Prelude.{
  ℕ, ◌+◌, ◌≤◌, ◌<◌, ◌≡◌, refl, inl, inr, false, not, Option, some, List, [], ◌∷◌, ◌++◌, arith, leb,
  if◌then◌else◌, leb→le, lt→leb_false, Bool-cases, length, take, In, at_head, in_tail, In-filter,
}
use mathlib.Core.List.{Perm}
use mathlib.Core.List.Perm
use ais_server.Reorder.{
  HeapItem, ReorderBuffer, returned, or_clock, item_lt, heappush, evict, push, is_due, pop_ready,
}
use ais_server.Reorder.Order.{IsValid, push-IsValid}
use ais_server.Reorder.Release.{pop_ready-filter}

module _ {ℓ} {P : Type ℓ} where
  -- The item that a push makes.
  abbrev pub new_item : ReorderBuffer P → P → Option ℕ → ℕ → HeapItem P
  new_item b payload ts clock = record {
    ts = or_clock ts clock;
    seq = b.next_seq;
    payload = payload;
  }

  -- What a push drops: the first item of a full heap.
  abbrev pub lost : ReorderBuffer P → List (HeapItem P)
  lost b = if leb b.max_queue (length b.heap) then take 1 b.heap else []

  heappush-Perm : (x : HeapItem P) (h : List (HeapItem P)) → Perm (heappush x h) (x ∷ h)
  unfolding heappush
  heappush-Perm x [] = Perm.refl _
  heappush-Perm x (y ∷ h) = elim (Bool-cases (item_lt x y)) [
    | inl e ↦ rw e (Perm.refl _)
    | inr e ↦ rw e (Perm.trans (Perm.cons y (heappush-Perm x h)) (Perm.swap x y h))
  ]

  -- A push loses nothing but the head of a full heap, which comes before all that stays; the rest
  -- and the new item are the heap afterwards. The push returns, and counts what it dropped.
  pub push-Perm :
      (b : ReorderBuffer P) (payload : P) (ts : Option ℕ) (clock : ℕ)
      → 0 < b.max_queue
      → IsValid b
      → Perm (lost b ++ (push b payload ts clock).0.heap) (new_item b payload ts clock ∷ b.heap)
        × ((push b payload ts clock).0.dropped ≡ b.dropped + length (lost b))
        × ((push b payload ts clock).1 ≡ returned)
  unfolding push
  push-Perm b payload ts clock p v = elim (Bool-cases (leb b.max_queue (length b.heap))) [
    | inl full ↦ rw full (full_heap b.heap (leb→le _ _ full))
    | inr room ↦ rw room (heappush-Perm _ b.heap, omega arith, refl)
  ]
    where
      full_heap :
          (h : List (HeapItem P))
          → b.max_queue ≤ length h
          → Perm
              (take 1 h
                ++ (evict
                    (record b { next_seq = b.next_seq + 1 })
                    h
                    (new_item b payload ts clock)).0.heap)
              (new_item b payload ts clock ∷ h)
            × ((evict
                  (record b { next_seq = b.next_seq + 1 })
                  h
                  (new_item b payload ts clock)).0.dropped
                ≡ b.dropped + length (take 1 h))
            × ((evict (record b { next_seq = b.next_seq + 1 }) h (new_item b payload ts clock)).1
                ≡ returned)
      full_heap [] e = absurd (omega arith)
      full_heap (oldest ∷ rest) e =
          let x = new_item b payload ts clock in
          (
            Perm.trans (Perm.cons oldest (heappush-Perm x rest)) (Perm.swap x oldest rest),
            omega arith,
            refl,
          )

  In-heappush : (x : HeapItem P) (h : List (HeapItem P)) → In x (heappush x h)
  unfolding heappush
  In-heappush x [] = at_head refl
  In-heappush x (y ∷ h) = elim (Bool-cases (item_lt x y)) [
    | inl e ↦ rw e (at_head refl)
    | inr e ↦ rw e (in_tail (In-heappush x h))
  ]

  -- With room, a push inserts the item and changes no parameter.
  push_room :
      (b : ReorderBuffer P) (payload : P) (ts : Option ℕ) (clock : ℕ)
      → length b.heap < b.max_queue
      → ((push b payload ts clock).0.heap ≡ heappush (new_item b payload ts clock) b.heap)
        × ((push b payload ts clock).0.hold ≡ b.hold)
  unfolding push
  push_room b payload ts clock room =
      let e : leb b.max_queue (length b.heap) ≡ false = lt→leb_false _ _ room in rw e (refl, refl)

  -- An item stays in the heap until its own timestamp plus the hold time, however long ago it
  -- was pushed.
  pub push-pop_ready_early :
      (b : ReorderBuffer P) (payload : P) (ts now clock later : ℕ)
      → IsValid b
      → length b.heap < b.max_queue
      → now < ts + b.hold
      → In
          (new_item b payload (some ts) clock)
          (pop_ready (push b payload (some ts) clock).0 (some now) later).0.heap
  push-pop_ready_early b payload ts now clock later v room early =
      let x = new_item b payload (some ts) clock in
      let b' = (push b payload (some ts) clock).0 in
      let inserted = push_room b payload (some ts) clock room in
      rw
        (
          pop_ready-filter b' (some now) later
              (push-IsValid b payload (some ts) clock (omega arith) v),
          inserted.0,
          inserted.1,
        )
        (In-filter (λ y. not (is_due b.hold now y)) x (heappush x b.heap)
          (rw (lt→leb_false (ts + b.hold) now early) refl) (In-heappush x b.heap))
