-- ===== src/Reorder/Order.antt =====
-- The invariant of the reorder buffer, which every operation keeps.
use ais_server.Prelude.{
  ℕ, suc, ◌+◌, ◌≤◌, ◌<◌, ◌≡◌, refl, inl, inr, true, false, Option, List, [], ◌∷◌, arith, leb,
  leb→le, leb_false→lt, Bool-cases, length, All,
}
use ais_server.Reorder.{
  HeapItem, ReorderBuffer, or_clock, item_lt, heappush, empty, insert, evict, push,
}

module _ {ℓ} {P : Type ℓ} where
  -- Each item comes before all that follow it.
  abbrev pub Ascending : List (HeapItem P) → Type 0
  Ascending [] = Unit
  Ascending (x ∷ h) = All (λ y. item_lt x y ≡ true) h × Ascending h

  pub All-heappush {κ} :
      (Q : HeapItem P → Type κ) (x : HeapItem P) (h : List (HeapItem P))
      → Q x
      → All Q h
      → All Q (heappush x h)
  unfolding heappush
  All-heappush Q x [] q a = (q, tt)
  All-heappush Q x (y ∷ h) q a = elim (Bool-cases (item_lt x y)) [
    | inl e ↦ rw e (q, a)
    | inr e ↦ rw e (a.0, All-heappush Q x h q a.1)
  ]

  -- A fresh item that does not come before an item comes after it.
  lt_of_fresh : (x y : HeapItem P) → y.seq < x.seq → item_lt x y ≡ false → item_lt y x ≡ true
  lt_of_fresh x y f e = ground arith

  lt_trans : (x y z : HeapItem P) → item_lt x y ≡ true → item_lt y z ≡ true → item_lt x z ≡ true
  lt_trans x y z p q = ground arith

  All-lt :
      (x y : HeapItem P) (h : List (HeapItem P))
      → item_lt x y ≡ true
      → All (λ z. item_lt y z ≡ true) h
      → All (λ z. item_lt x z ≡ true) h
  All-lt x y [] p a = tt
  All-lt x y (z ∷ h) p a = (lt_trans x y z p a.0, All-lt x y h p a.1)

  pub heappush-Ascending :
      (x : HeapItem P) (h : List (HeapItem P))
      → All (λ y. y.seq < x.seq) h
      → Ascending h
      → Ascending (heappush x h)
  unfolding heappush
  heappush-Ascending x [] f a = (tt, tt)
  heappush-Ascending x (y ∷ h) f a = elim (Bool-cases (item_lt x y)) [
    | inl e ↦ rw e ((e, All-lt x y h e a.0), a)
    | inr e ↦ rw e (
      All-heappush (λ z. item_lt y z ≡ true) x h (lt_of_fresh x y f.0 e) a.0,
      heappush-Ascending x h f.1 a.1,
    )
  ]

  pub length-heappush :
      (x : HeapItem P) (h : List (HeapItem P)) → length (heappush x h) ≡ suc (length h)
  unfolding heappush
  length-heappush x [] = refl
  length-heappush x (y ∷ h) = ground (arith, length-heappush x h)

  -- The sequence numbers in the heap were given out before.
  abbrev pub Older : ℕ → List (HeapItem P) → Type 0
  Older n h = All (λ y. y.seq < n) h

  Older-suc : (n : ℕ) (h : List (HeapItem P)) → Older n h → Older (n + 1) h
  Older-suc n [] a = tt
  Older-suc n (x ∷ h) a = (omega arith, Older-suc n h a.1)

  pub record IsValid (b : ReorderBuffer P) : Type 0 where
    pub ascending : Ascending b.heap
    pub older : Older b.next_seq b.heap
    pub bounded : length b.heap ≤ b.max_queue
    pub counted : b.pushed ≡ b.popped + b.dropped + length b.heap

  pub empty-IsValid : (hold max_queue : ℕ) → IsValid (empty hold max_queue)
  unfolding empty
  empty-IsValid hold max_queue = record {
    ascending = tt;
    older = tt;
    bounded = omega arith;
    counted = omega arith;
  }

  insert-IsValid :
      (b : ReorderBuffer P) (payload : P) (ts : ℕ)
      → Ascending b.heap
      → Older b.next_seq b.heap
      → length b.heap < b.max_queue
      → b.pushed ≡ b.popped + b.dropped + length b.heap
      → IsValid (
          insert
            (record b { next_seq = b.next_seq + 1 })
            (record { ts = ts; seq = b.next_seq; payload = payload }))
  insert-IsValid b payload ts a o l c =
      let x : HeapItem P = record { ts = ts; seq = b.next_seq; payload = payload } in
      record {
        ascending = heappush-Ascending x b.heap o a;
        older =
            All-heappush (λ y. y.seq < b.next_seq + 1) x b.heap (omega arith)
              (Older-suc b.next_seq b.heap o);
        bounded = omega (arith, length-heappush x b.heap);
        counted = omega (arith, length-heappush x b.heap);
      }

  evict-IsValid :
      (b : ReorderBuffer P) (h : List (HeapItem P)) (payload : P) (ts : ℕ)
      → b.heap ≡ h
      → IsValid b
      → 0 < b.max_queue
      → b.max_queue ≤ length h
      → IsValid
          (evict
            (record b { next_seq = b.next_seq + 1 })
            h
            (record { ts = ts; seq = b.next_seq; payload = payload })).0
  evict-IsValid b [] payload ts e v p q = absurd (omega arith)
  evict-IsValid b (oldest ∷ rest) payload ts e v p q =
      let a : Ascending (oldest ∷ rest) = rw e at v.ascending in
      let o : Older b.next_seq (oldest ∷ rest) = rw e at v.older in
      let l : length (oldest ∷ rest) ≤ b.max_queue = rw e at v.bounded in
      let c : b.pushed ≡ b.popped + b.dropped + length (oldest ∷ rest) = rw e at v.counted in
      insert-IsValid (record b { heap = rest; dropped = b.dropped + 1 }) payload ts a.1 o.1
        (omega arith) (omega arith)

  -- A push keeps the invariant, whether or not it evicts.
  pub push-IsValid :
      (b : ReorderBuffer P) (payload : P) (ts : Option ℕ) (clock : ℕ)
      → 0 < b.max_queue
      → IsValid b
      → IsValid (push b payload ts clock).0
  unfolding push
  push-IsValid b payload ts clock p v = elim (Bool-cases (leb b.max_queue (length b.heap))) [
    | inl full ↦
        rw full (evict-IsValid b b.heap payload (or_clock ts clock) refl v p (leb→le _ _ full))
    | inr room ↦ rw room (
        insert-IsValid b payload (or_clock ts clock) v.ascending v.older (leb_false→lt _ _ room)
          v.counted)
  ]
