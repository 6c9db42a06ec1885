-- ===== src/Reorder/Release.antt =====
-- What `pop_ready` releases, what a push loses, and how long `wait_next` waits.
use ais_server.Prelude.{
  ℕ, suc, ◌+◌, ◌≤◌, ◌<◌, ◌≡◌, refl, ap, ◌∙◌, ◌≢◌, inl, inr, Bool, true, false, not, Option, some,
  List, [], ◌∷◌, ◌++◌, map, arith, le→leb, lt→leb_false, Bool-cases, length, All, filter,
}
use mathlib.Core.List.{append-nil, append_assoc}
use native.Mathlib.Nat.{add-zero}
use ais_server.Reorder.{
  HeapItem, ReorderBuffer, or_clock, item_lt, is_due, pop_loop, pop_ready, wait_for, wait_next,
}
use ais_server.Reorder.Order.{IsValid, Ascending}

module _ {ℓ} {P : Type ℓ} where
  abbrev pub due : ReorderBuffer P → ℕ → List (HeapItem P)
  due b now = filter (is_due b.hold now) b.heap

  abbrev pub held : ReorderBuffer P → ℕ → List (HeapItem P)
  held b now = filter (λ x. not (is_due b.hold now x)) b.heap

  abbrev pub payloads : List (HeapItem P) → List P
  payloads h = map (λ x. x.payload) h

  none_due :
      (hold now : ℕ) (x : HeapItem P) (h : List (HeapItem P))
      → is_due hold now x ≡ false
      → All (λ y. item_lt x y ≡ true) h
      → (filter (is_due hold now) h ≡ []) × (filter (λ y. not (is_due hold now y)) h ≡ h)
  none_due hold now x [] e a = (refl, refl)
  none_due hold now x (y ∷ h) e a =
      let ih = none_due hold now x h e a.1 in
      let f : is_due hold now y ≡ false = late y a.0 in (rw f ih.0, rw f (ap (◌∷◌ y) ih.1))
    where
      late : (y : HeapItem P) → item_lt x y ≡ true → is_due hold now y ≡ false
      late y p = ground arith

  -- One round of the loop, in front of what the later rounds release.
  pop_one :
      (hold now : ℕ) (x : HeapItem P) (h : List (HeapItem P)) (out : List P) (popped : ℕ)
      {r : List (HeapItem P) × List P × ℕ}
      → r ≡ (
        filter (λ y. not (is_due hold now y)) h,
        (out ++ x.payload ∷ []) ++ payloads (filter (is_due hold now) h),
        popped + 1 + length (filter (is_due hold now) h),
      )
      → r ≡ (
        filter (λ y. not (is_due hold now y)) h,
        out ++ x.payload ∷ payloads (filter (is_due hold now) h),
        popped + suc (length (filter (is_due hold now) h)),
      )
  pop_one hold now x h out popped e =
      let n = length (filter (is_due hold now) h) in
      let f : popped + 1 + n ≡ popped + suc n = omega arith in
      e ∙ rw (append_assoc out (x.payload ∷ []) (payloads (filter (is_due hold now) h)), f) refl

  pop_loop-filter :
      (hold now : ℕ) (h : List (HeapItem P)) (out : List P) (popped : ℕ)
      → Ascending h
      → pop_loop hold now h out popped ≡ (
        filter (λ x. not (is_due hold now x)) h,
        out ++ payloads (filter (is_due hold now) h),
        popped + length (filter (is_due hold now) h),
      )
  unfolding pop_loop
  pop_loop-filter hold now [] out popped a = rw (append-nil, add-zero)
  pop_loop-filter hold now (x ∷ h) out popped a = elim (Bool-cases (is_due hold now x)) [
    | inl e ↦ rw e (
        pop_one hold now x h out popped
          (pop_loop-filter hold now h (out ++ x.payload ∷ []) (popped + 1) a.1))
    | inr e ↦
        rw (e, (none_due hold now x h e a.0).0, (none_due hold now x h e a.0).1)
          (rw (append-nil, add-zero))
  ]

  -- On a valid buffer `pop_ready` returns the payloads of exactly the items whose hold time has
  -- passed, in the order of timestamp and arrival, counts them, and leaves exactly the others.
  pub pop_ready-filter :
      (b : ReorderBuffer P) (now : Option ℕ) (clock : ℕ)
      → IsValid b
      → pop_ready b now clock ≡ (
        record b {
          heap = held b (or_clock now clock);
          popped = b.popped + length (due b (or_clock now clock));
        },
        payloads (due b (or_clock now clock)),
      )
  unfolding pop_ready
  pop_ready-filter b now clock v =
      rw (pop_loop-filter b.hold (or_clock now clock) b.heap [] b.popped v.ascending) refl

  pub All-filter {κ} :
      (Q : HeapItem P → Type κ) (p : HeapItem P → Bool) (h : List (HeapItem P))
      → All Q h
      → All Q (filter p h)
  All-filter Q p [] a = tt
  All-filter Q p (x ∷ h) a = elim (Bool-cases (p x)) [
    | inl e ↦ rw e (a.0, All-filter Q p h a.1)
    | inr e ↦ rw e (All-filter Q p h a.1)
  ]

  pub Ascending-filter :
      (p : HeapItem P → Bool) (h : List (HeapItem P)) → Ascending h → Ascending (filter p h)
  Ascending-filter p [] a = tt
  Ascending-filter p (x ∷ h) a = elim (Bool-cases (p x)) [
    | inl e ↦ rw e (All-filter (λ y. item_lt x y ≡ true) p h a.0, Ascending-filter p h a.1)
    | inr e ↦ rw e (Ascending-filter p h a.1)
  ]

  length-filter :
      (p : HeapItem P → Bool) (h : List (HeapItem P))
      → length (filter p h) + length (filter (λ x. not (p x)) h) ≡ length h
  length-filter p [] = omega arith
  length-filter p (x ∷ h) = ground (arith, length-filter p h)

  -- Releasing keeps the invariant of the buffer.
  pub pop_ready-IsValid :
      (b : ReorderBuffer P) (now : Option ℕ) (clock : ℕ)
      → IsValid b
      → IsValid (pop_ready b now clock).0
  pop_ready-IsValid b now clock v =
      let t = or_clock now clock in
      let n = length-filter (is_due b.hold t) b.heap in
      rw (pop_ready-filter b now clock v) (record {
        ascending = Ascending-filter (λ x. not (is_due b.hold t x)) b.heap v.ascending;
        older = All-filter (λ y. y.seq < b.next_seq) (λ x. not (is_due b.hold t x)) b.heap v.older;
        bounded = omega (arith, v.bounded, n);
        counted = omega (arith, v.counted, n);
      })

  due_after_wait :
      (hold timeout clock now : ℕ) (h : List (HeapItem P))
      → Ascending h
      → wait_for hold timeout clock h < timeout
      → clock ≤ now
      → now < clock + wait_for hold timeout clock h
      → (payloads (filter (is_due hold (clock + wait_for hold timeout clock h)) h) ≢ [])
        × (payloads (filter (is_due hold now) h) ≡ [])
  due_after_wait hold timeout clock now [] a w c p = absurd (omega arith)
  due_after_wait hold timeout clock now (x ∷ h) a w c p =
      let later : is_due hold (clock + wait_for hold timeout clock (x ∷ h)) x ≡ true =
        le→leb _ _ (omega arith) in
      let early : is_due hold now x ≡ false = lt→leb_false _ _ (omega arith) in
      (rw later (λ e. cc), rw (early, (none_due hold now x h early a.0).0) refl)

  -- If `wait_next` blocks for less than its limit, then something is due when it returns, and
  -- nothing is due between its call and its return.
  pub pop_ready-wait_next :
      (b : ReorderBuffer P) (timeout clock now : ℕ)
      → IsValid b
      → wait_next b timeout clock < timeout
      → clock ≤ now
      → now < clock + wait_next b timeout clock
      → ((pop_ready b (some (clock + wait_next b timeout clock)) clock).1 ≢ [])
        × ((pop_ready b (some now) clock).1 ≡ [])
  unfolding wait_next
  pop_ready-wait_next b timeout clock now v w c p =
      rw
        (
          pop_ready-filter b (some (clock + wait_next b timeout clock)) clock v,
          pop_ready-filter b (some now) clock v,
        )
        (due_after_wait b.hold timeout clock now b.heap v.ascending w c p)
