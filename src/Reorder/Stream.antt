-- ===== src/Reorder/Stream.antt =====
-- The stream that comes out of the reorder buffer, over any sequence of pushes and releases.
use ais_server.Prelude.{
  ℕ, ◌+◌, ◌-◌, ◌≤◌, ◌<◌, ◌≡◌, refl, ◌∙◌, inl, inr, true, not, some, List, [], ◌∷◌, ◌++◌, map, arith,
  leb, leb→le, leb_false→lt, Bool-cases, length, All, All-weaken, All-append, filter,
}
use mathlib.Core.List.{map-append}
use ais_server.Reorder.{HeapItem, ReorderBuffer, item_lt, empty, evict, push, is_due, pop_ready}
use ais_server.Reorder.Order.{IsValid, empty-IsValid, Ascending, push-IsValid, All-heappush}
use ais_server.Reorder.Release.{
  payloads, pop_ready-filter, pop_ready-IsValid, All-filter, Ascending-filter,
}

-- What the threads do to the buffer: the ingest threads push, the output thread releases.
pub data Event {ℓ} (P : Type ℓ) : Type ℓ where
  arrive : P → ℕ → ℕ → Event P
  release : ℕ → Event P

module _ {ℓ} {P : Type ℓ} where
  -- The payloads that are released, in order.
  unfoldable pub run : ReorderBuffer P → List (Event P) → List P
  run b [] = []
  run b (arrive payload ts clock ∷ events) = run (push b payload (some ts) clock).0 events
  run b (release now ∷ events) =
      (pop_ready b (some now) now).1 ++ run (pop_ready b (some now) now).0 events

  -- The clock does not run back, each sentence is pushed before its timestamp is `hold` old, and
  -- each payload carries its timestamp.
  abbrev pub Punctual : (P → ℕ) → ℕ → ℕ → List (Event P) → Type 0
  Punctual stamp hold last [] = Unit
  Punctual stamp hold last (arrive payload ts clock ∷ events) =
      (stamp payload ≡ ts) × (last ≤ clock) × (clock < ts + hold) × Punctual stamp hold clock events
  Punctual stamp hold last (release now ∷ events) = (last ≤ now) × Punctual stamp hold now events

-- Timestamps never go down.
abbrev pub Chronological : List ℕ → Type 0
Chronological [] = Unit
Chronological (t ∷ ts) = All (λ u. t ≤ u) ts × Chronological ts

Chronological-append :
    (m : ℕ) (ts us : List ℕ)
    → All (λ t. t ≤ m) ts
    → All (λ u. m ≤ u) us
    → Chronological ts
    → Chronological us
    → Chronological (ts ++ us)
Chronological-append m [] us a b c d = d
Chronological-append m (t ∷ ts) us a b c d = (
  All-append (λ u. t ≤ u) ts us c.0
      (All-weaken (λ u. m ≤ u) (λ u. t ≤ u) us (λ u h. omega arith) b),
  Chronological-append m ts us a.1 b c.1 d,
)

ts_le_of_lt {ℓ} : {P : Type ℓ} (x y : HeapItem P) → item_lt x y ≡ true → x.ts ≤ y.ts
ts_le_of_lt x y h = ground arith

module _ {ℓ} {P : Type ℓ} (stamp : P → ℕ) where
  -- An item that no release up to the time `since` could have let out.
  abbrev Fresh : ℕ → ℕ → HeapItem P → Type 0
  Fresh hold since x = (stamp x.payload ≡ x.ts) × (since < x.ts + hold)

  abbrev Stamped : HeapItem P → Type 0
  Stamped x = stamp x.payload ≡ x.ts

  payloads-Chronological :
      (h : List (HeapItem P)) → All Stamped h → Ascending h → Chronological (map stamp (payloads h))
  payloads-Chronological [] s a = tt
  payloads-Chronological (x ∷ h) s a = (from_head h s.1 a.0, payloads-Chronological h s.1 a.1)
    where
      from_head :
          (h : List (HeapItem P))
          → All Stamped h
          → All (λ y. item_lt x y ≡ true) h
          → All (λ u. stamp x.payload ≤ u) (map stamp (payloads h))
      from_head [] s a = tt
      from_head (y ∷ h) s' a = (omega (arith, s.0, ts_le_of_lt x y a.0), from_head h s'.1 a.1)

  -- The state between two events, `since` being the time of the last release.
  record Follows (hold since last : ℕ) (b : ReorderBuffer P) : Type 0 where
    valid : IsValid b
    positive : 0 < b.max_queue
    hold_eq : b.hold ≡ hold
    since_le : since ≤ last
    fresh : All (Fresh hold since) b.heap

  Fresh-push :
      (hold since : ℕ) (b : ReorderBuffer P) (payload : P) (ts clock : ℕ)
      → All (Fresh hold since) b.heap
      → stamp payload ≡ ts
      → since < ts + hold
      → All (Fresh hold since) (push b payload (some ts) clock).0.heap
        × ((push b payload (some ts) clock).0.hold ≡ b.hold)
        × ((push b payload (some ts) clock).0.max_queue ≡ b.max_queue)
  unfolding push
  Fresh-push hold since b payload ts clock f e h =
      elim (Bool-cases (leb b.max_queue (length b.heap))) [
        | inl full ↦ rw full (on_full b.heap f)
        | inr room ↦ rw room (All-heappush (Fresh hold since) _ b.heap (e, h) f, refl, refl)
      ]
    where
      b' : ReorderBuffer P
      b' = record b { next_seq = b.next_seq + 1 }

      x : HeapItem P
      x = record { ts = ts; seq = b.next_seq; payload = payload }

      on_full :
          (h : List (HeapItem P))
          → All (Fresh hold since) h
          → All (Fresh hold since) (evict b' h x).0.heap
            × ((evict b' h x).0.hold ≡ b.hold)
            × ((evict b' h x).0.max_queue ≡ b.max_queue)
      on_full [] g = (f, refl, refl)
      on_full (y ∷ rest) g = (All-heappush (Fresh hold since) x rest (e, h) g.1, refl, refl)

  Follows-arrive :
      (hold since last : ℕ) (b : ReorderBuffer P) (payload : P) (ts clock : ℕ)
      → Follows hold since last b
      → stamp payload ≡ ts
      → last ≤ clock
      → clock < ts + hold
      → Follows hold since clock (push b payload (some ts) clock).0
  Follows-arrive hold since last b payload ts clock f e l h =
      let g = Fresh-push hold since b payload ts clock f.fresh e (omega (arith, f.since_le)) in
      record {
        valid = push-IsValid b payload (some ts) clock f.positive f.valid;
        positive = omega (arith, f.positive, g.2);
        hold_eq = g.1 ∙ f.hold_eq;
        since_le = omega (arith, f.since_le);
        fresh = g.0;
      }

  held-Fresh :
      (hold since now : ℕ) (h : List (HeapItem P))
      → All (Fresh hold since) h
      → All (Fresh hold now) (filter (λ x. not (is_due hold now x)) h)
  held-Fresh hold since now [] f = tt
  held-Fresh hold since now (x ∷ h) f = elim (Bool-cases (is_due hold now x)) [
    | inl e ↦ rw e (held-Fresh hold since now h f.1)
    | inr e ↦ rw e ((f.0.0, leb_false→lt _ _ e), held-Fresh hold since now h f.1)
  ]

  due_stamps :
      (hold since now : ℕ) (h : List (HeapItem P))
      → All (Fresh hold since) h
      → since ≤ now
      → All
          (λ t. (t ≤ now - hold) × (since < t + hold))
          (map stamp (payloads (filter (is_due hold now) h)))
  due_stamps hold since now [] f p = tt
  due_stamps hold since now (x ∷ h) f p = elim (Bool-cases (is_due hold now x)) [
    | inl e ↦ rw e (
      (omega (arith, f.0.0, leb→le _ _ e), omega (arith, f.0.0, f.0.1)),
      due_stamps hold since now h f.1 p,
    )
    | inr e ↦ rw e (due_stamps hold since now h f.1 p)
  ]

  Follows-release :
      (hold since last now : ℕ) (b : ReorderBuffer P)
      → Follows hold since last b
      → last ≤ now
      → Follows hold now now (pop_ready b (some now) now).0
  Follows-release hold since last now b f l =
      rw (pop_ready-filter b (some now) now f.valid) (record {
        valid =
            rw (pop_ready-filter b (some now) now f.valid) at
              (pop_ready-IsValid b (some now) now f.valid);
        positive = f.positive;
        hold_eq = f.hold_eq;
        since_le = omega arith;
        fresh = rw f.hold_eq (held-Fresh hold since now b.heap f.fresh);
      })

  -- What one release adds in front of what comes later.
  join_release :
      (hold since now : ℕ) (out rest : List P)
      → since ≤ now
      → Chronological (map stamp out)
        × All (λ t. (t ≤ now - hold) × (since < t + hold)) (map stamp out)
      → Chronological (map stamp rest) × All (λ t. now < t + hold) (map stamp rest)
      → Chronological (map stamp (out ++ rest))
        × All (λ t. since < t + hold) (map stamp (out ++ rest))
  join_release hold since now out rest p o r =
      let o_le =
        All-weaken (λ t. (t ≤ now - hold) × (since < t + hold)) (λ t. t ≤ now - hold)
          (map stamp out) (λ t h. h.0) o.1 in
      let o_lt =
        All-weaken (λ t. (t ≤ now - hold) × (since < t + hold)) (λ t. since < t + hold)
          (map stamp out) (λ t h. h.1) o.1 in
      let r_le =
        All-weaken (λ t. now < t + hold) (λ t. now - hold ≤ t) (map stamp rest) (λ t h. omega arith)
          r.1 in
      let r_lt =
        All-weaken (λ t. now < t + hold) (λ t. since < t + hold) (map stamp rest)
          (λ t h. omega arith) r.1 in
      rw (map-append stamp out rest) (
        Chronological-append (now - hold) (map stamp out) (map stamp rest) o_le r_le o.0 r.0,
        All-append (λ t. since < t + hold) (map stamp out) (map stamp rest) o_lt r_lt,
      )

  released :
      (hold since last now : ℕ) (b : ReorderBuffer P)
      → Follows hold since last b
      → last ≤ now
      → Chronological (map stamp (pop_ready b (some now) now).1)
        × All
            (λ t. (t ≤ now - hold) × (since < t + hold))
            (map stamp (pop_ready b (some now) now).1)
  released hold since last now b f p =
      let stamped = All-weaken (Fresh hold since) Stamped b.heap (λ x h. h.0) f.fresh in
      let due_now = filter (is_due hold now) b.heap in
      rw (pop_ready-filter b (some now) now f.valid, f.hold_eq)
        (
          payloads-Chronological due_now (All-filter Stamped (is_due hold now) b.heap stamped)
              (Ascending-filter (is_due hold now) b.heap f.valid.ascending),
          due_stamps hold since now b.heap f.fresh (omega (arith, f.since_le)),
        )

  run-Follows :
      (hold since last : ℕ) (b : ReorderBuffer P) (events : List (Event P))
      → Follows hold since last b
      → Punctual stamp hold last events
      → Chronological (map stamp (run b events))
        × All (λ t. since < t + hold) (map stamp (run b events))
  unfolding run
  run-Follows hold since last b [] f p = (tt, tt)
  run-Follows hold since last b (arrive payload ts clock ∷ events) f p =
      run-Follows hold since clock (push b payload (some ts) clock).0 events
        (Follows-arrive hold since last b payload ts clock f p.0 p.1 p.2) p.3
  run-Follows hold since last b (release now ∷ events) f p =
      let (b', out) = pop_ready b (some now) now in
      join_release hold since now out (run b' events) (omega (arith, f.since_le, p.0))
        (released hold since last now b f p.0)
        (run-Follows hold now now b' events (Follows-release hold since last now b f p.0) p.1)

  -- From an empty buffer with room for one sentence, whatever the threads push and release, if the
  -- clock does not run back and each sentence is pushed before its timestamp is `hold` old, the
  -- sentences come out in the order of their timestamps, over all releases together.
  pub run-Chronological :
      (hold max_queue : ℕ) (events : List (Event P))
      → 0 < max_queue
      → Punctual stamp hold 0 events
      → Chronological (map stamp (run (empty hold max_queue) events))
  unfolding empty
  run-Chronological hold max_queue events room p =
      (run-Follows hold 0 0 (empty hold max_queue) events
        (record {
          valid = empty-IsValid hold max_queue;
          positive = room;
          hold_eq = refl;
          since_le = omega arith;
          fresh = tt;
        })
        p).0
