-- ===== src/Dedup/Inherit.antt =====
-- Copies of a sentence are recognised, and inherit the time of the first.
use ais_server.Prelude.{
  ℕ, ◌+◌, ◌≤◌, ◌<◌, ◌≡◌, refl, sym, ap, ◌∙◌, ◌≢◌, inl, inr, Bool, true, false, Option, none, some,
  List, [], ◌∷◌, ◌++◌, arith, if◌then◌else◌, lt→ltb, Bool-cases, Option-cases, All, In, at_head,
  in_tail,
}
use ais_server.Prelude.Text.{Text, text_eqb, text_eqb_iff}
use ais_server.Nmea.{canonicalise}
use ais_server.Reorder.{or_clock}
use ais_server.Dedup.Cache.{TtlCache}
use ais_server.Dedup.{Deduper, init, key, remember, check}

-- The arguments of one call of `check`, with the two clocks.
pub record Call : Type 0 where
  pub sentence : Text
  pub arrival_ts : Option ℕ
  pub clock : ℕ
  pub timer : ℕ

abbrev pub call_ts : Call → ℕ
call_ts c = or_clock c.arrival_ts c.clock

same_time :
    (a b : ℕ) → ◌≡◌ {A = Option (Bool × ℕ)} (some (true, a)) (some (true, b)) → some a ≡ some b
same_time a b h = ground arith

module _ (ttl max_entries : ℕ) (T : TtlCache Text ℕ ttl max_entries) (sha1 : Text → Text) where
  open T use {
    Cache, empty, lookup, store, size, entry, entry-empty, lookup-entry, entry-lookup, size-lookup,
    entry-store_self, entry_expires, entry-store_ne, entry-store_room, store_fits,
  }

  abbrev pub State : Type 0
  State = Deduper ttl max_entries T sha1

  abbrev pub call_key : Call → Text
  call_key c = key ttl max_entries T sha1 c.sentence

  abbrev pub answer : State → Call → State × Option (Bool × ℕ)
  answer d c = check ttl max_entries T sha1 d c.sentence c.arrival_ts c.clock c.timer

  -- What `check` does if the key is in the cache.
  check_hit :
      (d : State) (c : Call) (v : ℕ)
      → entry c.timer d.cache (call_key c) ≡ some v
      → answer d c ≡ (
        record d {
          cache = (lookup c.timer d.cache (call_key c)).0;
          seen = d.seen + 1;
          duplicates = d.duplicates + 1;
        },
        some (false, v),
      )
  unfolding check
  check_hit d c v h = rw (lookup-entry c.timer d.cache (call_key c), h) refl

  -- What it does if not.
  check_miss :
      (d : State) (c : Call)
      → entry c.timer d.cache (call_key c) ≡ none
      → answer d c
        ≡ remember ttl max_entries T sha1
            (record d { cache = (lookup c.timer d.cache (call_key c)).0; seen = d.seen + 1 })
            (call_ts c)
            (store c.timer (lookup c.timer d.cache (call_key c)).0 (call_key c) (call_ts c))
  unfolding check
  check_miss d c h = rw (lookup-entry c.timer d.cache (call_key c), h) refl

  -- The detector after a series of calls, the last call first.
  abbrev pub after : List Call → State
  after [] = init ttl max_entries T sha1
  after (c ∷ earlier) = (answer (after earlier) c).0

  -- At each call the cache has room for one more entry.
  abbrev pub Roomy : List Call → List Call → Type 0
  Roomy [] earlier = Unit
  Roomy (c ∷ cs) earlier =
      (size c.timer (after (cs ++ earlier)).cache < max_entries) × Roomy cs earlier

  keeps_entry :
      (d : State) (c : Call) (k : Text) (v later : ℕ)
      → c.timer ≤ later
      → size c.timer d.cache < max_entries
      → entry later d.cache k ≡ some v
      → entry later (answer d c).0.cache k ≡ some v
  keeps_entry d c k v later t room h = elim (Option-cases (entry c.timer d.cache (call_key c))) [
    | inr (w, hit) ↦
        rw (check_hit d c w hit) (entry-lookup c.timer later d.cache (call_key c) k ∙ h)
    | inl miss ↦ rw (check_miss d c miss) (stored miss _ refl)
  ]
    where
      looked : Cache
      looked = (lookup c.timer d.cache (call_key c)).0

      before : State
      before = record d { cache = looked; seen = d.seen + 1 }

      other : entry c.timer d.cache (call_key c) ≡ none → k ≢ call_key c
      other miss e =
          let live : entry c.timer d.cache (call_key c) ≡ some v =
            rw e at (entry_expires c.timer later d.cache k v t h) in
          cc

      stored :
          entry c.timer d.cache (call_key c) ≡ none
          → (r : Option Cache) → store c.timer looked (call_key c) (call_ts c) ≡ r
          → entry later (remember ttl max_entries T sha1 before (call_ts c) r).0.cache k ≡ some v
      stored miss none e = entry-lookup c.timer later d.cache (call_key c) k ∙ h
      stored miss (some c') e =
          entry-store_room c.timer later looked c' (call_key c) k (call_ts c) t (other miss)
            (omega (arith, size-lookup c.timer d.cache (call_key c))) e
          ∙ entry-lookup c.timer later d.cache (call_key c) k
          ∙ h

  -- A new sentence is in the cache until its time to live is over.
  new_entry :
      (d : State) (c : Call) (ts later : ℕ)
      → (answer d c).1 ≡ some (true, ts)
      → later < c.timer + ttl
      → entry later (answer d c).0.cache (call_key c) ≡ some ts
  new_entry d c ts later h l = elim (Option-cases (entry c.timer d.cache (call_key c))) [
    | inr (w, hit) ↦ absurd (not_new w hit)
    | inl miss ↦
        rw (check_miss d c miss) (stored _ refl (sym (ap (λ r. r.1) (check_miss d c miss)) ∙ h))
  ]
    where
      looked : Cache
      looked = (lookup c.timer d.cache (call_key c)).0

      before : State
      before = record d { cache = looked; seen = d.seen + 1 }

      not_new : (w : ℕ) → entry c.timer d.cache (call_key c) ≡ some w → ⊥
      not_new w hit = let e = sym (ap (λ r. r.1) (check_hit d c w hit)) ∙ h in ground arith

      stored :
          (r : Option Cache)
          → store c.timer looked (call_key c) (call_ts c) ≡ r
          → (remember ttl max_entries T sha1 before (call_ts c) r).1 ≡ some (true, ts)
          → entry later (remember ttl max_entries T sha1 before (call_ts c) r).0.cache (call_key c)
            ≡ some ts
      stored none e f = cc
      stored (some c') e f =
          entry-store_self c.timer later looked c' (call_key c) (call_ts c) e
          ∙ ap (λ b. if b then some (call_ts c) else none) (lt→ltb _ _ l)
          ∙ same_time (call_ts c) ts f

  still_there :
      (between earlier : List Call) (k : Text) (v later : ℕ)
      → All (λ c. c.timer ≤ later) between
      → Roomy between earlier
      → entry later (after earlier).cache k ≡ some v
      → entry later (after (between ++ earlier)).cache k ≡ some v
  still_there [] earlier k v later t r h = h
  still_there (c ∷ between) earlier k v later t r h =
      keeps_entry (after (between ++ earlier)) c k v later t.0 r.0
        (still_there between earlier k v later t.1 r.1 h)

  -- If a sentence was new, a later sentence with the same canonical form is a duplicate with the
  -- arrival time of the first, whatever was checked in between, if it comes within the time to
  -- live, the timer does not run back, and the cache was not full at a call in between.
  pub check_inherits :
      (earlier between : List Call) (first copy : Call) (ts : ℕ)
      → canonicalise copy.sentence ≡ canonicalise first.sentence
      → (answer (after earlier) first).1 ≡ some (true, ts)
      → copy.timer < first.timer + ttl
      → All (λ c. c.timer ≤ copy.timer) between
      → Roomy between (first ∷ earlier)
      → (answer (after (between ++ first ∷ earlier)) copy).1 ≡ some (false, ts)
  unfolding key
  check_inherits earlier between first copy ts same new live times room =
      let kept =
        still_there between (first ∷ earlier) (call_key first) ts copy.timer times room
          (new_entry (after earlier) first ts copy.timer new live) in
      let d = after (between ++ first ∷ earlier) in
      let found : entry copy.timer d.cache (call_key copy) ≡ some ts =
        ap (λ s. entry copy.timer d.cache (sha1 s)) same ∙ kept in
      ap (λ r. r.1) (check_hit d copy ts found)

  -- What an entry comes from, among the calls.
  abbrev Source : List Call → Text → ℕ → Type 0
  Source cs k v = (a : Call) × In a cs × (call_key a ≡ k) × (call_ts a ≡ v)

  -- Every entry comes from a call that was made.
  abbrev Known : List Call → Type 0
  Known cs =
      (later : ℕ) (k : Text) (v : ℕ) → entry later (after cs).cache k ≡ some v → Source cs k v

  older : (c : Call) (cs : List Call) (k : Text) (v : ℕ) → Source cs k v → Source (c ∷ cs) k v
  older c cs k v (a, i, p, q) = (a, in_tail i, p, q)

  Known-empty : Known []
  unfolding init
  Known-empty later k v h = let e = entry-empty later k in absurd (cc)

  Known-stored :
      (cs : List Call) (c : Call) (c' : Cache)
      → Known cs
      → store c.timer (lookup c.timer (after cs).cache (call_key c)).0 (call_key c) (call_ts c)
        ≡ some c'
      → (later : ℕ) (k : Text) (v : ℕ) → entry later c' k ≡ some v
      → Source (c ∷ cs) k v
  Known-stored cs c c' ih e later k v h = elim (Bool-cases (text_eqb k (call_key c))) [
    | inl same ↦ (c, at_head refl, sym ((text_eqb_iff _ _).0 same), own ((text_eqb_iff _ _).0 same))
    | inr other ↦ older c cs k v (ih later k v (from_before (ne other)))
  ]
    where
      ne : text_eqb k (call_key c) ≡ false → k ≢ call_key c
      ne other p = let q = (text_eqb_iff k (call_key c)).1 p in cc

      from_before : k ≢ call_key c → entry later (after cs).cache k ≡ some v
      from_before n =
          sym (entry-lookup c.timer later (after cs).cache (call_key c) k)
          ∙ entry-store_ne c.timer later (lookup c.timer (after cs).cache (call_key c)).0 c'
              (call_key c) k (call_ts c) v n e h

      own : k ≡ call_key c → call_ts c ≡ v
      own p =
          let s =
            entry-store_self c.timer later (lookup c.timer (after cs).cache (call_key c)).0 c'
              (call_key c) (call_ts c) e in
          let s' = sym s ∙ ap (entry later c') (sym p) ∙ h in ground arith

  Known-step : (cs : List Call) (c : Call) → Known cs → Known (c ∷ cs)
  Known-step cs c ih later k v h =
      elim (Option-cases (entry c.timer (after cs).cache (call_key c))) [
        | inr (w, hit) ↦ older c cs k v (
            ih later k v (
              sym (entry-lookup c.timer later (after cs).cache (call_key c) k)
              ∙ sym (ap (λ r. entry later r.0.cache k) (check_hit (after cs) c w hit))
              ∙ h))
        | inl miss ↦
            by_store _ refl
              (sym (ap (λ r. entry later r.0.cache k) (check_miss (after cs) c miss)) ∙ h)
      ]
    where
      looked : Cache
      looked = (lookup c.timer (after cs).cache (call_key c)).0

      before : State
      before = record (after cs) { cache = looked; seen = (after cs).seen + 1 }

      by_store :
          (r : Option Cache)
          → store c.timer looked (call_key c) (call_ts c) ≡ r
          → entry later (remember ttl max_entries T sha1 before (call_ts c) r).0.cache k ≡ some v
          → Source (c ∷ cs) k v
      by_store none e f =
          older c cs k v
            (ih later k v (sym (entry-lookup c.timer later (after cs).cache (call_key c) k) ∙ f))
      by_store (some c') e f = Known-stored cs c c' ih e later k v f

  known : (cs : List Call) → Known cs
  known [] = Known-empty
  known (c ∷ cs) = Known-step cs c (known cs)

  -- From an empty cache, a sentence is called a duplicate only if one with the same canonical form
  -- was checked before, and the time returned is the arrival time of such a copy, provided that
  -- the digest has no collision among the sentences that were checked.
  pub check_has_first_copy :
      (earlier : List Call) (c : Call) (ts : ℕ)
      → ((a : Call)
          → In a earlier
          → sha1 (canonicalise a.sentence) ≡ sha1 (canonicalise c.sentence)
          → canonicalise a.sentence ≡ canonicalise c.sentence)
      → (answer (after earlier) c).1 ≡ some (false, ts)
      → (a : Call) × In a earlier
        × (canonicalise a.sentence ≡ canonicalise c.sentence)
        × (call_ts a ≡ ts)
  unfolding key
  check_has_first_copy earlier c ts injective h =
      elim (Option-cases (entry c.timer (after earlier).cache (call_key c))) [
        | inr (w, hit) ↦
            from (known earlier c.timer (call_key c) w hit)
              (sym (ap (λ r. r.1) (check_hit (after earlier) c w hit)) ∙ h)
        | inl miss ↦
            absurd (not_old _ (sym (ap (λ r. r.1) (check_miss (after earlier) c miss)) ∙ h))
      ]
    where
      before : State
      before = record (after earlier) {
        cache = (lookup c.timer (after earlier).cache (call_key c)).0;
        seen = (after earlier).seen + 1;
      }

      not_old :
          (r : Option Cache)
          → (remember ttl max_entries T sha1 before (call_ts c) r).1 ≡ some (false, ts)
          → ⊥
      not_old none e = cc
      not_old (some c') e = ground arith

      from :
          {w : ℕ}
          → (a : Call) × In a earlier × (call_key a ≡ call_key c) × (call_ts a ≡ w)
          → ◌≡◌ {A = Option (Bool × ℕ)} (some (false, w)) (some (false, ts))
          → (a : Call) × In a earlier
            × (canonicalise a.sentence ≡ canonicalise c.sentence)
            × (call_ts a ≡ ts)
      from (a, i, p, q) e = (a, i, injective a i p, ground arith)
