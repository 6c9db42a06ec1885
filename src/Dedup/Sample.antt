-- ===== src/Dedup/Sample.antt =====
-- A cache with a time to live and a bounded number of entries, to run the detector on.
use ais_server.Prelude.{
  ℕ, zero, suc, ◌+◌, ◌≤◌, ◌<◌, ◌≡◌, refl, sym, ap, ◌∙◌, ◌≢◌, Option, none, some, List, [], ◌∷◌,
  arith, ltb, if◌then◌else◌, ◌==◌, nat_eq, ==_refl, length, take,
}
use ais_server.Prelude.Text.{Text, text_eqb_iff, text_eq}
use mathlib.Core.Option
use ais_server.Dedup.Cache.{TtlCache}

-- The newest entry first, each with the time at which it is gone.
abbrev pub Entries : Type 0
Entries = List (Text × ℕ × ℕ)

unfoldable pub find : ℕ → Entries → Text → Option ℕ
find now [] k = none
find now ((j, v, gone) ∷ c) k =
    let rest = find now c k in if j == k then (if ltb now gone then some v else none) else rest

unfoldable pub without : Entries → Text → Entries
without [] k = []
without ((j, v, gone) ∷ c) k =
    let rest = without c k in if j == k then rest else (j, v, gone) ∷ rest

unfoldable pub add : ℕ → ℕ → ℕ → Entries → Text → ℕ → Option Entries
add ttl zero now c k v = none
add ttl (suc maxsize) now c k v = some ((k, v, now + ttl) ∷ take maxsize (without c k))

find-take :
    (n later : ℕ) (c : Entries) (j : Text) (w : ℕ)
    → find later (take n c) j ≡ some w
    → find later c j ≡ some w
unfolding find
find-take zero later c j w h = cc
find-take (suc n) later [] j w h = h
find-take (suc n) later ((i, v, gone) ∷ c) j w h = ground (arith, find-take n later c j w)

find-without_ne :
    (later : ℕ) (c : Entries) (k j : Text) → j ≢ k → find later (without c k) j ≡ find later c j
unfolding find without
find-without_ne later [] k j h = refl
find-without_ne later ((i, v, gone) ∷ c) k j h =
    ground (arith, find-without_ne later c k j h, text_eqb_iff i k, text_eqb_iff i j)

length-without : (c : Entries) (k : Text) → length (without c k) ≤ length c
unfolding without
length-without [] k = omega arith
length-without ((i, v, gone) ∷ c) k = ground (arith, length-without c k)

take_all : (n : ℕ) (c : Entries) → length c ≤ n → take n c ≡ c
take_all zero [] h = refl
take_all zero (x ∷ c) h = absurd (omega arith)
take_all (suc n) [] h = refl
take_all (suc n) (x ∷ c) h = ap (◌∷◌ x) (take_all n c (omega arith))

pub find-add_self :
    (ttl maxsize now later : ℕ) (c c' : Entries) (k : Text) (v : ℕ)
    → add ttl maxsize now c k v ≡ some c'
    → find later c' k ≡ (if ltb later (now + ttl) then some v else none)
unfolding add
find-add_self ttl zero now later c c' k v h = cc
find-add_self ttl (suc m) now later c c' k v h =
    sym (ap (λ o. Option.get_or (Option.map (λ d. find later d k) o) none) h)
    ∙ (unfold find in rw (==_refl k) refl)

pub find_expires :
    (now later : ℕ) (c : Entries) (k : Text) (v : ℕ)
    → now ≤ later
    → find later c k ≡ some v
    → find now c k ≡ some v
unfolding find
find_expires now later [] k v p h = h
find_expires now later ((i, w, gone) ∷ c) k v p h = ground (arith, find_expires now later c k v p)

find-cons_ne :
    (later : ℕ) (c : Entries) (k j : Text) (v gone : ℕ)
    → j ≢ k
    → find later ((k, v, gone) ∷ c) j ≡ find later c j
unfolding find
find-cons_ne later c k j v gone h = ground (arith, text_eqb_iff k j)

added : (o : Entries) (c' : Entries) → ◌≡◌ {A = Option Entries} (some o) (some c') → o ≡ c'
added o c' h = cc

pub find-add_ne :
    (ttl maxsize now later : ℕ) (c c' : Entries) (k j : Text) (v w : ℕ)
    → j ≢ k
    → add ttl maxsize now c k v ≡ some c'
    → find later c' j ≡ some w
    → find later c j ≡ some w
unfolding add
find-add_ne ttl zero now later c c' k j v w n h f = cc
find-add_ne ttl (suc m) now later c c' k j v w n h f =
    let e = added _ c' h in
    sym (find-without_ne later c k j n)
    ∙ find-take m later (without c k) j w (
        sym (find-cons_ne later (take m (without c k)) k j v (now + ttl) n)
        ∙ ap (λ d. find later d j) e
        ∙ f)

pub find-add_room :
    (ttl maxsize now later : ℕ) (c c' : Entries) (k j : Text) (v : ℕ)
    → now ≤ later
    → j ≢ k
    → length c < maxsize
    → add ttl maxsize now c k v ≡ some c'
    → find later c' j ≡ find later c j
unfolding add
find-add_room ttl zero now later c c' k j v p n l h = cc
find-add_room ttl (suc m) now later c c' k j v p n l h =
    let e = added _ c' h in
    ap (λ d. find later d j) (sym e)
    ∙ find-cons_ne later (take m (without c k)) k j v (now + ttl) n
    ∙ ap (λ d. find later d j) (take_all m (without c k) (omega (arith, length-without c k)))
    ∙ find-without_ne later c k j n

pub add_fits :
    (ttl maxsize now : ℕ) (c : Entries) (k : Text) (v : ℕ)
    → 0 < maxsize
    → (c' : Entries) × (add ttl maxsize now c k v ≡ some c')
unfolding add
add_fits ttl zero now c k v h = absurd (omega arith)
add_fits ttl (suc m) now c k v h = ((k, v, now + ttl) ∷ take m (without c k), refl)

pub find_empty : (now : ℕ) (k : Text) → find now [] k ≡ none
unfolding find
find_empty now k = refl

abbrev pub bounded_cache : (ttl maxsize : ℕ) → TtlCache Text ℕ ttl maxsize
bounded_cache ttl maxsize = record {
  Cache = Entries;
  empty = [];
  lookup = λ now c k. (c, find now c k);
  store = add ttl maxsize;
  size = λ now c. length c;
  entry = find;
  entry-empty = find_empty;
  lookup-entry = λ now c k. refl;
  entry-lookup = λ now later c k j. refl;
  size-lookup = λ now c k. refl;
  entry-store_self = find-add_self ttl maxsize;
  entry_expires = find_expires;
  entry-store_ne = find-add_ne ttl maxsize;
  entry-store_room = find-add_room ttl maxsize;
  store_fits = add_fits ttl maxsize;
}
