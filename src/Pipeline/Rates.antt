-- ===== src/Pipeline/Rates.antt =====
-- ais_server/pipeline.py: the figures of the dashboard.
use ais_server.Prelude.{
  ℕ, ◌-◌, ◌≤◌, ◌≡◌, refl, sym, ap, ◌∙◌, inl, inr, Bool, true, false, ◌||◌, Option, none, some, List,
  [], ◌∷◌, ◌++◌, arith, ltb, nat_eqb, if◌then◌else◌, nat_eqb_iff, Bool-cases, Option-cases, nat_eq,
  length, length-drop,
}
use ais_server.Prelude.Text.{text_eq}
use ais_server.Prelude.Dict
use ais_server.Prelude.Dict.{Dict, keys}
use ais_server.Events.{ring_append}
use ais_server.Forwarder.Manager.Stopped.{elem}
use ais_server.Pipeline.{Vitals, rate_size, note, delete_if, forget_older, refresh}

-- The figures after some sentences: of each its MMSI and its arrival.
unfoldable pub note_all : Vitals → List (Option ℕ × ℕ) → Vitals
note_all v [] = v
note_all v ((mmsi, arrival_ts) ∷ sentences) = note_all (note v mmsi arrival_ts) sentences

-- However many sentences arrive, no more than 10,000 arrivals are kept, so the rate over the last
-- minute is never reported above 10,000 sentences in 60 seconds.
pub note_all_bound :
    (v : Vitals) (sentences : List (Option ℕ × ℕ))
    → length v.rate_bucket ≤ rate_size
    → length (note_all v sentences).rate_bucket ≤ rate_size
unfolding note_all note ring_append
note_all_bound v [] h = h
note_all_bound v ((mmsi, arrival_ts) ∷ sentences) h =
    let longer = v.rate_bucket ++ arrival_ts ∷ [] in
    note_all_bound (note v mmsi arrival_ts) sentences
      (omega (arith, length-drop (length longer - rate_size) longer))

-- What a refresh leaves of the last arrival of an MMSI.
unfoldable pub if_recent : ℕ → Option ℕ → Option ℕ
if_recent cutoff none = none
if_recent cutoff (some t) = if ltb t cutoff then none else some t

elem-keys : (d : Dict ℕ ℕ) (k v : ℕ) → Dict.get d k ≡ some v → elem k (keys d) ≡ true
unfolding Dict.get elem
elem-keys [] k v h = absurd (ground arith)
elem-keys ((j, w) ∷ d) k v h = ground (arith, elem-keys d k v)

-- One turn of the loop, by what it finds under the MMSI.
delete_one :
    (cutoff m : ℕ) (d : Dict ℕ ℕ) (k : ℕ) (o : Option ℕ)
    → Dict.get d m ≡ o
    → Dict.get (delete_if cutoff m d o) k
      ≡ (if nat_eqb m k then if_recent cutoff (Dict.get d k) else Dict.get d k)
unfolding if_recent
delete_one cutoff m d k none q = elim (Bool-cases (nat_eqb m k)) [
  | inl same ↦
      let e : Dict.get d k ≡ none = ap (Dict.get d) (sym ((nat_eqb_iff m k).0 same)) ∙ q in
      e
      ∙ sym (
          ap (λ b. if b then if_recent cutoff (Dict.get d k) else Dict.get d k) same
          ∙ ap (if_recent cutoff) e)
  | inr other ↦ sym (ap (λ b. if b then if_recent cutoff (Dict.get d k) else Dict.get d k) other)
]
delete_one cutoff m d k (some t) q = elim (Bool-cases (nat_eqb m k)) [
  | inl same ↦
      let e : Dict.get d k ≡ some t = ap (Dict.get d) (sym ((nat_eqb_iff m k).0 same)) ∙ q in
      let r =
        ap (λ b. if b then if_recent cutoff (Dict.get d k) else Dict.get d k) same
        ∙ ap (if_recent cutoff) e in
      elim (Bool-cases (ltb t cutoff)) [
        | inl old ↦
            ap (λ b. Dict.get (if b then Dict.remove d m else d) k) old
            ∙ Dict.get-remove_eq d m k same
            ∙ sym (r ∙ ap (λ b. if b then none else some t) old)
        | inr new ↦
            ap (λ b. Dict.get (if b then Dict.remove d m else d) k) new
            ∙ e
            ∙ sym (r ∙ ap (λ b. if b then none else some t) new)
      ]
  | inr other ↦
      let r = ap (λ b. if b then if_recent cutoff (Dict.get d k) else Dict.get d k) other in
      elim (Bool-cases (ltb t cutoff)) [
        | inl old ↦
            ap (λ b. Dict.get (if b then Dict.remove d m else d) k) old
            ∙ Dict.get-remove_ne d m k other
            ∙ sym r
        | inr new ↦ ap (λ b. Dict.get (if b then Dict.remove d m else d) k) new ∙ sym r
      ]
]

if_recent_twice :
    (cutoff : ℕ) (o : Option ℕ) → if_recent cutoff (if_recent cutoff o) ≡ if_recent cutoff o
unfolding if_recent
if_recent_twice cutoff none = refl
if_recent_twice cutoff (some t) = elim (Bool-cases (ltb t cutoff)) [
  | inl old ↦ rw old refl
  | inr new ↦ ap (λ b. if_recent cutoff (if b then none else some t)) new
]

forget_older-get :
    (cutoff : ℕ) (ms : List ℕ) (d : Dict ℕ ℕ) (k : ℕ)
    → Dict.get (forget_older cutoff ms d) k
      ≡ (if elem k ms then if_recent cutoff (Dict.get d k) else Dict.get d k)
unfolding forget_older elem
forget_older-get cutoff [] d k = refl
forget_older-get cutoff (m ∷ ms) d k =
    let d' = delete_if cutoff m d (Dict.get d m) in
    let one = delete_one cutoff m d k (Dict.get d m) refl in
    forget_older-get cutoff ms d' k
    ∙ ap (λ o. if elem k ms then if_recent cutoff o else o) one
    ∙ both (nat_eqb m k) (elem k ms)
  where
    both :
        (a b : Bool)
        → (if b
            then if_recent cutoff (if a then if_recent cutoff (Dict.get d k) else Dict.get d k)
            else (if a then if_recent cutoff (Dict.get d k) else Dict.get d k))
          ≡ (if a || b then if_recent cutoff (Dict.get d k) else Dict.get d k)
    both true true = if_recent_twice cutoff (Dict.get d k)
    both true false = refl
    both false true = refl
    both false false = refl

-- A refresh for the dashboard forgets exactly the MMSIs whose last sentence is more than ten minutes
-- old, and keeps the last arrival of every other.
pub refresh-get :
    (v : Vitals) (now mmsi : ℕ)
    → Dict.get (refresh v now).0.mmsi_last mmsi
      ≡ if_recent (now - 600000) (Dict.get v.mmsi_last mmsi)
unfolding refresh if_recent
refresh-get v now mmsi =
    let cutoff = now - 600000 in
    forget_older-get cutoff (keys v.mmsi_last) v.mmsi_last mmsi
    ∙ elim (Option-cases (Dict.get v.mmsi_last mmsi)) [
      | inl e ↦ rw e (same (elem mmsi (keys v.mmsi_last)))
      | inr (t, e) ↦
          ap
            (λ b.
              if b then if_recent cutoff (Dict.get v.mmsi_last mmsi) else Dict.get v.mmsi_last mmsi)
            (elem-keys v.mmsi_last mmsi t e)
    ]
  where
    same : (b : Bool) → ◌≡◌ {A = Option ℕ} (if b then none else none) none
    same true = refl
    same false = refl
