-- ===== src/Db/Endpoints/Sound.antt =====
-- ais_server/db.py: no method makes a number or a name of the table of endpoints stand twice.
use ais_server.Prelude.{
  ℕ, ◌+◌, ◌<◌, ◌≡◌, refl, sym, ap, ◌∙◌, inl, inr, Bool, true, false, ◌&&◌, not, Option, none, some,
  List, [], ◌∷◌, arith, nat_eqb, ltb, Bool-cases, Option-cases, length, filter, All, All-append,
}
use ais_server.Prelude.Text.{Text, text_eqb, text_eqb_iff}
use ais_server.Prelude.Int.{ℤ}
use ais_server.Prelude.Sort.{AtMostOne}
use ais_server.Forwarder.Worker.{Endpoint}
use ais_server.Db.{Database, find, update_where, exists}
use ais_server.Db.Endpoints.{
  Change, set_name, set_protocol, set_host, set_port, set_path, set_enabled, set_broadcast, ignored,
  apply, apply_all, new_name, or_earlier, is_taken, is_allowed, add_endpoint, update_endpoint,
  delete_endpoint,
}
use ais_server.Db.Endpoints.Lookup.{AreBelow, apply_all-id}
use ais_server.Db.Endpoints.Rows.{
  none_found, AtMostOne-append, AtMostOne-delete_where, All-delete_where, All-update_where,
  AtMostOne-update_where, AtMostOne-update_where_free,
}

abbrev has_id : ℕ → Endpoint → Bool
has_id k e = nat_eqb e.id k

abbrev has_name : Text → Endpoint → Bool
has_name s e = text_eqb e.name s

pub record IsSound (db : Database) : Type 0 where
  pub below : AreBelow db.next_endpoint db.endpoints
  pub ids : (k : ℕ) → AtMostOne (λ (e : Endpoint). nat_eqb e.id k) db.endpoints
  pub names : (s : Text) → AtMostOne (λ (e : Endpoint). text_eqb e.name s) db.endpoints

-- The database after a call that may raise.
abbrev pub after : {A : Type 0} → Database → Option (Database × A) → Database
after db none = db
after db (some (db', a)) = db'

raise_bound : (n : ℕ) (rows : List Endpoint) → AreBelow n rows → AreBelow (n + 1) rows
raise_bound n [] a = tt
raise_bound n (e ∷ rows) a = (omega (arith, a.0), raise_bound n rows a.1)

new_id :
    (n k : ℕ) (rows : List Endpoint)
    → AreBelow n rows
    → All (λ e. (nat_eqb e.id k && nat_eqb n k) ≡ false) rows
new_id n k [] a = tt
new_id n k (e ∷ rows) a = (ground (arith, a.0), new_id n k rows a.1)

new_name_free :
    (name s : Text) (rows : List Endpoint)
    → All (λ e. text_eqb e.name name ≡ false) rows
    → All (λ e. (text_eqb e.name s && text_eqb name s) ≡ false) rows
new_name_free name s [] a = tt
new_name_free name s (e ∷ rows) a = (
  ground (arith, a.0, text_eqb_iff e.name s, text_eqb_iff name s, text_eqb_iff e.name name),
  new_name_free name s rows a.1,
)

pub add_endpoint-IsSound :
    (db : Database) (name host : Text) (port : ℤ) (protocol : Text) (path : Option Text)
    (enabled broadcast : Bool) (now : ℕ)
    → IsSound db
    → IsSound (after db (add_endpoint db name host port protocol path enabled broadcast now))
unfolding add_endpoint
add_endpoint-IsSound db name host port protocol path enabled broadcast now v =
    elim (Option-cases (find (has_name name) db.endpoints)) [
      | inl free ↦
          let n = db.next_endpoint in
          rw free (record {
            below =
                All-append (λ e. e.id < n + 1) db.endpoints _ (raise_bound n db.endpoints v.below)
                  (omega arith, tt);
            ids = λ k.
                AtMostOne-append (has_id k) db.endpoints _ (v.ids k)
                  (new_id n k db.endpoints v.below);
            names = λ s.
                AtMostOne-append (has_name s) db.endpoints _ (v.names s) (
                  new_name_free name s db.endpoints (none_found (has_name name) db.endpoints free));
          })
      | inr (e, taken) ↦ rw taken v
    ]

pub delete_endpoint-IsSound :
    (db : Database) (ep_id : ℕ) → IsSound db → IsSound (delete_endpoint db ep_id).0
unfolding delete_endpoint
delete_endpoint-IsSound db ep_id v = record {
  below =
      All-delete_where (λ e. true) (has_id ep_id) (λ e. e.id < db.next_endpoint) db.endpoints
        v.below;
  ids = λ k. AtMostOne-delete_where (has_id k) (has_id ep_id) db.endpoints (v.ids k);
  names = λ s. AtMostOne-delete_where (has_name s) (has_id ep_id) db.endpoints (v.names s);
}

abbrev or_old : Option Text → Text → Text
or_old none s = s
or_old (some t) s = t

apply_all-name :
    (now : ℕ) (e : Endpoint) (changes : List Change)
    → (apply_all now e changes).name ≡ or_old (new_name changes) e.name
unfolding apply_all apply new_name
apply_all-name now e [] = refl
apply_all-name now e (set_name s ∷ cs) =
    apply_all-name now (record e { name = s }) cs ∙ later (new_name cs)
  where
    later : (o : Option Text) → or_old o s ≡ or_old (or_earlier s o) e.name
    later none = refl
    later (some t) = refl
apply_all-name now e (set_protocol s ∷ cs) = apply_all-name now (record e { protocol = s }) cs
apply_all-name now e (set_host s ∷ cs) = apply_all-name now (record e { host = s }) cs
apply_all-name now e (set_port s ∷ cs) = apply_all-name now (record e { port = s }) cs
apply_all-name now e (set_path s ∷ cs) = apply_all-name now (record e { path = s }) cs
apply_all-name now e (set_enabled s ∷ cs) = apply_all-name now (record e { enabled = s }) cs
apply_all-name now e (set_broadcast s ∷ cs) = apply_all-name now (record e { broadcast = s }) cs
apply_all-name now e (ignored ∷ cs) = apply_all-name now e cs

update_none :
    (q : Endpoint → Bool) (f : Endpoint → Endpoint) (xs : List Endpoint)
    → ltb 0 (update_where q f xs).1 ≡ false
    → (update_where q f xs).0 ≡ xs
unfolding update_where
update_none q f [] h = refl
update_none q f (x ∷ xs) h = elim (Bool-cases (q x)) [
  | inl e ↦ absurd (ground (arith, e, h))
  | inr e ↦ rw e (ap (λ ys. x ∷ ys) (update_none q f xs (ground (arith, e, h))))
]

not_exists : {A : Type 0} (o : Option A) → exists o ≡ false → o ≡ none
not_exists none h = refl
not_exists (some a) h = cc

module _ (db : Database) (ep_id now : ℕ) (changes : List Change) (v : IsSound db) where
  changed_row : Endpoint → Endpoint
  changed_row e = apply_all now e changes

  updated_names :
      (o : Option Text)
      → new_name changes ≡ o
      → is_taken db.endpoints ep_id o ≡ false
      → (s : Text) → AtMostOne (has_name s) (update_where (has_id ep_id) changed_row db.endpoints).0
  unfolding changed_row
  updated_names none e free s =
      AtMostOne-update_where (has_id ep_id) changed_row (has_name s) db.endpoints
        (λ x h.
          ap (λ n. text_eqb n s) (sym (apply_all-name now x changes ∙ ap (λ o. or_old o x.name) e))
          ∙ h)
        (v.names s)
  updated_names (some t) e free s = elim (Bool-cases (text_eqb t s)) [
    | inl same ↦
        AtMostOne-update_where_free (has_id ep_id) changed_row (has_name s) db.endpoints
          (let t_is_s : t ≡ s = (text_eqb_iff t s).0 same in
            rw (← t_is_s) (
              none_found (λ x. has_name t x && not (has_id ep_id x)) db.endpoints
                (not_exists _ free)))
          (v.ids ep_id)
    | inr other ↦
        AtMostOne-update_where (has_id ep_id) changed_row (has_name s) db.endpoints
          (λ x h.
            let name : (apply_all now x changes).name ≡ t =
              apply_all-name now x changes ∙ ap (λ o. or_old o x.name) e in
            absurd (
              ground
                (arith, other, h, name, text_eqb_iff t s, text_eqb_iff (changed_row x).name s)))
          (v.names s)
  ]

  updated_ids :
      (k : ℕ) → AtMostOne (has_id k) (update_where (has_id ep_id) changed_row db.endpoints).0
  unfolding changed_row
  updated_ids k =
      AtMostOne-update_where (has_id ep_id) changed_row (has_id k) db.endpoints
        (λ x h. ap (λ i. nat_eqb i k) (sym (apply_all-id now x changes)) ∙ h) (v.ids k)

  updated_below : AreBelow db.next_endpoint (update_where (has_id ep_id) changed_row db.endpoints).0
  unfolding changed_row
  updated_below =
      All-update_where (has_id ep_id) changed_row (λ x. x.id < db.next_endpoint)
        (λ x. x.id < db.next_endpoint) db.endpoints (λ x b _. rw (apply_all-id now x changes) b)
        (λ x b _. b) v.below

  updated-IsSound :
      (ltb 0 (update_where (has_id ep_id) changed_row db.endpoints).1
          && is_taken db.endpoints ep_id (new_name changes))
        ≡ false
      → IsSound (record db { endpoints = (update_where (has_id ep_id) changed_row db.endpoints).0 })
  updated-IsSound free =
      elim (Bool-cases (ltb 0 (update_where (has_id ep_id) changed_row db.endpoints).1)) [
        | inl some_row ↦ record {
          below = updated_below;
          ids = updated_ids;
          names = updated_names (new_name changes) refl (rw some_row at free);
        }
        | inr no_row ↦ rw (update_none (has_id ep_id) changed_row db.endpoints no_row) v
      ]

pub update_endpoint-IsSound :
    (db : Database) (ep_id : ℕ) (kwargs : List Change) (now : ℕ)
    → IsSound db
    → IsSound (after db (update_endpoint db ep_id kwargs now))
unfolding update_endpoint changed_row
update_endpoint-IsSound db ep_id kwargs now v =
    let changes = filter is_allowed kwargs in
    let u = update_where (has_id ep_id) (λ e. apply_all now e changes) db.endpoints in
    elim (Bool-cases (nat_eqb (length changes) 0)) [
      | inl nothing ↦ rw nothing v
      | inr something ↦
          elim (Bool-cases (ltb 0 u.1 && is_taken db.endpoints ep_id (new_name changes))) [
            | inl taken ↦ rw (something, taken) v
            | inr free ↦ rw (something, free) (updated-IsSound db ep_id now changes v free)
          ]
    ]
