-- ===== src/Db/Endpoints/Lookup.antt =====
-- ais_server/db.py: what a lookup in the table of endpoints returns after a change of the table.
use ais_server.Prelude.{
  ℕ, suc, ◌+◌, ◌<◌, ◌≡◌, refl, ap, ◌∙◌, inl, inr, Bool, true, false, ◌&&◌, Option, none, some, List,
  [], ◌∷◌, ◌++◌, arith, ltb, nat_eqb, if◌then◌else◌, lt→ltb, nat_eqb_iff, Bool-cases, length, All,
  filter,
}
use ais_server.Prelude.Int.{ℤ}
use ais_server.Prelude.Text.{Text, text_eqb}
use ais_server.Forwarder.Worker.{Endpoint}
use ais_server.Db.{Database, find, update_where, delete_where, exists}
use ais_server.Db.Users.{map_option, find-update, find-append}
use ais_server.Db.Endpoints.{
  Change, set_name, set_protocol, set_host, set_port, set_path, set_enabled, set_broadcast, ignored,
  get_endpoint, add_endpoint, apply, apply_all, is_allowed, new_name, is_taken, update_endpoint,
  delete_endpoint,
}

find-append_other :
    (k : ℕ) (xs : List Endpoint) (x : Endpoint)
    → nat_eqb x.id k ≡ false
    → find (λ e. nat_eqb e.id k) (xs ++ x ∷ []) ≡ find (λ e. nat_eqb e.id k) xs
unfolding find
find-append_other k [] x h = rw h refl
find-append_other k (y ∷ xs) x h =
    ap (λ o. if nat_eqb y.id k then some y else o) (find-append_other k xs x h)

-- The numbers in use are below the next one, so that a new row never takes an old number.
abbrev pub AreBelow : ℕ → List Endpoint → Type 0
AreBelow n rows = All (λ e. e.id < n) rows

find_below :
    (n : ℕ) (rows : List Endpoint) → AreBelow n rows → find (λ e. nat_eqb e.id n) rows ≡ none
unfolding find
find_below n [] h = refl
find_below n (e ∷ rows) h =
    let miss : nat_eqb e.id n ≡ false = ground (arith, h.0) in rw miss (find_below n rows h.1)

apply-id : (e : Endpoint) (c : Change) → (apply e c).id ≡ e.id
unfolding apply
apply-id e (set_name s) = refl
apply-id e (set_protocol s) = refl
apply-id e (set_host s) = refl
apply-id e (set_port n) = refl
apply-id e (set_path p) = refl
apply-id e (set_enabled b) = refl
apply-id e (set_broadcast b) = refl
apply-id e ignored = refl

pub apply_all-id : (now : ℕ) (e : Endpoint) (cs : List Change) → (apply_all now e cs).id ≡ e.id
unfolding apply_all
apply_all-id now e [] = refl
apply_all-id now e (c ∷ cs) = apply_all-id now (apply e c) cs ∙ apply-id e c

-- A row is added exactly if its name is free. It is found then under its number, as it was given,
-- and every other number finds what it found before.
pub get_endpoint-add_endpoint :
    (db : Database) (name host : Text) (port : ℤ) (protocol : Text) (path : Option Text)
    (enabled broadcast : Bool) (now : ℕ)
    → AreBelow db.next_endpoint db.endpoints
    → let r = add_endpoint db name host port protocol path enabled broadcast now in
      ((e : Endpoint) → find (λ x. text_eqb x.name name) db.endpoints ≡ some e → r ≡ none)
      × (find (λ x. text_eqb x.name name) db.endpoints ≡ none
          → (db' : Database) × (r ≡ some (db', db.next_endpoint))
            × (get_endpoint db' db.next_endpoint
                ≡ some record {
                  id = db.next_endpoint;
                  name = name;
                  protocol = protocol;
                  host = host;
                  port = port;
                  path = path;
                  enabled = enabled;
                  created_at = now;
                  updated_at = now;
                  broadcast = broadcast;
                })
            × ((k : ℕ)
                → nat_eqb db.next_endpoint k ≡ false
                → get_endpoint db' k ≡ get_endpoint db k))
unfolding add_endpoint get_endpoint
get_endpoint-add_endpoint db name host port protocol path enabled broadcast now below =
    let n = db.next_endpoint in
    let row : Endpoint = record {
      id = n;
      name = name;
      protocol = protocol;
      host = host;
      port = port;
      path = path;
      enabled = enabled;
      created_at = now;
      updated_at = now;
      broadcast = broadcast;
    } in
    let db' : Database = record db {
      endpoints = db.endpoints ++ row ∷ [];
      next_endpoint = n + 1;
    } in
    (
      (λ e found. rw found refl),
      λ free. (
        db',
        rw free refl,
        find-append (λ e. nat_eqb e.id n) db.endpoints row (find_below n db.endpoints below)
            ((nat_eqb_iff n n).1 refl),
        λ k other. find-append_other k db.endpoints row other,
      ),
    )

update-other :
    (f : Endpoint → Endpoint) (n k : ℕ) (xs : List Endpoint)
    → ((e : Endpoint) → (f e).id ≡ e.id)
    → nat_eqb n k ≡ false
    → find (λ e. nat_eqb e.id k) (update_where (λ e. nat_eqb e.id n) f xs).0
      ≡ find (λ e. nat_eqb e.id k) xs
unfolding find update_where
update-other f n k [] h d = refl
update-other f n k (x ∷ xs) h d = elim (Bool-cases (nat_eqb x.id n)) [
  | inl hit ↦
      let miss : nat_eqb x.id k ≡ false = ap (λ i. nat_eqb i k) ((nat_eqb_iff x.id n).0 hit) ∙ d in
      let miss' : nat_eqb (f x).id k ≡ false = ap (λ i. nat_eqb i k) (h x) ∙ miss in
      rw (hit, miss, miss') (update-other f n k xs h d)
  | inr miss ↦ rw miss (ap (λ o. if nat_eqb x.id k then some x else o) (update-other f n k xs h d))
]

and_false : (b : Bool) → (b && false) ≡ false
and_false true = refl
and_false false = refl

update_hits :
    (p : Endpoint → Bool) (f : Endpoint → Endpoint) (xs : List Endpoint)
    → ltb 0 (update_where p f xs).1 ≡ exists (find p xs)
unfolding update_where find
update_hits p f [] = refl
update_hits p f (x ∷ xs) = elim (Bool-cases (p x)) [
  | inl hit ↦ rw hit (lt→ltb 0 (suc (update_where p f xs).1) (omega arith))
  | inr miss ↦ rw miss (update_hits p f xs)
]

-- When an update of some columns raises nothing: the row of the number has the new values and the
-- time of the update, if there is such a row, every other row is as before, and the answer tells
-- whether there was one.
pub get_endpoint-update_endpoint :
    (db : Database) (ep_id : ℕ) (kwargs : List Change) (now : ℕ)
    → let changes = filter is_allowed kwargs in
      let r = update_endpoint db ep_id kwargs now in
      0 < length changes
      → is_taken db.endpoints ep_id (new_name changes) ≡ false
      → (db' : Database) × (r ≡ some (db', exists (get_endpoint db ep_id)))
        × (get_endpoint db' ep_id
            ≡ map_option (λ e. apply_all now e changes) (get_endpoint db ep_id))
        × ((k : ℕ) → nat_eqb ep_id k ≡ false → get_endpoint db' k ≡ get_endpoint db k)
unfolding update_endpoint get_endpoint
get_endpoint-update_endpoint db ep_id kwargs now some_change free =
    let changes = filter is_allowed kwargs in
    let p : Endpoint → Bool = λ e. nat_eqb e.id ep_id in
    let f : Endpoint → Endpoint = λ e. apply_all now e changes in
    let u = update_where p f db.endpoints in
    let several : nat_eqb (length changes) 0 ≡ false = ground arith in
    (
      record db { endpoints = u.0 },
      rw (several, free, and_false (ltb 0 u.1))
          (ap (λ b. some (record db { endpoints = u.0 }, b)) (update_hits p f db.endpoints)),
      find-update p f db.endpoints (λ e. ap (λ i. nat_eqb i ep_id) (apply_all-id now e changes)),
      λ k other. update-other f ep_id k db.endpoints (λ e. apply_all-id now e changes) other,
    )

find-delete :
    (n k : ℕ) (xs : List Endpoint)
    → find (λ e. nat_eqb e.id k) (delete_where (λ e. nat_eqb e.id n) xs).0
      ≡ (if nat_eqb n k then none else find (λ e. nat_eqb e.id k) xs)
unfolding find delete_where
find-delete n k [] = ground arith
find-delete n k (x ∷ xs) =
    ground (arith, find-delete n k xs, nat_eqb_iff x.id n, nat_eqb_iff x.id k, nat_eqb_iff n k)

-- A number that was deleted finds no row, and every other number finds what it found before.
pub get_endpoint-delete_endpoint :
    (db : Database) (ep_id k : ℕ)
    → get_endpoint (delete_endpoint db ep_id).0 k
      ≡ (if nat_eqb ep_id k then none else get_endpoint db k)
unfolding delete_endpoint get_endpoint
get_endpoint-delete_endpoint db ep_id k = find-delete ep_id k db.endpoints
