-- ===== src/Db.antt =====
-- ais_server/db.py: the tables as lists of rows, with the statements that the methods run. Rows are
-- added at the end, and a row's number is one more than the largest that the table ever had. The
-- package `bcrypt` is a parameter. No result of a method is an `IntegrityError` of SQLite.
pub mod Users
pub mod Endpoints
mod Tests
use ais_server.Prelude.{
  ℕ, suc, ◌+◌, ◌-◌, ◌≡◌, Bool, true, false, Option, none, some, List, [], ◌∷◌, ◌++◌, ltb, nat_eqb,
  if◌then◌else◌, nat_eq, length,
}
use ais_server.Prelude.Text.{Text, codes, text_eqb, text_eq}
use ais_server.Prelude.Dict
use ais_server.Prelude.Dict.{Dict}
use ais_server.Forwarder.Worker.{Endpoint}

-- `hashpw` with its salt, and `checkpw`, which raises `ValueError` (no result) on a hash that it does
-- not read. A hash accepts its own password.
pub record Bcrypt : Type 0 where
  pub hashpw : Text → ℕ → Text
  pub checkpw : Text → Text → Option Bool
  pub checkpw-hashpw :
      (password : Text) (salt : ℕ) → checkpw password (hashpw password salt) ≡ some true

pub record User : Type 0 where
  pub id : ℕ
  pub username : Text
  pub pw_hash : Text
  pub must_change_password : Bool
  pub created_at : ℕ
  pub last_login : Option ℕ

pub record Database : Type 0 where
  pub users : List User
  pub next_user : ℕ
  pub endpoints : List Endpoint
  pub next_endpoint : ℕ
  pub kv : Dict Text Text

unfoldable pub new : Database
new = record { users = []; next_user = 1; endpoints = []; next_endpoint = 1; kv = [] }

-- The first row that passes a test.
unfoldable pub find {ℓ} : {A : Type ℓ} → (A → Bool) → List A → Option A
find p [] = none
find p (x ∷ xs) = if p x then some x else find p xs

-- `UPDATE ... WHERE`, and the number of rows that it changes.
unfoldable pub update_where {ℓ} : {A : Type ℓ} → (A → Bool) → (A → A) → List A → List A × ℕ
update_where p f [] = ([], 0)
update_where p f (x ∷ xs) =
    let (rest, count) = update_where p f xs in
    if p x then (f x ∷ rest, suc count) else (x ∷ rest, count)

-- `DELETE ... WHERE`, and the number of rows that it removes.
unfoldable pub delete_where {ℓ} : {A : Type ℓ} → (A → Bool) → List A → List A × ℕ
delete_where p [] = ([], 0)
delete_where p (x ∷ xs) =
    let (rest, count) = delete_where p xs in if p x then (rest, suc count) else (x ∷ rest, count)

abbrev pub exists {ℓ} : {A : Type ℓ} → Option A → Bool
exists none = false
exists (some x) = true

abbrev pub has_name : Text → User → Bool
has_name username u = text_eqb u.username username

-- `kv_get` and `kv_set`
unfoldable pub kv_get : Database → Text → Option Text → Option Text
kv_get db key default = elim (Dict.get db.kv key) [ none ↦ default | some v ↦ some v ]

unfoldable pub kv_set : Database → Text → Text → Database
kv_set db key value = record db { kv = Dict.put db.kv key value }

module _ (B : Bcrypt) where
  unfoldable pub create_user : Database → Text → Text → Bool → ℕ → ℕ → Option Database
  unfolding find
  create_user db username password must_change_password salt now =
      let user : User = record {
        id = db.next_user;
        username = username;
        pw_hash = B.hashpw password salt;
        must_change_password = must_change_password;
        created_at = now;
        last_login = none;
      } in
      if exists (find (has_name username) db.users)
      then none
      else some (record db { users = db.users ++ user ∷ []; next_user = db.next_user + 1 })

  unfoldable pub seed_default_user : Database → ℕ → ℕ → Option Database
  unfolding create_user
  seed_default_user db salt now =
      if ltb 0 (length db.users)
      then some db
      else create_user db (codes "JLBMaritime") (codes "Admin") true salt now

  unfoldable pub get_user_by_id : Database → ℕ → Option User
  unfolding find
  get_user_by_id db uid = find (λ u. nat_eqb u.id uid) db.users

  unfoldable pub get_user_by_name : Database → Text → Option User
  unfolding find
  get_user_by_name db username = find (has_name username) db.users

  abbrev pub logged_in : Database → User → ℕ → Database
  logged_in db user now = record db {
    users =
        (update_where (λ u. nat_eqb u.id user.id) (λ u. record u { last_login = some now })
          db.users).0;
  }

  -- The answer to a password, by what `checkpw` says of it.
  abbrev pub checked : Database → User → ℕ → Option Bool → Database × Option User
  checked db user now none = (db, none)
  checked db user now (some false) = (db, none)
  checked db user now (some true) = (logged_in db user now, some user)

  abbrev pub verify_user : Database → Text → ℕ → Option User → Database × Option User
  verify_user db password now none = (db, none)
  verify_user db password now (some user) = checked db user now (B.checkpw password user.pw_hash)

  unfoldable pub verify_password : Database → Text → Text → ℕ → Database × Option User
  unfolding get_user_by_name update_where
  verify_password db username password now =
      verify_user db password now (get_user_by_name db username)

  unfoldable pub set_password : Database → Text → Text → Bool → ℕ → Database × Bool
  unfolding update_where
  set_password db username new_password clear_must_change salt =
      let change : User → User = λ u. record u {
        pw_hash = B.hashpw new_password salt;
        must_change_password = if clear_must_change then false else u.must_change_password;
      } in
      let (users, count) = update_where (has_name username) change db.users in
      (record db { users = users }, ltb 0 count)
