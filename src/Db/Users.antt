-- ===== src/Db/Users.antt =====
-- ais_server/db.py: what the methods on users guarantee together.
use ais_server.Prelude.{
  ℕ, ◌+◌, ◌<◌, ◌≡◌, refl, sym, ap, ◌∙◌, inl, inr, Bool, true, false, Option, none, some, List, [],
  ◌∷◌, ◌++◌, arith, ltb, if◌then◌else◌, ltb→lt, lt→ltb, Bool-cases, Option-cases, length,
  length-append,
}
use ais_server.Prelude.Text.{Text, codes, text_eqb_iff}
use ais_server.Db.{
  Bcrypt, User, Database, find, update_where, has_name, create_user, seed_default_user,
  get_user_by_name, verify_password, set_password,
}

unfoldable pub map_option : {A : Type 0} → (A → A) → Option A → Option A
map_option f none = none
map_option f (some x) = some (f x)

module _ {A : Type 0} (p : A → Bool) where
  pub find-update :
      (f : A → A) (xs : List A)
      → ((x : A) → p (f x) ≡ p x)
      → find p (update_where p f xs).0 ≡ map_option f (find p xs)
  unfolding find update_where map_option
  find-update f [] h = refl
  find-update f (x ∷ xs) h = elim (Bool-cases (p x)) [
    | inl hit ↦ let e : p (f x) ≡ true = h x ∙ hit in rw (hit, e) refl
    | inr miss ↦ rw (miss, miss) (find-update f xs h)
  ]

  pub update_count :
      (f : A → A) (xs : List A) (x : A) → find p xs ≡ some x → 0 < (update_where p f xs).1
  unfolding find update_where
  update_count f [] x h = absurd (ground arith)
  update_count f (y ∷ xs) x h = elim (Bool-cases (p y)) [
    | inl hit ↦ rw hit (omega arith)
    | inr miss ↦
        let e : find p xs ≡ some x = ap (λ b. if b then some y else find p xs) (sym miss) ∙ h in
        rw miss (update_count f xs x e)
  ]

  pub find-append :
      (xs : List A) (x : A) → find p xs ≡ none → p x ≡ true → find p (xs ++ x ∷ []) ≡ some x
  unfolding find
  find-append [] x h e = rw e refl
  find-append (y ∷ xs) x h e = elim (Bool-cases (p y)) [
    | inl hit ↦ absurd (ground (arith, h, hit))
    | inr miss ↦
        let n : find p xs ≡ none = ap (λ b. if b then some y else find p xs) (sym miss) ∙ h in
        rw miss (find-append xs x n e)
  ]

-- How many users a result has.
abbrev users_in : Option Database → ℕ
users_in none = 1
users_in (some db) = length db.users

module _ (B : Bcrypt) where
  -- A stored user whose hash was made from the password gets in.
  pub verify_found :
      (db : Database) (username password : Text) (salt now : ℕ) (user : User)
      → get_user_by_name B db username ≡ some user
      → user.pw_hash ≡ B.hashpw password salt
      → (verify_password B db username password now).1 ≡ some user
  unfolding verify_password
  verify_found db username password salt now user found h =
      let accepts : B.checkpw password user.pw_hash ≡ some true =
        ap (B.checkpw password) h ∙ B.checkpw-hashpw password salt in
      rw (found, accepts) refl

  -- After a password is set for a user that exists, the call reports it, and a login with the new
  -- password returns this user, who has to change it no more if that was asked for.
  pub set_password-verify_password :
      (db : Database) (username password : Text) (clear : Bool) (salt now : ℕ) (user : User)
      → get_user_by_name B db username ≡ some user
      → let r = set_password B db username password clear salt in
        (r.1 ≡ true)
        × ((verify_password B r.0 username password now).1
            ≡ some (record user {
              pw_hash = B.hashpw password salt;
              must_change_password = if clear then false else user.must_change_password;
            }))
  unfolding set_password get_user_by_name map_option
  set_password-verify_password db username password clear salt now user found =
      let change : User → User = λ u. record u {
        pw_hash = B.hashpw password salt;
        must_change_password = if clear then false else u.must_change_password;
      } in
      let now_found =
        find-update (has_name username) change db.users (λ u. refl)
        ∙ ap (map_option change) found in
      (
        lt→ltb 0 (update_where (has_name username) change db.users).1
            (update_count (has_name username) change db.users user found),
        verify_found (set_password B db username password clear salt).0 username password salt now
            (change user) now_found refl,
      )

  -- A user is created exactly if the name is free, and can log in with the password then.
  pub create_user-verify_password :
      (db : Database) (username password : Text) (must_change : Bool) (salt created now : ℕ)
      → ((user : User)
          → get_user_by_name B db username ≡ some user
          → create_user B db username password must_change salt created ≡ none)
        × (get_user_by_name B db username ≡ none
            → (db' : Database) × (user : User) × (create_user B db username password must_change
                  salt created
                ≡ some db')
              × ((verify_password B db' username password now).1 ≡ some user)
              × (user.id ≡ db.next_user)
              × (user.must_change_password ≡ must_change))
  unfolding create_user get_user_by_name
  create_user-verify_password db username password must_change salt created now =
      let user : User = record {
        id = db.next_user;
        username = username;
        pw_hash = B.hashpw password salt;
        must_change_password = must_change;
        created_at = created;
        last_login = none;
      } in
      let db' : Database = record db {
        users = db.users ++ user ∷ [];
        next_user = db.next_user + 1;
      } in
      (
        (λ old found. rw found refl),
        λ free. (
          db',
          user,
          rw free refl,
          verify_found db' username password salt now user
              (find-append (has_name username) db.users user free
                ((text_eqb_iff username username).1 refl))
              refl,
          refl,
          refl,
        ),
      )

  created_filled :
      (db : Database) (username password : Text) (must_change : Bool) (salt now : ℕ)
      → 0 < users_in (create_user B db username password must_change salt now)
  unfolding create_user
  created_filled db username password must_change salt now =
      let user : User = record {
        id = db.next_user;
        username = username;
        pw_hash = B.hashpw password salt;
        must_change_password = must_change;
        created_at = now;
        last_login = none;
      } in
      let more : length (db.users ++ user ∷ []) ≡ length db.users + 1 =
        length-append db.users (user ∷ []) in
      elim (Option-cases (find (has_name username) db.users)) [
        | inl free ↦ rw (free, more) (omega arith)
        | inr (old, found) ↦ rw found (omega arith)
      ]

  seeded : (db : Database) (salt now : ℕ) → 0 < users_in (seed_default_user B db salt now)
  unfolding seed_default_user
  seeded db salt now = elim (Bool-cases (ltb 0 (length db.users))) [
    | inl filled ↦ rw filled (ltb→lt 0 (length db.users) filled)
    | inr bare ↦ rw bare (created_filled db (codes "JLBMaritime") (codes "Admin") true salt now)
  ]

  -- Seeding twice is seeding once: a database with a user stays as it is.
  pub seed_default_user_twice :
      (db db' : Database) (salt now salt' now' : ℕ)
      → seed_default_user B db salt now ≡ some db'
      → seed_default_user B db' salt' now' ≡ some db'
  unfolding seed_default_user
  seed_default_user_twice db db' salt now salt' now' h =
      let filled : 0 < length db'.users = rw (← ap users_in h) (seeded db salt now) in
      rw (lt→ltb 0 (length db'.users) filled) refl
