-- ===== src/Web/Password.antt =====
-- ais_server/web/api.py: what a change of the password leaves.
use ais_server.Prelude.{
  ℕ, ◌≤◌, ◌<◌, ◌≡◌, refl, sym, ap, ◌∙◌, inl, inr, Bool, true, false, some, List, [], ◌∷◌, ltb,
  nat_eqb, if◌then◌else◌, lt→ltb, le→ltb_false, Bool-cases, nat_eq, ==_refl, length,
}
use ais_server.Prelude.Text.{Text, text_eq}
use ais_server.Db.{
  Bcrypt, User, Database, find, update_where, has_name, get_user_by_name, logged_in,
  verify_password, set_password,
}
use ais_server.Db.Users.{map_option, set_password-verify_password, verify_found}
use ais_server.Web.{min_8_chars, ok, change_password}

-- A change of other rows and columns does not change which row is found.
module _ {A : Type 0} (p q : A → Bool) (f : A → A) where
  pub find-update_any :
      (xs : List A)
      → ((x : A) → p (f x) ≡ p x)
      → find p (update_where q f xs).0 ≡ map_option (λ x. if q x then f x else x) (find p xs)
  unfolding find update_where map_option
  find-update_any [] h = refl
  find-update_any (x ∷ xs) h = elim (Bool-cases (q x)) [
    | inl hit ↦ elim (Bool-cases (p x)) [
      | inl here ↦
          let e : p (f x) ≡ true = h x ∙ here in
          rw (hit, here, e) (ap (λ b. some (if b then f x else x)) (sym hit))
      | inr gone ↦ let e : p (f x) ≡ false = h x ∙ gone in rw (hit, gone, e) (find-update_any xs h)
    ]
    | inr miss ↦ elim (Bool-cases (p x)) [
      | inl here ↦ rw (miss, here) (ap (λ b. some (if b then f x else x)) (sym miss))
      | inr gone ↦ rw (miss, gone) (find-update_any xs h)
    ]
  ]

module _ (B : Bcrypt) where
  relogged :
      (db : Database) (username : Text) (now : ℕ) (user : User)
      → get_user_by_name B db username ≡ some user
      → get_user_by_name B (logged_in B db user now) username
        ≡ some (if nat_eqb user.id user.id then record user { last_login = some now } else user)
  unfolding get_user_by_name map_option
  relogged db username now user found =
      find-update_any (has_name username) (λ u. nat_eqb u.id user.id)
        (λ u. record u { last_login = some now }) db.users (λ u. refl)
      ∙ ap
          (map_option (λ u. if nat_eqb u.id user.id then record u { last_login = some now } else u))
          found

  answered :
      (db : Database) (username current new : Text) (salt0 salt now : ℕ) (user : User)
      → get_user_by_name B db username ≡ some user
      → user.pw_hash ≡ B.hashpw current salt0
      → change_password B db username (some current) (some new) salt now ≡ (
          if ltb (length new) 8
          then (logged_in B db user now, min_8_chars)
          else ((set_password B (logged_in B db user now) username new true salt).0, ok))
  unfolding change_password verify_password
  answered db username current new salt0 salt now user found h =
      let accepts : B.checkpw current user.pw_hash ≡ some true =
        ap (B.checkpw current) h ∙ B.checkpw-hashpw current salt0 in
      rw (found, accepts) refl

  -- For a user whose stored hash was made from the given current password, and a new password of at
  -- least eight characters: the request succeeds, and a login with the new password succeeds then
  -- and asks for no further change. With a shorter one the request is refused, and a login with the
  -- current password still succeeds.
  pub change_password-verify_password :
      (db : Database) (username current new : Text) (salt0 salt now later : ℕ) (user : User)
      → get_user_by_name B db username ≡ some user
      → user.pw_hash ≡ B.hashpw current salt0
      → let r = change_password B db username (some current) (some new) salt now in
        (8 ≤ length new
          → (r.1 ≡ ok)
            × (found : User) × ((verify_password B r.0 username new later).1 ≡ some found)
            × (found.must_change_password ≡ false))
        × (length new < 8
            → (r.1 ≡ min_8_chars)
              × (found : User) × ((verify_password B r.0 username current later).1 ≡ some found))
  change_password-verify_password db username current new salt0 salt now later user found h =
      let db1 = logged_in B db user now in
      let user1 : User = record user { last_login = some now } in
      let there : get_user_by_name B db1 username ≡ some user1 =
        relogged db username now user found
        ∙ ap (λ b. some (if b then user1 else user)) (==_refl user.id) in
      let hash : user1.pw_hash ≡ B.hashpw current salt0 = h in
      let answer : change_password B db username (some current) (some new) salt now ≡ (
          if ltb (length new) 8
          then (db1, min_8_chars)
          else ((set_password B db1 username new true salt).0, ok)) =
        answered db username current new salt0 salt now user found h in
      (
        λ long.
            let w : ltb (length new) 8 ≡ false = le→ltb_false (length new) 8 long in
            let r =
              answer
              ∙ ap
                  (λ b.
                    if b
                    then (db1, min_8_chars)
                    else ((set_password B db1 username new true salt).0, ok))
                  w in
            rw r (
              refl,
              record user1 { pw_hash = B.hashpw new salt; must_change_password = false },
              (set_password-verify_password B db1 username new true salt later user1 there).1,
              refl,
            ),
        λ short.
            let w : ltb (length new) 8 ≡ true = lt→ltb (length new) 8 short in
            let r =
              answer
              ∙ ap
                  (λ b.
                    if b
                    then (db1, min_8_chars)
                    else ((set_password B db1 username new true salt).0, ok))
                  w in
            rw r (refl, user1, verify_found B db1 username current salt0 later user1 there hash),
      )
