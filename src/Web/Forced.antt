-- ===== src/Web/Forced.antt =====
-- ais_server/web/auth.py and ais_server/web/views.py: the forced change of the password, from the login
-- to the pages.
use ais_server.Prelude.{
  ℕ, ◌^◌, ◌≤◌, ◌<◌, ◌≡◌, refl, ap, ◌∙◌, Bool, true, false, ◌&&◌, none, some, nat_eqb, if◌then◌else◌,
  le→ltb_false, nat_eq, ==_refl, length,
}
use ais_server.Prelude.Text.{Text, codes, text_eqb, text_eqb_iff, text_eq, is_space, strip}
use ais_server.Prelude.Show.{show, int_decimal-show}
use ais_server.Db
use ais_server.Db.{
  Bcrypt, User, Database, has_name, get_user_by_id, get_user_by_name, verify_password, set_password,
}
use ais_server.Db.Users.{map_option, find-update}
use ais_server.Web.Password.{find-update_any}
use ais_server.Web.Auth.{
  LoginManager, Route, path_of, change_path, redirect, render, page_html, LoginForm, ChangeForm,
  user_numbered, loaded, load_user, current_user, login_for, login, change_password, change_form,
  changed, login_required, logged_in, must_change, page,
}

module _ (B : Bcrypt) where
  -- The row of the user is the one that is found by its name and by its number.
  pub record IsStored (db : Database) (user : User) : Type 0 where
    pub by_name : get_user_by_name B db user.username ≡ some user
    pub by_id : get_user_by_id B db user.id ≡ some user

  abbrev pub relogged : User → ℕ → User
  relogged user now = record user { last_login = some now }

  abbrev pub reset : User → Text → ℕ → User
  reset user new salt = record user { pw_hash = B.hashpw new salt; must_change_password = false }

  logged_in-IsStored :
      (db : Database) (user : User) (now : ℕ)
      → IsStored db user
      → IsStored (Db.logged_in B db user now) (relogged user now)
  unfolding get_user_by_name get_user_by_id map_option
  logged_in-IsStored db user now v =
      let f : User → User = λ u. record u { last_login = some now } in
      record {
        by_name =
            find-update_any (has_name user.username) (λ u. nat_eqb u.id user.id) f db.users
              (λ u. refl)
            ∙ ap (map_option (λ u. if nat_eqb u.id user.id then f u else u)) v.by_name
            ∙ ap (λ b. some (if b then f user else user)) (==_refl user.id);
        by_id =
            find-update (λ u. nat_eqb u.id user.id) f db.users (λ u. refl)
            ∙ ap (map_option f) v.by_id;
      }

  set_password-IsStored :
      (db : Database) (user : User) (new : Text) (salt : ℕ)
      → IsStored db user
      → IsStored (set_password B db user.username new true salt).0 (reset user new salt)
  unfolding set_password get_user_by_name get_user_by_id map_option
  set_password-IsStored db user new salt v =
      let f : User → User =
        λ u. record u { pw_hash = B.hashpw new salt; must_change_password = false } in
      record {
        by_name =
            find-update (has_name user.username) f db.users (λ u. refl)
            ∙ ap (map_option f) v.by_name;
        by_id =
            find-update_any (λ u. nat_eqb u.id user.id) (has_name user.username) f db.users
              (λ u. refl)
            ∙ ap (map_option (λ u. if has_name user.username u then f u else u)) v.by_id
            ∙ ap (λ b. some (if b then f user else user)) (==_refl user.username);
      }

  verified :
      (db : Database) (user : User) (password : Text) (salt now : ℕ)
      → IsStored db user
      → user.pw_hash ≡ B.hashpw password salt
      → verify_password B db user.username password now ≡ (Db.logged_in B db user now, some user)
  unfolding verify_password
  verified db user password salt now v h =
      let accepts : B.checkpw password user.pw_hash ≡ some true =
        ap (B.checkpw password) h ∙ B.checkpw-hashpw password salt in
      ap (Db.verify_user B db password now) v.by_name ∙ ap (Db.checked B db user now) accepts

  module _ (L : LoginManager) where
    open L use {Session, user_id, login_user}

    stored_user :
        (db : Database) (s : Session) (user : User)
        → IsStored db user
        → user_id s ≡ some (show user.id)
        → user.id < 2 ^ 63
        → current_user L B db s ≡ some user
    unfolding current_user load_user
    stored_user db s user v here small =
        ap (loaded L B db) here
        ∙ ap (user_numbered L B db) (int_decimal-show user.id small)
        ∙ v.by_id

    page_of :
        (force : Bool) (db : Database) (s : Session) (user : User) (route : Route)
        → current_user L B db s ≡ some user
        → (page L B force db s route).2
          ≡ (if must_change L B force user then redirect change_path else render (page_html route))
    unfolding page
    page_of force db s user route here = rw here refl

    -- The login, for a user who has to change the password.
    login_forced :
        (db : Database) (s : Session) (user : User) (typed password : Text) (salt now : ℕ)
        → IsStored db user
        → user.pw_hash ≡ B.hashpw password salt
        → user.must_change_password ≡ true
        → current_user L B db s ≡ none
        → strip is_space typed ≡ user.username
        → login L B true db s (some record { username = some typed; password = some password }) now
          ≡ (Db.logged_in B db user now, login_user s (show user.id), redirect change_path, none)
    unfolding login
    login_forced db s user typed password salt now v hash must nobody name =
        ap
          (login_for L B true db s (some record { username = some typed; password = some password })
            now)
          nobody
        ∙ ap (λ n. logged_in L B true s (verify_password B db n password now)) name
        ∙ ap (logged_in L B true s) (verified db user password salt now v hash)
        ∙ ap
            (λ b. (
              Db.logged_in B db user now,
              login_user s (show user.id),
              redirect (if b && true then change_path else path_of Route.dashboard),
              none,
            ))
            must

    -- The change, with the right password and a new one that is long enough, given twice.
    change_password_accepted :
        (db : Database) (s : Session) (user : User) (password new : Text) (salt0 salt now : ℕ)
        → IsStored db user
        → user.pw_hash ≡ B.hashpw password salt0
        → current_user L B db s ≡ some user
        → 8 ≤ length new
        → change_password L B db s
            (some record {
              current_password = some password;
              new_password = some new;
              confirm_password = some new;
            })
            salt
            now
          ≡ (
            (set_password B (Db.logged_in B db user now) user.username new true salt).0,
            s,
            redirect (path_of Route.dashboard),
            some (codes "Password updated"),
          )
    unfolding change_password
    change_password_accepted db s user password new salt0 salt now v hash here long =
        let form : ChangeForm = record {
          current_password = some password;
          new_password = some new;
          confirm_password = some new;
        } in
        let same : text_eqb new new ≡ true = (text_eqb_iff new new).1 refl in
        ap (λ u. login_required L B change_path u (change_form L B db s (some form) salt now) db s)
          here
        ∙ ap (changed L B s user form salt) (verified db user password salt0 now v hash)
        ∙ rw (le→ltb_false (length new) 8 long, same) refl

    -- With the forced change switched on, for a user who has to change the password and whose hash was
    -- made from it: a login with the right name and password goes to the page for the change, and so
    -- does every page then; when the user gives the current password and a new one of at least eight
    -- characters twice, the answer goes to the dashboard, every page is shown then, and the new password
    -- opens the next login. The number of the user is one that SQLite can hold.
    pub forced_change :
        (db : Database) (s : Session) (user : User) (typed password new : Text)
        (salt0 salt now later : ℕ)
        → IsStored db user
        → user.pw_hash ≡ B.hashpw password salt0
        → user.must_change_password ≡ true
        → user.id < 2 ^ 63
        → current_user L B db s ≡ none
        → strip is_space typed ≡ user.username
        → 8 ≤ length new
        → let in_form : LoginForm = record { username = some typed; password = some password } in
          let form : ChangeForm = record {
            current_password = some password;
            new_password = some new;
            confirm_password = some new;
          } in
          let first = login L B true db s (some in_form) now in
          let second = change_password L B first.0 first.1 (some form) salt later in
          (first.2 ≡ redirect change_path)
          × ((route : Route) → (page L B true first.0 first.1 route).2 ≡ redirect change_path)
          × (second.2 ≡ redirect (path_of Route.dashboard))
          × ((route : Route) → (page L B true second.0 second.1 route).2 ≡ render (page_html route))
          × ((again : ℕ)
              → (verify_password B second.0 user.username new again).1
                ≡ some (reset (relogged user later) new salt))
    forced_change db s user typed password new salt0 salt now later v hash must small nobody name
          long =
        let user1 = relogged user now in
        let db1 = Db.logged_in B db user now in
        let s1 = login_user s (show user.id) in
        let db2 = Db.logged_in B db1 user1 later in
        let user3 = reset (relogged user later) new salt in
        let db3 = (set_password B db2 user.username new true salt).0 in
        let v1 : IsStored db1 user1 = logged_in-IsStored db user now v in
        let v3 : IsStored db3 user3 =
          set_password-IsStored db2 (relogged user1 later) new salt
            (logged_in-IsStored db1 user1 later v1) in
        let kept = L.user_id-login_user s (show user.id) in
        let here1 = stored_user db1 s1 user1 v1 kept small in
        let here3 = stored_user db3 s1 user3 v3 kept small in
        rw
          (
            login_forced db s user typed password salt0 now v hash must nobody name,
            change_password_accepted db1 s1 user1 password new salt0 salt later v1 hash here1 long,
          )
          (
            refl,
            λ route.
                page_of true db1 s1 user1 route here1
                ∙ ap (λ b. if b && true then redirect change_path else render (page_html route))
                    must,
            refl,
            λ route. page_of true db3 s1 user3 route here3,
            λ again. ap (λ r. r.1) (verified db3 user3 new salt again v3 refl),
          )
