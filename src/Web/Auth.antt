-- ===== src/Web/Auth.antt =====
-- ais_server/web/auth.py, ais_server/web/views.py and the user loader of ais_server/web/app.py: who is
-- logged in, and which page a request gets. The session is that of the package Flask-Login.
use ais_server.Prelude.{
  ℕ, ◌≡◌, Bool, true, ◌&&◌, not, Option, none, some, [], ltb, if◌then◌else◌, length,
}
use ais_server.Prelude.Text.{Text, codes, text_eqb, is_space, strip}
use ais_server.Prelude.Int.{ℤ, pos, negsuc}
use ais_server.Prelude.Number.{int_decimal}
use ais_server.Prelude.Show.{show}
use ais_server.Db.{Bcrypt, User, Database, get_user_by_id, verify_password, set_password}

-- What the program relies on in Flask-Login: a login keeps the id of its user, and a logout drops it.
-- `login_url` is where a request goes that wants a login, by the login page and the page it asked for.
pub record LoginManager : Type 1 where
  pub Session : Type 0
  pub user_id : Session → Option Text
  pub login_user : Session → Text → Session
  pub logout_user : Session → Session
  pub login_url : Text → Text → Text
  pub user_id-login_user : (s : Session) (uid : Text) → user_id (login_user s uid) ≡ some uid
  pub user_id-logout_user : (s : Session) → user_id (logout_user s) ≡ none

-- `User.get_id`
abbrev pub get_id : User → Text
get_id u = show u.id

-- The pages, by their names in the source.
pub data Route : Type 0 where
  dashboard : Route
  wifi : Route
  nodes : Route
  data_in : Route
  data_out : Route
  endpoints : Route
  system : Route

abbrev pub path_of : Route → Text
path_of dashboard = codes "/"
path_of wifi = codes "/wifi"
path_of nodes = codes "/nodes"
path_of data_in = codes "/data/in"
path_of data_out = codes "/data/out"
path_of endpoints = codes "/endpoints"
path_of system = codes "/system"

abbrev pub login_path : Text
login_path = codes "/login"

abbrev pub change_path : Text
change_path = codes "/change-password"

pub data Template : Type 0 where
  login_html : Template
  change_password_html : Bool → Template
  page_html : Route → Template

-- A redirect (302), or a page (200).
pub data Page : Type 0 where
  redirect : Text → Page
  render : Template → Page

abbrev pub text_or_empty : Option Text → Text
text_or_empty none = []
text_or_empty (some s) = s

pub record LoginForm : Type 0 where
  pub username : Option Text
  pub password : Option Text

pub record ChangeForm : Type 0 where
  pub current_password : Option Text
  pub new_password : Option Text
  pub confirm_password : Option Text

module _ (L : LoginManager) (B : Bcrypt) where
  open L use {Session, user_id, login_user, logout_user, login_url}

  -- The database and the session afterwards, the page, and the message that is flashed.
  abbrev pub Served : Type 0
  Served = Database × Session × Page × Option Text

  abbrev pub user_numbered : Database → Option ℤ → Option User
  user_numbered db (some (pos n)) = get_user_by_id B db n
  user_numbered db (some (negsuc n)) = none
  user_numbered db none = none

  -- `_load_user`: a `ValueError` is nobody, and no row has a number below 0.
  unfoldable pub load_user : Database → Text → Option User
  unfolding int_decimal
  load_user db uid = user_numbered db (int_decimal uid)

  abbrev pub loaded : Database → Option Text → Option User
  loaded db none = none
  loaded db (some uid) = load_user db uid

  -- `current_user`, if it is authenticated
  unfoldable pub current_user : Database → Session → Option User
  unfolding load_user
  current_user db s = loaded db (user_id s)

  -- A view that wants a login.
  abbrev pub login_required : Text → Option User → (User → Served) → Database → Session → Served
  login_required path none view db s = (db, s, redirect (login_url login_path path), none)
  login_required path (some user) view db s = view user

  -- Whether the user has to change the password first; `force` is the setting.
  abbrev pub must_change : Bool → User → Bool
  must_change force user = user.must_change_password && force

  abbrev pub logged_in : Bool → Session → Database × Option User → Served
  logged_in force s (db, none) =
      (db, s, render login_html, some (codes "Invalid username or password"))
  logged_in force s (db, some user) = (
    db,
    login_user s (get_id user),
    redirect (if must_change force user then change_path else path_of dashboard),
    none,
  )

  abbrev pub login_form : Bool → Database → Session → Option LoginForm → ℕ → Served
  login_form force db s none now = (db, s, render login_html, none)
  login_form force db s (some form) now = logged_in force s (
      verify_password B db (strip is_space (text_or_empty form.username))
        (text_or_empty form.password) now)

  abbrev pub login_for : Bool → Database → Session → Option LoginForm → ℕ → Option User → Served
  login_for force db s form now (some user) = (db, s, redirect (path_of dashboard), none)
  login_for force db s form now none = login_form force db s form now

  -- The form is that of a POST; a GET has none.
  unfoldable pub login : Bool → Database → Session → Option LoginForm → ℕ → Served
  unfolding current_user verify_password
  login force db s form now = login_for force db s form now (current_user db s)

  unfoldable pub logout : Database → Session → Served
  unfolding current_user
  logout db s =
      login_required (codes "/logout") (current_user db s)
        (λ user. (db, logout_user s, redirect login_path, none)) db s

  abbrev pub refused : Database → Session → Bool → Text → Served
  refused db s forced message = (db, s, render (change_password_html forced), some message)

  abbrev pub changed : Session → User → ChangeForm → ℕ → Database × Option User → Served
  changed s user form salt (db, none) =
      refused db s user.must_change_password (codes "Current password is incorrect")
  changed s user form salt (db, some verified) =
      let new_pw = text_or_empty form.new_password in
      if ltb (length new_pw) 8
      then refused db s user.must_change_password
          (codes "New password must be at least 8 characters")
      else if not (text_eqb new_pw (text_or_empty form.confirm_password))
      then refused db s user.must_change_password (codes "Passwords do not match")
      else (
        (set_password B db user.username new_pw true salt).0,
        s,
        redirect (path_of dashboard),
        some (codes "Password updated"),
      )

  abbrev pub change_form : Database → Session → Option ChangeForm → ℕ → ℕ → User → Served
  change_form db s none salt now user =
      (db, s, render (change_password_html user.must_change_password), none)
  change_form db s (some form) salt now user =
      changed s user form salt
        (verify_password B db user.username (text_or_empty form.current_password) now)

  unfoldable pub change_password : Database → Session → Option ChangeForm → ℕ → ℕ → Served
  unfolding current_user verify_password set_password
  change_password db s form salt now =
      login_required change_path (current_user db s) (change_form db s form salt now) db s

  -- The seven pages, each behind `_guard_forced_change`.
  unfoldable pub page : Bool → Database → Session → Route → Served
  unfolding current_user
  page force db s route =
      login_required (path_of route) (current_user db s)
        (λ user. (
          db,
          s,
          if must_change force user then redirect change_path else render (page_html route),
          none,
        ))
        db s
