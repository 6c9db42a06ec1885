-- ===== src/Cli/Tests.antt =====
-- Runs of ais_server/cli.py against a server with one user.
use ais_server.Prelude.{◌≡◌, refl, ap, true, Option, none, some, [], ◌∷◌, ◌++◌, if◌then◌else◌}
use ais_server.Prelude.Text.{Text, codes, text_eqb, text_eqb_iff, is_space, strip}
use ais_server.Prelude.Int.{pos}
use ais_server.Prelude.Show.{show_int}
use ais_server.Config.{other, mapping, Entries, none_left, entry, lookup, deep_merge}
use ais_server.Config.Load.{missing, parsed, defaults}
use ais_server.Config.Secret.{get_in}
use ais_server.Db.{Bcrypt, User, Database, find, exists, verify_password}
use ais_server.Web.Auth
use ais_server.Web.Auth.{
  LoginManager, LoginForm, current_user, redirect, render, login_html, login_required,
}
use ais_server.Cli
use ais_server.Cli.{Reply, decode_error, nothing, get, post, base_url}
use ais_server.Cli.Server.{
  as_reply, login-verify_password, commands_logged_out, base_url-deep_merge,
}

abbrev plain : Bcrypt
plain = record {
  hashpw = λ password salt. password;
  checkpw = λ password pw_hash. some (text_eqb password pw_hash);
  checkpw-hashpw = λ password salt. ap some ((text_eqb_iff password password).1 refl);
}

abbrev sessions : LoginManager
sessions = record {
  Session = Option Text;
  user_id = λ s. s;
  login_user = λ s uid. some uid;
  logout_user = λ s. none;
  login_url = λ view url. view ++ codes "?next=" ++ url;
  user_id-login_user = λ s uid. refl;
  user_id-logout_user = λ s. refl;
}

abbrev admin : User
admin = record {
  id = 1;
  username = codes "JLBMaritime";
  pw_hash = codes "Admin";
  must_change_password = true;
  created_at = 0;
  last_login = none;
}

abbrev db : Database
db = record { users = admin ∷ []; next_user = 2; endpoints = []; next_endpoint = 1; kv = [] }

nobody : current_user sessions plain db none ≡ none
unfolding current_user
nobody = refl

abbrev form : LoginForm
form = record { username = some (codes "JLBMaritime"); password = some (codes "Admin") }

login-verify_password_example :
    Cli.login (as_reply (Auth.login sessions plain true db none (some form) 9).2)
    ≡ exists (verify_password plain db (strip is_space (codes "JLBMaritime")) (codes "Admin") 9).1
login-verify_password_example =
    login-verify_password sessions plain true db none (codes "JLBMaritime") (codes "Admin") 9 nobody

gets_in : Cli.login (as_reply (Auth.login sessions plain true db none (some form) 9).2) ≡ true
unfolding Cli.login Auth.login find
gets_in = refl

-- The server without a login: the page for the login, and a redirect to it from everywhere else.
abbrev visit : Text → Reply
visit url =
    if text_eqb url (codes "/login?next=/api/status")
    then as_reply (render login_html)
    else as_reply (redirect (codes "/login?next=/api/status"))

asked :
    visit (codes "/api/status")
    ≡ as_reply
        (login_required sessions plain
          (codes "/api/status")
          (current_user sessions plain db none)
          (λ u. (db, none, render login_html, none))
          db
          none).2
unfolding current_user
asked = refl

shown :
    visit (codes "/login?next=/api/status")
    ≡ as_reply (Auth.login sessions plain true db none none 9).2
unfolding Auth.login
shown = refl

commands_logged_out_case :
    (get visit (codes "/api/status") ≡ decode_error) × (post visit (codes "/api/status") ≡ nothing)
commands_logged_out_case =
    commands_logged_out sessions plain true db none 9 (codes "/api/status") (codes "/api/status")
      visit (λ u. (db, none, render login_html, none)) nobody asked shown

abbrev web : Entries
web = entry (codes "port") (other true (codes "8080")) none_left

abbrev cfg : Entries
cfg = entry (codes "web") (mapping web) none_left

read_port : ais_server.Prelude.Number.int_decimal (codes "8080") ≡ some (pos 8080)
unfolding ais_server.Prelude.Number.int_decimal
read_port = refl

base_url-deep_merge_case :
    (base_url (λ v. []) (parsed (mapping cfg) ∷ missing ∷ [])
      ≡ codes "http://127.0.0.1" ++ b':' ∷ show_int (pos 8080))
    × (get_in (deep_merge defaults cfg) (codes "web") (codes "port")
        ≡ some (other true (codes "8080")))
unfolding lookup
base_url-deep_merge_case =
    base_url-deep_merge (λ v. []) cfg web (missing ∷ []) true (codes "8080") (pos 8080) refl refl
      read_port refl (refl, tt) (refl, tt)
