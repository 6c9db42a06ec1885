-- ===== src/Cli/Server.antt =====
-- ais_server/cli.py against the server: the login, commands without a login, and the address.
use ais_server.Prelude.{
  ℕ, ◌≡◌, refl, ap, ◌∙◌, Bool, true, false, Option, none, some, List, ◌∷◌, ◌++◌, if◌then◌else◌,
}
use ais_server.Prelude.Text.{Text, codes, is_space, strip}
use ais_server.Prelude.Int.{ℤ}
use ais_server.Prelude.Number.{int_decimal}
use ais_server.Prelude.Show.{show_int}
use ais_server.Config.{
  Value, other, mapping, Entries, lookup, deep_merge, merged_at, Distinct, lookup-deep_merge,
}
use ais_server.Config.Load.{ConfigFile, parsed, defaults, web_defaults}
use ais_server.Config.Secret.{as_entries, value_in, get_in}
use ais_server.Db.{Bcrypt, User, Database, exists, verify_password}
use ais_server.Web.Auth
use ais_server.Web.Auth.{
  LoginManager, Page, redirect, render, LoginForm, current_user, login_path, login_required,
  logged_in, login_for, must_change, change_path, path_of,
}
use ais_server.Cli
use ais_server.Cli.{
  Reply, decode_error, nothing, read_get, read_post, followed, get, post, url_of, or_url,
  section_url, reachable_host, chosen_host, chosen_port, base_url,
}

-- A page as an answer: no page is JSON.
abbrev pub as_reply : Page → Reply
as_reply (redirect address) = record {
  status_code = 302;
  location = some address;
  is_json = false;
  json = none;
}
as_reply (render template) = record {
  status_code = 200;
  location = none;
  is_json = false;
  json = none;
}

module _ (L : LoginManager) (B : Bcrypt) where
  open L use {Session, login_url}

  answered :
      (force : Bool) (s : Session) (r : Database × Option User)
      → Cli.login (as_reply (logged_in L B force s r).2) ≡ exists r.1
  unfolding Cli.login
  answered force s (db, none) = refl
  answered force s (db, some user) = by_change (must_change L B force user)
    where
      by_change :
          (b : Bool)
          → Cli.login
              (as_reply (redirect (if b then change_path else path_of Auth.Route.dashboard)))
            ≡ true
      by_change true = refl
      by_change false = refl

  -- In a session with no login, `aisctl login` reports success exactly if the name without white space
  -- around it and the password open a login, whether the password has to be changed or not.
  pub login-verify_password :
      (force : Bool) (db : Database) (s : Session) (username password : Text) (now : ℕ)
      → current_user L B db s ≡ none
      → let form : LoginForm = record { username = some username; password = some password } in
        Cli.login (as_reply (Auth.login L B force db s (some form) now).2)
        ≡ exists (verify_password B db (strip is_space username) password now).1
  unfolding Auth.login
  login-verify_password force db s username password now nobody =
      ap
        (λ u. Cli.login (
          as_reply
            (login_for L B force db s
              (some record { username = some username; password = some password }) now u).2))
        nobody
      ∙ answered force s (verify_password B db (strip is_space username) password now)

  -- Without a login, a view that wants one redirects to the page for the login, which the session of
  -- `aisctl` follows. A command that reads ends with an error of decoding then, and a command that
  -- posts with an empty answer that looks like a success; neither asks for a login.
  pub commands_logged_out :
      (force : Bool) (db : Database) (s : Session) (now : ℕ) (path url : Text)
      (visit : Text → Reply) (view : User → Auth.Served L B)
      → current_user L B db s ≡ none
      → visit url ≡ as_reply (login_required L B path (current_user L B db s) view db s).2
      → visit (login_url login_path path) ≡ as_reply (Auth.login L B force db s none now).2
      → (get visit url ≡ decode_error) × (post visit url ≡ nothing)
  unfolding Auth.login get post
  commands_logged_out force db s now path url visit view nobody asked followed_to =
      let first : visit url ≡ as_reply (redirect (login_url login_path path)) =
        asked ∙ ap (λ u. as_reply (login_required L B path u view db s).2) nobody in
      let second : visit (login_url login_path path) ≡ as_reply (render Auth.Template.login_html) =
        followed_to ∙ ap (λ u. as_reply (login_for L B force db s none now u).2) nobody in
      (
        ap (λ r. read_get (followed visit r r.location)) first ∙ ap read_get second,
        ap (λ r. read_post (followed visit r r.location)) first ∙ ap read_post second,
      )

module _ (str : Value → Text) (cfg web : Entries) (files : List ConfigFile) (b : Bool) (p : Text)
    (port : ℤ) where
  -- If the first configuration that `aisctl` reads has a port and no host for the web server, and no key
  -- stands twice in it, the address is the port on this machine; and the server that loads this
  -- configuration over its defaults has the same port.
  pub base_url-deep_merge :
      lookup cfg (codes "web") ≡ some (mapping web)
      → lookup web (codes "port") ≡ some (other b p)
      → int_decimal p ≡ some port
      → lookup web (codes "host") ≡ none
      → Distinct cfg
      → Distinct web
      → (base_url str (parsed (mapping cfg) ∷ files)
          ≡ codes "http://127.0.0.1" ++ b':' ∷ show_int port)
        × (get_in (deep_merge defaults cfg) (codes "web") (codes "port") ≡ some (other b p))
  unfolding base_url get_in lookup merged_at deep_merge
  base_url-deep_merge has_web has_port is_port no_host d d' =
      let rest = base_url str files in
      (
        ap (λ o. or_url rest (section_url str o)) has_web
            ∙ ap
                (λ o. or_url rest (
                  url_of (reachable_host (chosen_host str o))
                    (chosen_port (lookup web (codes "port")))))
                no_host
            ∙ ap (λ o. or_url rest (url_of (codes "127.0.0.1") (chosen_port o))) has_port
            ∙ ap (λ i. or_url rest (url_of (codes "127.0.0.1") i)) is_port,
        ap (λ o. value_in (codes "port") (as_entries o))
              (lookup-deep_merge defaults cfg (codes "web") d
                ∙ ap (merged_at (lookup defaults (codes "web"))) has_web)
            ∙ lookup-deep_merge web_defaults web (codes "port") d'
            ∙ ap (merged_at (lookup web_defaults (codes "port"))) has_port,
      )
