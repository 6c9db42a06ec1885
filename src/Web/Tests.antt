-- ===== src/Web/Tests.antt =====
-- Runs of the requests of ais_server/web/api.py, with a hash that is the password itself.
use ais_server.Prelude.{
  ℕ, ◌-◌, ◌≤◌, ◌<◌, min, ◌≡◌, refl, ap, Bool, true, false, Option, none, some, List, [], ◌∷◌, ◌++◌,
  arith, length, drop, All, In,
}
use ais_server.Prelude.Text.{Text, codes, text_eqb, text_eqb_iff}
use ais_server.Prelude.Int.{pos}
use ais_server.Db.{Bcrypt, User, Database, find, get_user_by_name, get_user_by_id, verify_password}
use ais_server.Web.{Reply, min_8_chars, ok, change_password, Backup, newest_first, prune_backups}
use ais_server.Web.Password.{change_password-verify_password}
use ais_server.Web.Auth
use ais_server.Web.Auth.{
  LoginManager, LoginForm, ChangeForm, Route, redirect, render, page_html, change_path, path_of,
  current_user, page,
}
use ais_server.Web.Forced.{IsStored, relogged, reset, forced_change}
use ais_server.Web.System.{backup_name, backup}
use ais_server.Web.Kept.{backup-In}
use ais_server.Web.Backups.{prune_backups_newest}

abbrev plain : Bcrypt
plain = record {
  hashpw = λ password salt. password;
  checkpw = λ password pw_hash. some (text_eqb password pw_hash);
  checkpw-hashpw = λ password salt. ap some ((text_eqb_iff password password).1 refl);
}

abbrev admin : User
admin = record {
  id = 1;
  username = codes "JLBMaritime";
  pw_hash = codes "Admin";
  must_change_password = true;
  created_at = 0;
  last_login = none;
}

abbrev db : Database
db = record { users = admin ∷ []; next_user = 2; endpoints = []; next_endpoint = 1; kv = [] }

abbrev changed : Database × Reply
changed =
    change_password plain db (codes "JLBMaritime") (some (codes "Admin"))
      (some (codes "new-secret")) 0 9

change_password-verify_password_case :
    (8 ≤ length (codes "new-secret")
      → (changed.1 ≡ ok)
        × (found : User) × ((verify_password plain changed.0
              (codes "JLBMaritime")
              (codes "new-secret")
              20).1
            ≡ some found)
        × (found.must_change_password ≡ false))
    × (length (codes "new-secret") < 8
        → (changed.1 ≡ min_8_chars)
          × (found : User) × ((verify_password plain changed.0
                (codes "JLBMaritime")
                (codes "Admin")
                20).1
              ≡ some found))
unfolding get_user_by_name find
change_password-verify_password_case =
    change_password-verify_password plain db (codes "JLBMaritime") (codes "Admin")
      (codes "new-secret") 0 0 9 20 admin refl refl

abbrev backup_at : ℕ → Backup
backup_at mtime = record { name = codes "ais-server-backup"; mtime = mtime }

abbrev backups : List Backup
backups = backup_at 10 ∷ backup_at 30 ∷ backup_at 20 ∷ []

abbrev removable : Backup → Bool
removable b = true

prune_backups_newest_case :
    let r = prune_backups removable (pos 2) true backups in
    (length r.0 ≡ min 2 (length backups))
    × (r.1 ≡ length backups - 2)
    × All (λ b. All (λ c. c.mtime ≤ b.mtime) (drop 2 (newest_first backups))) r.0
prune_backups_newest_case = prune_backups_newest removable 1 backups (λ b. refl)

-- A session is the number of its user.
abbrev sessions : LoginManager
sessions = record {
  Session = Option Text;
  user_id = λ s. s;
  login_user = λ s uid. some uid;
  logout_user = λ s. none;
  login_url = λ view url. view ++ url;
  user_id-login_user = λ s uid. refl;
  user_id-logout_user = λ s. refl;
}

admin-IsStored : IsStored plain db admin
unfolding get_user_by_name get_user_by_id find
admin-IsStored = record { by_name = refl; by_id = refl }

nobody : current_user sessions plain db none ≡ none
unfolding current_user
nobody = refl

forced_change_example :
    let in_form : LoginForm = record {
      username = some (codes " JLBMaritime ");
      password = some (codes "Admin");
    } in
    let form : ChangeForm = record {
      current_password = some (codes "Admin");
      new_password = some (codes "new-secret");
      confirm_password = some (codes "new-secret");
    } in
    let first = Auth.login sessions plain true db none (some in_form) 9 in
    let second = Auth.change_password sessions plain first.0 first.1 (some form) 0 20 in
    (first.2 ≡ redirect change_path)
    × ((route : Route) → (page sessions plain true first.0 first.1 route).2 ≡ redirect change_path)
    × (second.2 ≡ redirect (path_of Route.dashboard))
    × ((route : Route)
        → (page sessions plain true second.0 second.1 route).2 ≡ render (page_html route))
    × ((again : ℕ)
        → (verify_password plain second.0 (codes "JLBMaritime") (codes "new-secret") again).1
          ≡ some (reset plain (relogged plain admin 20) (codes "new-secret") 0))
forced_change_example =
    forced_change plain sessions db none admin (codes " JLBMaritime ") (codes "Admin")
      (codes "new-secret") 0 0 9 20 admin-IsStored refl refl (omega arith) nobody refl (omega arith)

abbrev first_backup : Backup
first_backup = record { name = codes "ais-server-backup-10.tar.gz"; mtime = 10 }

abbrev stuck : Backup → Bool
stuck b = false

backup-In_case :
    let r = backup stuck (pos 1) (some (codes "yes")) false (first_backup ∷ []) 30 31 in
    (r.1 ≡ backup_name 30) × In (record { name = r.1; mtime = 31 }) r.0
backup-In_case =
    backup-In stuck 0 (some (codes "yes")) (first_backup ∷ []) 30 31 refl (omega arith, tt)
