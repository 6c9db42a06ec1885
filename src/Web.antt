-- ===== src/Web.antt =====
-- ais_server/web/api.py: the request that changes a password, the recent sentences, and the pruning
-- of the backups.
pub mod Json
pub mod Answer
pub mod Endpoints
pub mod Auth
pub mod Forced
pub mod System
pub mod Kept
pub mod Password
pub mod Backups
mod Tests
use ais_server.Prelude.{
  ℕ, zero, suc, ◌+◌, min, Bool, true, false, Option, none, some, List, [], ◌∷◌, ◌++◌, ltb,
  if◌then◌else◌, length, take, drop,
}
use ais_server.Prelude.Sort.{sort_by}
use ais_server.Prelude.Text.{Text, codes}
use ais_server.Prelude.Int.{ℤ, pos, negsuc}
use ais_server.Events.{EventBus, recent}
use ais_server.Db.{Bcrypt, User, Database, verify_password, set_password}

-- The answers of `change_password`, with their status codes 400, 400 and 200.
pub data Reply : Type 0 where
  wrong_current_password : Reply
  min_8_chars : Reply
  ok : Reply

abbrev pub text_or_empty : Option Text → Text
text_or_empty none = []
text_or_empty (some s) = s

module _ (B : Bcrypt) where
  abbrev pub if_verified : Text → Text → ℕ → Database × Option User → Database × Reply
  if_verified username new salt (db, none) = (db, wrong_current_password)
  if_verified username new salt (db, some user) =
      if ltb (length new) 8
      then (db, min_8_chars)
      else ((set_password B db username new true salt).0, ok)

  -- `username` is the name of the user who is logged in.
  unfoldable pub change_password :
      Database → Text → Option Text → Option Text → ℕ → ℕ → Database × Reply
  unfolding verify_password set_password
  change_password db username current_password new_password salt now =
      if_verified username (text_or_empty new_password) salt
        (verify_password B db username (text_or_empty current_password) now)

-- A file of the backup directory whose name matches the pattern.
pub record Backup : Type 0 where
  pub name : Text
  pub mtime : ℕ

-- The order of `reverse=True`, which keeps equals in their order.
abbrev pub newer : Backup → Backup → Bool
newer a b = ltb b.mtime a.mtime

unfoldable pub newest_first : List Backup → List Backup
unfolding sort_by
newest_first files = sort_by newer files

-- The files that stay, and the number of those that were removed. `unlinks` tells which files can be
-- removed.
unfoldable pub unlink_all : (Backup → Bool) → List Backup → List Backup × ℕ
unlink_all unlinks [] = ([], 0)
unlink_all unlinks (old ∷ files) =
    let (left, removed) = unlink_all unlinks files in
    if unlinks old then (left, suc removed) else (old ∷ left, removed)

unfoldable pub prune_backups : (Backup → Bool) → ℤ → Bool → List Backup → List Backup × ℕ
unfolding newest_first unlink_all
prune_backups unlinks (negsuc n) is_dir files = (files, 0)
prune_backups unlinks (pos zero) is_dir files = (files, 0)
prune_backups unlinks (pos (suc n)) false files = (files, 0)
prune_backups unlinks (pos (suc n)) true files =
    let sorted = newest_first files in
    let (left, removed) = unlink_all unlinks (drop (suc n) sorted) in
    (take (suc n) sorted ++ left, removed)

-- `min(int(request.args.get("n", 100)), 500)`
abbrev pub limit : Option ℤ → ℤ
limit none = pos 100
limit (some (pos n)) = pos (min n 500)
limit (some (negsuc n)) = negsuc n

unfoldable pub recent_incoming : {P : Type 0} → EventBus P → Option ℤ → List P
recent_incoming events n = recent events (codes "incoming") (limit n)

unfoldable pub recent_outgoing : {P : Type 0} → EventBus P → Option ℤ → List P
recent_outgoing events n = recent events (codes "outgoing") (limit n)
