-- ===== src/Web/System.antt =====
-- ais_server/web/api.py: the requests on Wi-Fi, on the backups and on the system.
use ais_server.Prelude.{
  ℕ, Bool, true, false, ◌||◌, Option, none, some, List, [], ◌∷◌, ◌++◌, ltb, if◌then◌else◌, length,
  filter,
}
use ais_server.Prelude.Text.{Text, codes, text_eqb, text_eq, is_space, strip}
use ais_server.Prelude.Int.{ℤ}
use ais_server.Prelude.Show.{show}
use ais_server.Prelude.Sort.{sort_by}
use ais_server.Prelude.Dict
use ais_server.Prelude.Dict.{Dict}
use ais_server.Wifi
use ais_server.Wifi.{Host}
use ais_server.Ingest.Registry.{NodeRegistry}
use ais_server.Ingest.Registry.Housekeeping.{NodeRow, snapshot}
use ais_server.Forwarder.Manager.{Workers, stats}
use ais_server.Web.{Backup, prune_backups}
use ais_server.Web.Json.{Json, text, truth}

-- The answers on Wi-Fi: 400, 500 for an exception, and 200 with what the module says.
pub data WifiReply : Type 0 where
  ssid_required : WifiReply
  server_error : WifiReply
  told : Bool → Text → WifiReply

-- `(data.get("ssid") or "").strip()`: a value that is true and no text raises.
abbrev pub ssid_of : Option Json → Option Text
ssid_of none = some []
ssid_of (some (text s)) = some (strip is_space s)
ssid_of (some v) = if truth v then none else some []

abbrev pub is_empty : Text → Bool
is_empty [] = true
is_empty (c ∷ s) = false

abbrev pub told_of : Bool × Text → WifiReply
told_of (ok, message) = told ok message

-- `data.get("password")`: a value that is true and no text is no argument of a command.
abbrev pub password_of : Option Json → Option (Option Text)
password_of none = some none
password_of (some (text s)) = some (some s)
password_of (some v) = if truth v then none else some none

abbrev pub connect_with : Host → Text → Option (Option Text) → WifiReply
connect_with h ssid none = server_error
connect_with h ssid (some password) = told_of (Wifi.connect h ssid password (codes "wlan0"))

abbrev pub connect_to : Host → Dict Text Json → Option Text → WifiReply
connect_to h body none = server_error
connect_to h body (some ssid) =
    if is_empty ssid
    then ssid_required
    else connect_with h ssid (password_of (Dict.get body (codes "password")))

unfoldable pub wifi_connect : Host → Dict Text Json → WifiReply
wifi_connect h body = connect_to h body (ssid_of (Dict.get body (codes "ssid")))

abbrev pub forget_it : Host → Option Text → WifiReply
forget_it h none = server_error
forget_it h (some ssid) = if is_empty ssid then ssid_required else told_of (Wifi.forget h ssid)

unfoldable pub wifi_forget : Host → Dict Text Json → WifiReply
wifi_forget h body = forget_it h (ssid_of (Dict.get body (codes "ssid")))

-- `request.args.get("save") in ("1", "true", "yes")`
abbrev pub saves : Option Text → Bool
saves none = false
saves (some s) = text_eqb s (codes "1") || text_eqb s (codes "true") || text_eqb s (codes "yes")

abbrev pub backup_name : ℕ → Text
backup_name ts = codes "ais-server-backup-" ++ (show ts ++ codes ".tar.gz")

-- A file is written: one with its name is replaced.
unfoldable pub write_backup : Backup → List Backup → List Backup
write_backup b [] = b ∷ []
write_backup b (c ∷ files) =
    let rest = write_backup b files in if text_eqb c.name b.name then b ∷ files else c ∷ rest

-- The files of the directory afterwards and the name of the download. `fails` tells that an `OSError`
-- ends the saving before the file is written; it is logged.
unfoldable pub backup :
    (Backup → Bool) → ℤ → Option Text → Bool → List Backup → ℕ → ℕ → List Backup × Text
unfolding write_backup prune_backups
backup unlinks keep save fails files ts mtime =
    let new : Backup = record { name = backup_name ts; mtime = mtime } in
    let pruned = (prune_backups unlinks keep true (write_backup new files)).0 in
    if saves save
    then (if fails then files else pruned, backup_name ts)
    else (files, backup_name ts)

-- The row of a file whose status can be read.
pub record BackupRow : Type 0 where
  pub name : Text
  pub size : ℕ
  pub mtime : ℕ

abbrev pub readable : List (Option BackupRow) → List BackupRow
readable [] = []
readable (none ∷ files) = readable files
readable (some r ∷ files) = r ∷ readable files

abbrev pub newer : BackupRow → BackupRow → Bool
newer a b = ltb b.mtime a.mtime

unfoldable pub backups_list : Bool → List (Option BackupRow) → List BackupRow
unfolding sort_by
backups_list is_dir files = if is_dir then sort_by newer (readable files) else []

-- The counts that `system_info` adds.
pub record Service : Type 0 where
  pub uptime_seconds : ℕ
  pub nodes_connected : ℕ
  pub nodes_total : ℕ
  pub endpoints_total : ℕ

unfoldable pub service : ℕ → NodeRegistry → Workers → Service
service uptime nodes workers = record {
  uptime_seconds = uptime;
  nodes_connected = length (filter (λ (n : NodeRow). n.is_connected) (snapshot nodes));
  nodes_total = length (snapshot nodes);
  endpoints_total = length (stats workers);
}

-- The command that `system_restart` and `system_reboot` start.
abbrev pub restart_command : List Text
restart_command = codes "sh" ∷ codes "-c" ∷ codes "sleep 1 && systemctl restart ais-server" ∷ []

abbrev pub reboot_command : List Text
reboot_command = codes "sh" ∷ codes "-c" ∷ codes "sleep 2 && shutdown -r now" ∷ []
