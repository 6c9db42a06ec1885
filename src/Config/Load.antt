-- ===== src/Config/Load.antt =====
-- ais_server/config.py: `DEFAULTS` and `load_config`.
use ais_server.Prelude.{Bool, true, false, Option, none, some, [], ◌&&◌, if◌then◌else◌}
use ais_server.Prelude.Text.{codes}
use ais_server.Config.{Value, other, mapping, Entries, none_left, entry, deep_merge}
use ais_server.Config.AtomicWrite.{Error, permission_error, other_error, Disk}
use ais_server.Config.Secret.{SecretFile, get_in, ensure_secret_key}

-- `None`
abbrev pub nothing : Value
nothing = other false (codes "None")

abbrev ingest_defaults : Entries
ingest_defaults = entry (codes "tcp_port") (other true (codes "10110")) (
    entry (codes "bind") (other true (codes "0.0.0.0")) (
      entry (codes "max_clients") (other true (codes "64"))
        (entry (codes "idle_timeout") (other true (codes "120")) (none_left))))

abbrev dedup_defaults : Entries
dedup_defaults =
    entry (codes "ttl_seconds") (other true (codes "30"))
      (entry (codes "max_entries") (other true (codes "200000")) (none_left))

abbrev reorder_defaults : Entries
reorder_defaults =
    entry (codes "hold_ms") (other true (codes "2000"))
      (entry (codes "max_queue") (other true (codes "50000")) (none_left))

abbrev forwarder_defaults : Entries
forwarder_defaults = entry (codes "default_protocol") (other true (codes "tcp")) (
    entry (codes "queue_size") (other true (codes "10000")) (
      entry (codes "max_retries") (other true (codes "10"))
        (entry (codes "backoff_initial") (other true (codes "1.0")) (none_left))))

abbrev pub web_defaults : Entries
web_defaults = entry (codes "host") (other true (codes "0.0.0.0")) (
    entry (codes "port") (other true (codes "80")) (
      entry (codes "tls_cert") (nothing) (
        entry (codes "tls_key") (nothing)
          (entry (codes "secret_key") (other false []) (none_left)))))

abbrev security_defaults : Entries
security_defaults =
    entry (codes "force_password_change_on_first_login") (other true (codes "True")) (
      entry (codes "bcrypt_rounds") (other true (codes "12"))
        (entry (codes "session_minutes") (other true (codes "240")) (none_left)))

abbrev logging_defaults : Entries
logging_defaults =
    entry (codes "path") (other true (codes "/var/log/ais-server"))
      (entry (codes "level") (other true (codes "INFO")) (none_left))

abbrev paths_defaults : Entries
paths_defaults = entry (codes "db") (other true (codes "/var/lib/ais-server/ais.db")) (
    entry (codes "secret") (other true (codes "/var/lib/ais-server/secret_key"))
      (entry (codes "backup") (other true (codes "/var/lib/ais-server/backups")) (none_left)))

abbrev netcheck_defaults : Entries
netcheck_defaults = entry (codes "interval") (other true (codes "30")) (
    entry (codes "fail_threshold") (other true (codes "3")) (
      entry (codes "timeout") (other true (codes "4")) (
        entry (codes "host") (nothing) (
          entry (codes "port") (other true (codes "53")) (
            entry (codes "interface") (other true (codes "wlan0"))
              (entry (codes "auto_recover") (other true (codes "True")) (none_left)))))))

abbrev diskcheck_defaults : Entries
diskcheck_defaults = entry (codes "interval") (other true (codes "60")) (
    entry (codes "data_path") (other true (codes "/var")) (
      entry (codes "low_water_mb") (other true (codes "500"))
        (entry (codes "warn_water_mb") (other true (codes "1500")) (none_left))))

abbrev maintenance_defaults : Entries
maintenance_defaults = entry (codes "wal_checkpoint_interval") (other true (codes "3600")) (
    entry (codes "vacuum_interval") (other true (codes "604800")) (
      entry (codes "node_max_age") (other true (codes "2592000"))
        (entry (codes "node_prune_interval") (other true (codes "3600")) (none_left))))

abbrev backups_defaults : Entries
backups_defaults = entry (codes "retention") (other true (codes "14")) (none_left)

abbrev pub defaults : Entries
defaults = entry (codes "ingest") (mapping ingest_defaults) (
    entry (codes "dedup") (mapping dedup_defaults) (
      entry (codes "reorder") (mapping reorder_defaults) (
        entry (codes "forwarder") (mapping forwarder_defaults) (
          entry (codes "web") (mapping web_defaults) (
            entry (codes "security") (mapping security_defaults) (
              entry (codes "logging") (mapping logging_defaults) (
                entry (codes "paths") (mapping paths_defaults) (
                  entry (codes "netcheck") (mapping netcheck_defaults) (
                    entry (codes "diskcheck") (mapping diskcheck_defaults) (
                      entry (codes "maintenance") (mapping maintenance_defaults)
                        (entry (codes "backups") (mapping backups_defaults) (none_left))))))))))))

-- What stands at the path of the configuration.
pub data ConfigFile : Type 0 where
  missing : ConfigFile
  -- The file cannot be read.
  unreadable : ConfigFile
  yaml_error : ConfigFile
  parsed : Value → ConfigFile

-- `yaml.safe_load(fh) or {}`, which the merge takes for a mapping; no result is an exception.
abbrev pub file_entries : ConfigFile → Option Entries
file_entries missing = some none_left
file_entries unreadable = none
file_entries yaml_error = some none_left
file_entries (parsed (mapping file_cfg)) = some file_cfg
file_entries (parsed (other true s)) = none
file_entries (parsed (other false s)) = some none_left

-- A directory that is made: no error, or one that is not a `PermissionError`, ends the loading.
abbrev pub passes : Option Error → Bool
passes none = true
passes (some permission_error) = true
passes (some other_error) = false

-- `cfg[section][key]` is a path. A mapping is none; any other value is taken for one.
abbrev pub is_path : Option Value → Bool
is_path (some (other b s)) = true
is_path _ = false

-- The three directories, in their order, with what comes of making each.
abbrev pub make_dirs : Entries → Option Error → Option Error → Option Error → Bool
make_dirs cfg log db backup =
    is_path (get_in cfg (codes "logging") (codes "path"))
    && passes log
    && is_path (get_in cfg (codes "paths") (codes "db"))
    && passes db
    && is_path (get_in cfg (codes "paths") (codes "backup"))
    && passes backup

abbrev pub with_dirs :
    Option Error → Option Error → Option Error → Option (Disk × Entries) → Option (Disk × Entries)
with_dirs log db backup none = none
with_dirs log db backup (some (disk, cfg)) =
    if make_dirs cfg log db backup then some (disk, cfg) else none

abbrev pub with_file :
    SecretFile
    → Option Error
    → Option Error
    → Option Error
    → Option Entries
    → Option (Disk × Entries)
with_file secret log db backup none = none
with_file secret log db backup (some file_cfg) =
    with_dirs log db backup (ensure_secret_key secret (deep_merge defaults file_cfg))

-- The disk and the configuration; no result is an exception.
unfoldable pub load_config :
    ConfigFile → SecretFile → Option Error → Option Error → Option Error → Option (Disk × Entries)
unfolding deep_merge ensure_secret_key
load_config file secret log db backup = with_file secret log db backup (file_entries file)
