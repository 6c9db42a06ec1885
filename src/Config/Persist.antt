-- ===== src/Config/Persist.antt =====
-- ais_server/config.py: the secret key survives a restart.
use ais_server.Prelude.{◌≡◌, ap, ◌∙◌, Bool, false, none, some, [], if◌then◌else◌, ==_refl}
use ais_server.Prelude.Text.{Text, codes, text_eq, is_space, strip}
use ais_server.Prelude.Dict
use ais_server.Config.{Value, other, mapping, Entries, lookup, assign, lookup-assign}
use ais_server.Config.AtomicWrite.{Faults, Disk, atomic_write_text}
use ais_server.Config.Secret.{
  SecretFile, as_entries, value_in, get_in, assign_in, set_secret, truth, is_filled, written,
  read_or_write, with_access, at_path, with_web, ensure_secret_key,
}

-- A configuration with no secret key and with a path for one.
pub record LacksSecret (cfg : Entries) (path : Text) : Type 0 where
  pub web : Entries
  pub has_web : lookup cfg (codes "web") ≡ some (mapping web)
  pub no_key : truth (lookup web (codes "secret_key")) ≡ false
  pub path_truth : Bool
  pub has_path : get_in cfg (codes "paths") (codes "secret") ≡ some (other path_truth path)

-- Nothing fails at the first write of the file.
abbrev pub no_faults : Faults
no_faults = record { mkdir = none; mkstemp = none; write = none; replace = none; unlink = false }

get_in-set_secret :
    (cfg : Entries) (path key : Text)
    → LacksSecret cfg path
    → get_in (set_secret cfg key) (codes "web") (codes "secret_key")
      ≡ some (other (is_filled key) key)
unfolding get_in set_secret
get_in-set_secret cfg path key l =
    let v : Value = other (is_filled key) key in
    ap
      (λ o. value_in (codes "secret_key") (
        as_entries (
          lookup (assign_in cfg (codes "web") (codes "secret_key") v (as_entries o))
            (codes "web"))))
      l.has_web
    ∙ ap (λ o. value_in (codes "secret_key") (as_entries o))
        (lookup-assign cfg (codes "web") (codes "web")
          (mapping (assign l.web (codes "secret_key") v)))
    ∙ lookup-assign l.web (codes "secret_key") (codes "secret_key") v

-- Without a key in the configuration, and with access to the file, the file decides.
reads_file :
    (cfg : Entries) (path : Text) (s : SecretFile)
    → LacksSecret cfg path
    → s.read_error ≡ none
    → ensure_secret_key s cfg ≡ read_or_write s cfg path (Dict.get s.disk path)
unfolding ensure_secret_key
reads_file cfg path s l readable =
    ap (λ o. with_web s cfg (as_entries o)) l.has_web
    ∙ ap
        (λ b.
          if b
          then some (s.disk, cfg)
          else at_path s cfg (get_in cfg (codes "paths") (codes "secret")))
        l.no_key
    ∙ ap (at_path s cfg) l.has_path
    ∙ ap (with_access s cfg path) readable

-- A start that finds no file for the key, and whose calls all succeed, puts a new key into the
-- configuration and the file. The next start with the same configuration, whatever its random keys
-- are, leaves the files and takes the same key, if the key has no white space around it.
pub ensure_secret_key_again :
    (cfg : Entries) (path : Text) (s next : SecretFile)
    → LacksSecret cfg path
    → s.read_error ≡ none
    → Dict.get s.disk path ≡ none
    → s.faults ≡ no_faults
    → strip is_space s.token ≡ s.token
    → next.read_error ≡ none
    → (disk : Disk) × (ensure_secret_key s cfg ≡ some (disk, set_secret cfg s.token))
      × (get_in (set_secret cfg s.token) (codes "web") (codes "secret_key")
          ≡ some (other (is_filled s.token) s.token))
      × (next.disk ≡ disk → ensure_secret_key next cfg ≡ some (disk, set_secret cfg s.token))
unfolding atomic_write_text
ensure_secret_key_again cfg path s next l readable fresh ok stripped readable' =
    let cleared = Dict.remove (Dict.put (Dict.put s.disk s.tmp []) s.tmp s.token) s.tmp in
    let disk = Dict.put cleared path s.token in
    let stored = Dict.get-put_eq cleared path path s.token (==_refl path) in
    (
      disk,
      reads_file cfg path s l readable
          ∙ ap (read_or_write s cfg path) fresh
          ∙ ap (λ f. written s cfg (atomic_write_text f s.disk path s.tmp s.token)) ok,
      get_in-set_secret cfg path s.token l,
      λ same.
          reads_file cfg path next l readable'
          ∙ ap (read_or_write next cfg path) (ap (λ d. Dict.get d path) same ∙ stored)
          ∙ ap (λ d. some (d, set_secret cfg (strip is_space s.token))) same
          ∙ ap (λ key. some (disk, set_secret cfg key)) stripped,
    )
