-- ===== src/Web/Endpoints.antt =====
-- ais_server/web/api.py: the requests on the table of endpoints. Texts of requests are taken as ASCII.
pub mod Requests
mod Tests
pub mod Stored
pub mod Patched
pub mod Synced
use ais_server.Prelude.{
  ℕ, ◌≡◌, Bool, true, false, ◌&&◌, ◌||◌, not, Option, none, some, List, [], ◌∷◌, map, if◌then◌else◌,
}
use ais_server.Prelude.Text.{Text, codes, text_eqb, text_eq}
use ais_server.Prelude.Int.{ℤ}
use ais_server.Prelude.Dict
use ais_server.Prelude.Dict.{Dict}
use ais_server.Forwarder.Worker.{Endpoint}
use ais_server.Forwarder.Probe.{Network, default_sentence, test_endpoint}
use ais_server.Db.{Database, exists}
use ais_server.Db.Endpoints.{
  Change, set_name, set_protocol, set_host, set_port, set_path, set_enabled, set_broadcast, ignored,
  is_allowed, EndpointDict, get_endpoint, add_endpoint, update_endpoint, delete_endpoint,
  as_dict_endpoints,
}
use ais_server.Web.Json.{
  Json, boolean, integer, text, truth, IntResult, value, value_error, type_error, to_int, Body,
  mapping, no_mapping, get_or, json_or,
}
use ais_server.Web.Answer.{
  Result, ok, raised, ◌>>=◌, ◌>>◌, field, stripped, lowered, int_or_raise, bound_or_raise, guard,
  NewEndpoint, Answer, added, invalid, bad_port, changed, not_found, tested, server_error, refused,
}

-- SQLite: what a value is stored as in a column of texts, and which numbers fit its integers; no
-- result is an exception. NULL and texts are stored as they are.
pub record Sqlite : Type 0 where
  pub bind_text : Json → Option (Option Text)
  pub fits : ℤ → Bool
  pub bind_null : bind_text Json.null ≡ some none
  pub bind_string : (s : Text) → bind_text (text s) ≡ some (some s)

abbrev pub inserted : Database → Option (Database × ℕ) → Database × Answer
inserted db none = (db, invalid)
inserted db (some (db', id)) = (db', added id)

abbrev pub changed_or_raised : Database → Option (Database × Bool) → Database × Answer
changed_or_raised db none = (db, server_error)
changed_or_raised db (some (db', b)) = (db', changed b)

-- What SQLite makes of one column of the update: a value that it cannot take, NULL in a column that
-- has none, or a value.
pub data Bound : Type 0 where
  cannot_bind : Bound
  set_null : Bound
  set : Change → Bound

abbrev pub not_null : (Text → Change) → Option (Option Text) → Bound
not_null column none = cannot_bind
not_null column (some none) = set_null
not_null column (some (some s)) = set (column s)

abbrev pub nullable : Option (Option Text) → Bound
nullable none = cannot_bind
nullable (some path) = set (set_path path)

abbrev pub any : (Bound → Bool) → List Bound → Bool
any p [] = false
any p (b ∷ bs) = p b || any p bs

abbrev pub is_unbound : Bound → Bool
is_unbound cannot_bind = true
is_unbound _ = false

abbrev pub is_null : Bound → Bool
is_null set_null = true
is_null _ = false

-- A value for a column of the table.
abbrev pub is_column : Bound → Bool
is_column (set c) = is_allowed c
is_column _ = true

abbrev pub changes_of : List Bound → List Change
changes_of [] = []
changes_of (set c ∷ bs) = c ∷ changes_of bs
changes_of (b ∷ bs) = changes_of bs

-- A keyword argument with one of the names of the parameters.
abbrev pub has_parameter : Dict Text Json → Bool
has_parameter body = exists (Dict.get body (codes "ep_id")) || exists (Dict.get body (codes "self"))

module _ (Q : Sqlite) where
  unfoldable pub parse_endpoint : Dict Text Json → Result NewEndpoint
  unfolding to_int
  parse_endpoint body = do
    name ← field body (codes "name") >>= stripped
    host ← field body (codes "host") >>= stripped
    port ← field body (codes "port") >>= (λ v. int_or_raise (to_int v))
    protocol ←
        lowered (json_or (get_or (Dict.get body (codes "protocol")) Json.null) (text (codes "tcp")))
    guard (Q.fits port)
    path ← bound_or_raise (Q.bind_text (get_or (Dict.get body (codes "path")) Json.null))
    ok record {
      name = name;
      host = host;
      port = port;
      protocol = protocol;
      path = path;
      enabled = truth (get_or (Dict.get body (codes "enabled")) (boolean true));
      broadcast = truth (get_or (Dict.get body (codes "broadcast")) (boolean false));
    }

  abbrev pub store_endpoint : Database → ℕ → Result NewEndpoint → Database × Answer
  store_endpoint db now (raised failure) = (db, refused failure)
  store_endpoint db now (ok e) =
      inserted db (add_endpoint db e.name e.host e.port e.protocol e.path e.enabled e.broadcast now)

  unfoldable pub endpoints_add : Database → Body → ℕ → Database × Answer
  unfolding parse_endpoint
  endpoints_add db no_mapping now = (db, invalid)
  endpoints_add db (mapping body) now = store_endpoint db now (parse_endpoint body)

  -- The port was made an integer before.
  abbrev pub bind_port : Json → Bound
  bind_port (integer i) = if Q.fits i then set (set_port i) else cannot_bind
  bind_port _ = cannot_bind

  unfoldable pub bind : Text × Json → Bound
  bind (key, v) =
      if text_eqb key (codes "name")
      then not_null set_name (Q.bind_text v)
      else if text_eqb key (codes "protocol")
      then not_null set_protocol (Q.bind_text v)
      else if text_eqb key (codes "host")
      then not_null set_host (Q.bind_text v)
      else if text_eqb key (codes "port")
      then bind_port v
      else if text_eqb key (codes "path")
      then nullable (Q.bind_text v)
      else if text_eqb key (codes "enabled")
      then set (set_enabled (truth v))
      else if text_eqb key (codes "broadcast")
      then set (set_broadcast (truth v))
      else set ignored

  -- Whether SQLite can take the number of the row.
  abbrev pub fits_id : ℕ → Bool
  fits_id ep_id = Q.fits (ℤ.pos ep_id)

  -- The `UPDATE`, which is not run without a column: NULL is refused only where there is a row.
  unfoldable pub run_update : Database → ℕ → List Bound → ℕ → Database × Answer
  run_update db ep_id bounds now =
      if any is_unbound bounds
        || (any is_null bounds && exists (get_endpoint db ep_id))
        || (any is_column bounds && not (fits_id ep_id))
      then (db, server_error)
      else changed_or_raised db (update_endpoint db ep_id (changes_of bounds) now)

  abbrev pub with_broadcast : Dict Text Json → Option Json → Dict Text Json
  with_broadcast body none = body
  with_broadcast body (some v) = Dict.put body (codes "broadcast") (boolean (truth v))

  unfoldable pub update_with : Database → ℕ → Dict Text Json → ℕ → Database × Answer
  unfolding bind run_update
  update_with db ep_id body now =
      let kwargs = with_broadcast body (Dict.get body (codes "broadcast")) in
      if has_parameter kwargs then (db, server_error) else run_update db ep_id (map bind kwargs) now

  abbrev pub with_port : Database → ℕ → Dict Text Json → ℕ → IntResult → Database × Answer
  with_port db ep_id body now (value i) =
      update_with db ep_id (Dict.put body (codes "port") (integer i)) now
  with_port db ep_id body now value_error = (db, bad_port)
  with_port db ep_id body now type_error = (db, server_error)

  abbrev pub update_mapping : Database → ℕ → Dict Text Json → ℕ → Option Json → Database × Answer
  update_mapping db ep_id body now none = update_with db ep_id body now
  update_mapping db ep_id body now (some port) = with_port db ep_id body now (to_int port)

  -- Neither the test for a port nor the call takes a value that is no mapping.
  unfoldable pub endpoints_update : Database → ℕ → Body → ℕ → Database × Answer
  unfolding to_int update_with
  endpoints_update db ep_id no_mapping now = (db, server_error)
  endpoints_update db ep_id (mapping body) now =
      update_mapping db ep_id body now (Dict.get body (codes "port"))

  unfoldable pub endpoints_delete : Database → ℕ → Database × Answer
  unfolding delete_endpoint
  endpoints_delete db ep_id =
      let (db', b) = delete_endpoint db ep_id in
      if fits_id ep_id then (db', changed b) else (db, server_error)

abbrev pub test_found : Network → Option Endpoint → Answer
test_found net none = not_found
test_found net (some ep) =
    let (b, message) = test_endpoint net ep default_sentence in tested b message

unfoldable pub endpoints_test : Sqlite → Network → Database → ℕ → Answer
unfolding test_endpoint
endpoints_test Q net db ep_id =
    if fits_id Q ep_id then test_found net (get_endpoint db ep_id) else server_error

unfoldable pub endpoints_list : Database → List EndpointDict
endpoints_list db = as_dict_endpoints db
