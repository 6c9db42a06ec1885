-- ===== src/Cli.antt =====
-- ais_server/cli.py: how `aisctl` finds the server, what it makes of the answers, and the requests of its
-- commands. Printing is left out. A port that is a boolean or a float is left out, too.
pub mod Server
mod Tests
use ais_server.Prelude.{
  ℕ, ◌+◌, ◌/◌, Bool, true, false, ◌&&◌, ◌||◌, not, Option, none, some, List, [], ◌∷◌, ◌++◌, ltb,
  leb, nat_eqb, if◌then◌else◌,
}
use ais_server.Prelude.Text.{Text, codes, text_eqb, starts_with}
use ais_server.Prelude.Int.{ℤ}
use ais_server.Prelude.Number.{int_decimal}
use ais_server.Prelude.Show.{show, show_int}
use ais_server.Prelude.Dict.{Dict}
use ais_server.Config.{Value, other, mapping, Entries, none_left, entry, lookup}
use ais_server.Config.Load.{ConfigFile, missing, unreadable, yaml_error, parsed}
use ais_server.Web.Json.{Json, boolean, integer, text}

-- `w.get("host") or "127.0.0.1"`, and the names for all addresses
abbrev pub chosen_host : (Value → Text) → Option Value → Text
chosen_host str none = codes "127.0.0.1"
chosen_host str (some (other false s)) = codes "127.0.0.1"
chosen_host str (some (other true s)) = s
chosen_host str (some (mapping none_left)) = codes "127.0.0.1"
chosen_host str (some (mapping (entry k v d))) = str (mapping (entry k v d))

abbrev pub reachable_host : Text → Text
reachable_host host =
    if text_eqb host (codes "0.0.0.0") || text_eqb host (codes "::")
    then codes "127.0.0.1"
    else host

-- `int(w.get("port", 80))`; no result is an exception.
abbrev pub chosen_port : Option Value → Option ℤ
chosen_port none = some (ℤ.pos 80)
chosen_port (some (other b s)) = int_decimal s
chosen_port (some (mapping d)) = none

abbrev pub url_of : Text → Option ℤ → Option Text
url_of host none = none
url_of host (some port) = some (codes "http://" ++ (host ++ b':' ∷ show_int port))

abbrev pub web_url : (Value → Text) → Entries → Option Text
web_url str w =
    url_of (reachable_host (chosen_host str (lookup w (codes "host"))))
      (chosen_port (lookup w (codes "port")))

-- `cfg.get("web", {})`: any other value than a mapping raises.
abbrev pub section_url : (Value → Text) → Option Value → Option Text
section_url str none = web_url str none_left
section_url str (some (mapping w)) = web_url str w
section_url str (some (other b s)) = none

-- What one configuration gives; an exception is passed over, like a file that is not there.
abbrev pub file_url : (Value → Text) → ConfigFile → Option Text
file_url str missing = none
file_url str unreadable = none
file_url str yaml_error = none
file_url str (parsed (mapping cfg)) = section_url str (lookup cfg (codes "web"))
file_url str (parsed (other false s)) = section_url str none
file_url str (parsed (other true s)) = none

abbrev pub or_url : Text → Option Text → Text
or_url rest none = rest
or_url rest (some url) = url

-- `str` is Python's, for a mapping that stands where a host should. The files are those at the two paths.
unfoldable pub base_url : (Value → Text) → List ConfigFile → Text
unfolding lookup
base_url str [] = codes "http://127.0.0.1:80"
base_url str (file ∷ files) = or_url (base_url str files) (file_url str file)

-- An answer: its code, where it redirects to, whether its type is JSON, and what `json()` reads; no
-- result is an exception.
pub record Reply : Type 0 where
  pub status_code : ℕ
  pub location : Option Text
  pub is_json : Bool
  pub json : Option Json

-- What a command makes of an answer: data, or the exceptions.
pub data Outcome : Type 0 where
  result : Json → Outcome
  -- An empty mapping.
  nothing : Outcome
  -- The message that asks for a login, and exit code 1.
  not_logged_in : Outcome
  http_error : Outcome
  decode_error : Outcome

abbrev pub decoded : Option Json → Outcome
decoded none = decode_error
decoded (some v) = result v

-- `raise_for_status`
abbrev pub is_error : ℕ → Bool
is_error status = leb 400 status && ltb status 600

abbrev pub read_get : Reply → Outcome
read_get r =
    if nat_eqb r.status_code 401
    then not_logged_in
    else if is_error r.status_code
    then http_error
    else decoded r.json

abbrev pub read_post : Reply → Outcome
read_post r =
    if nat_eqb r.status_code 401
    then not_logged_in
    else if is_error r.status_code
    then http_error
    else if r.is_json
    then decoded r.json
    else nothing

-- `_patch` and `_delete` do not look for a 401.
abbrev pub read_patch : Reply → Outcome
read_patch r = if is_error r.status_code then http_error else decoded r.json

-- A session follows a redirect. `visit` is the answer at an address.
abbrev pub followed : (Text → Reply) → Reply → Option Text → Reply
followed visit r none = r
followed visit r (some address) = visit address

unfoldable pub get : (Text → Reply) → Text → Outcome
get visit url = let r = visit url in read_get (followed visit r r.location)

unfoldable pub post : (Text → Reply) → Text → Outcome
post visit url = let r = visit url in read_post (followed visit r r.location)

-- `"login" in text`
abbrev pub occurs : Text → Text → Bool
occurs p [] = starts_with [] p
occurs p (c ∷ s) = starts_with (c ∷ s) p || occurs p s

abbrev pub location_or_empty : Option Text → Text
location_or_empty none = []
location_or_empty (some s) = s

-- Whether `login` keeps the session and reports success; it does not follow redirects.
unfoldable pub login : Reply → Bool
login r =
    (nat_eqb r.status_code 301 || nat_eqb r.status_code 302 || nat_eqb r.status_code 303)
    && not (occurs (codes "login") (location_or_empty r.location))

-- The request of a command: the path, and the body of a POST or PATCH.
unfoldable pub endpoint_path : ℕ → Text
endpoint_path ep_id = codes "/api/endpoints/" ++ show ep_id

unfoldable pub endpoints_add : Text → Text → ℤ → Text → Bool → Bool → Dict Text Json
endpoints_add name host port protocol enabled broadcast =
    (codes "name", text name)
    ∷ (codes "host", text host)
    ∷ (codes "port", integer port)
    ∷ (codes "protocol", text protocol)
    ∷ (codes "enabled", boolean enabled)
    ∷ (codes "broadcast", boolean broadcast)
    ∷ []

unfoldable pub endpoints_enable : Dict Text Json
endpoints_enable = (codes "enabled", boolean true) ∷ []

unfoldable pub endpoints_disable : Dict Text Json
endpoints_disable = (codes "enabled", boolean false) ∷ []

unfoldable pub wifi_connect : Text → Text → Dict Text Json
wifi_connect ssid password = (codes "ssid", text ssid) ∷ (codes "password", text password) ∷ []

-- The column for broadcasts in the list of endpoints.
abbrev pub broadcast_column : Text → Bool → Text
broadcast_column protocol broadcast =
    if broadcast && text_eqb protocol (codes "udp")
    then codes "yes"
    else if text_eqb protocol (codes "udp")
    then codes "no"
    else 8212 ∷ []
