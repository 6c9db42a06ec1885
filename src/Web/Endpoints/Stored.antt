-- ===== src/Web/Endpoints/Stored.antt =====
-- ais_server/web/api.py: what a POST leaves in the table.
use ais_server.Prelude.{ℕ, ◌≡◌, refl, ap, true, false, none, some, ◌∷◌, map, nat_eqb}
use ais_server.Prelude.Text.{Text, codes, text_eqb, text_eq, is_space, strip, lower}
use ais_server.Prelude.Int.{ℤ}
use ais_server.Prelude.Dict
use ais_server.Prelude.Dict.{Dict}
use ais_server.Forwarder.Worker.{Endpoint}
use ais_server.Db.{Database, find}
use ais_server.Db.Endpoints.{get_endpoint}
use ais_server.Db.Endpoints.Lookup.{AreBelow, get_endpoint-add_endpoint}
use ais_server.Web.Json.{Json, text, value, to_int, mapping}
use ais_server.Web.Endpoints.{Sqlite, inserted, parse_endpoint, endpoints_add}
use ais_server.Web.Answer.{ok, NewEndpoint, added, invalid}

-- A request with the fields that have no default and the protocol, and no others.
pub record Posts (Q : Sqlite) (body : Dict Text Json) (name host : Text) (port : ℤ) (c : ℕ)
    (s : Text) : Type 0 where
  pub has_name : Dict.get body (codes "name") ≡ some (text name)
  pub has_host : Dict.get body (codes "host") ≡ some (text host)
  pub port_value : Json
  pub has_port : Dict.get body (codes "port") ≡ some port_value
  pub is_port : to_int port_value ≡ value port
  pub port_fits : Q.fits port ≡ true
  pub has_protocol : Dict.get body (codes "protocol") ≡ some (text (c ∷ s))
  pub no_path : Dict.get body (codes "path") ≡ none
  pub no_enabled : Dict.get body (codes "enabled") ≡ none
  pub no_broadcast : Dict.get body (codes "broadcast") ≡ none

abbrev pub posted : Text → Text → ℤ → Text → NewEndpoint
posted name host port protocol = record {
  name = strip is_space name;
  host = strip is_space host;
  port = port;
  protocol = map lower protocol;
  path = none;
  enabled = true;
  broadcast = false;
}

module _ (Q : Sqlite) (body : Dict Text Json) (name host : Text) (port : ℤ) (c : ℕ) (s : Text)
    (r : Posts Q body name host port c s) where
  parse_endpoint-posted : parse_endpoint Q body ≡ ok (posted name host port (c ∷ s))
  unfolding parse_endpoint
  parse_endpoint-posted =
      rw
        (
          r.has_name, r.has_host, r.has_port, r.is_port, r.port_fits, r.has_protocol, r.no_path,
          r.no_enabled, r.no_broadcast, Q.bind_null,
        )
        refl

  -- A POST of a name, a host, a port and a protocol, with nothing else. If the stripped name is taken, it
  -- is answered with 400 and changes nothing. If it is free, the answer has the next number, under which
  -- the table has the row with the name and the host stripped, the protocol in lower case, no path,
  -- enabled and without broadcast; every other number has the row that it had.
  pub get_endpoint-endpoints_add :
      (db : Database) (now : ℕ)
      → AreBelow db.next_endpoint db.endpoints
      → let answer = endpoints_add Q db (mapping body) now in
        ((e : Endpoint)
          → find (λ x. text_eqb x.name (strip is_space name)) db.endpoints ≡ some e
          → answer ≡ (db, invalid))
        × (find (λ x. text_eqb x.name (strip is_space name)) db.endpoints ≡ none
            → (answer.1 ≡ added db.next_endpoint)
              × (get_endpoint answer.0 db.next_endpoint
                  ≡ some record {
                    id = db.next_endpoint;
                    name = strip is_space name;
                    protocol = map lower (c ∷ s);
                    host = strip is_space host;
                    port = port;
                    path = none;
                    enabled = true;
                    created_at = now;
                    updated_at = now;
                    broadcast = false;
                  })
              × ((k : ℕ)
                  → nat_eqb db.next_endpoint k ≡ false
                  → get_endpoint answer.0 k ≡ get_endpoint db k))
  unfolding endpoints_add
  get_endpoint-endpoints_add db now below =
      let row =
        get_endpoint-add_endpoint db (strip is_space name) (strip is_space host) port
          (map lower (c ∷ s)) none true false now below in
      rw parse_endpoint-posted (
        λ e taken. ap (inserted db) (row.0 e taken),
        λ free. let (db', stored, there, others) = row.1 free in rw stored (refl, there, others),
      )
