-- ===== src/Web/Endpoints/Patched.antt =====
-- ais_server/web/api.py: what a PATCH of one column leaves in the table.
use ais_server.Prelude.{ℕ, ◌≡◌, refl, ap, ◌∙◌, Bool, true, false, some, [], ◌∷◌, arith, nat_eqb}
use ais_server.Prelude.Text.{Text, codes, text_eqb, text_eq}
use ais_server.Prelude.Int.{ℤ}
use ais_server.Prelude.Dict
use ais_server.Forwarder.Worker.{Endpoint}
use ais_server.Forwarder.Probe.{Network, run_tcp, handler_for, test_endpoint}
use ais_server.Db.{Database, exists}
use ais_server.Db.Users.{map_option}
use ais_server.Db.Endpoints.{
  Change, set_protocol, set_enabled, get_endpoint, apply_all, new_name, update_endpoint,
}
use ais_server.Db.Endpoints.Lookup.{get_endpoint-update_endpoint}
use ais_server.Web.Json.{boolean, text, mapping}
use ais_server.Web.Endpoints.{Sqlite, changed_or_raised, endpoints_update}
use ais_server.Web.Answer.{Answer, changed}

-- The requests of `aisctl endpoints enable` and `disable`, and of the page for the protocol.
abbrev pub patch_enabled : Sqlite → Database → ℕ → Bool → ℕ → Database × Answer
patch_enabled Q db ep_id b now =
    endpoints_update Q db ep_id (mapping ((codes "enabled", boolean b) ∷ [])) now

abbrev pub patch_protocol : Sqlite → Database → ℕ → Text → ℕ → Database × Answer
patch_protocol Q db ep_id s now =
    endpoints_update Q db ep_id (mapping ((codes "protocol", text s) ∷ [])) now

module _ (Q : Sqlite) (db : Database) (ep_id now : ℕ) (e : Endpoint)
    (row : get_endpoint db ep_id ≡ some e) (fits : Q.fits (ℤ.pos ep_id) ≡ true) where
  -- One change of a row that is there, which is not its name.
  one_change :
      (c : Change) (e' : Endpoint)
      → ((db' : Database) × (update_endpoint db ep_id (c ∷ []) now
            ≡ some (db', exists (get_endpoint db ep_id)))
          × (get_endpoint db' ep_id
              ≡ map_option (λ x. apply_all now x (c ∷ [])) (get_endpoint db ep_id))
          × ((k : ℕ) → nat_eqb ep_id k ≡ false → get_endpoint db' k ≡ get_endpoint db k))
      → apply_all now e (c ∷ []) ≡ e'
      → let r = changed_or_raised db (update_endpoint db ep_id (c ∷ []) now) in
        (r.1 ≡ changed true)
        × (get_endpoint r.0 ep_id ≡ some e')
        × ((k : ℕ) → nat_eqb ep_id k ≡ false → get_endpoint r.0 k ≡ get_endpoint db k)
  unfolding map_option
  one_change c e' (db', updated, there, others) same = rw updated (
    ap (λ o. changed (exists o)) row,
    there ∙ ap (map_option (λ x. apply_all now x (c ∷ []))) row ∙ ap some same,
    others,
  )

  -- A PATCH of `enabled` for a row that is there answers that it was changed, sets that column and the
  -- time of the update, leaves the other columns of the row, and every other row, if
  -- SQLite can take the number of the row.
  pub get_endpoint-patch_enabled :
      (b : Bool)
      → let r = patch_enabled Q db ep_id b now in
        (r.1 ≡ changed true)
        × (get_endpoint r.0 ep_id ≡ some (record e { enabled = b; updated_at = now }))
        × ((k : ℕ) → nat_eqb ep_id k ≡ false → get_endpoint r.0 k ≡ get_endpoint db k)
  unfolding endpoints_update Dict.get apply_all new_name
  get_endpoint-patch_enabled b = rw fits (
      one_change (set_enabled b) (record e { enabled = b; updated_at = now })
        (get_endpoint-update_endpoint db ep_id (set_enabled b ∷ []) now (omega arith) refl) refl)

  -- A PATCH of `protocol` with any text but the three protocols, `UDP` for one, is answered as a change
  -- and stored as it is; the worker of the row sends over TCP then, and the test of the row says that
  -- the protocol is unknown. SQLite can take the number of the row.
  pub patch_protocol_unknown :
      (net : Network) (s sentence : Text)
      → text_eqb s (codes "tcp") ≡ false
      → text_eqb s (codes "udp") ≡ false
      → text_eqb s (codes "http") ≡ false
      → let r = patch_protocol Q db ep_id s now in
        (r.1 ≡ changed true)
        × (found : Endpoint) × (get_endpoint r.0 ep_id ≡ some found)
        × (found.protocol ≡ s)
        × (handler_for found.protocol ≡ run_tcp)
        × (test_endpoint net found sentence ≡ (false, codes "Unknown protocol"))
  unfolding endpoints_update Dict.get apply_all new_name handler_for test_endpoint
  patch_protocol_unknown net s sentence not_tcp not_udp not_http =
      let e' : Endpoint = record e { protocol = s; updated_at = now } in
      let stored = Q.bind_string s in
      let done =
        one_change (set_protocol s) e'
          (get_endpoint-update_endpoint db ep_id (set_protocol s ∷ []) now (omega arith) refl)
          refl in
      rw (stored, fits)
        (
          done.0,
          e',
          done.1,
          refl,
          rw (not_tcp, not_udp, not_http) refl,
          rw (not_tcp, not_udp, not_http) refl,
        )
