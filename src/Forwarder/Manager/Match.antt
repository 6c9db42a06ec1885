-- ===== src/Forwarder/Manager/Match.antt =====
-- ais_server/forwarder.py: when a sync takes a row for the one that its worker was started with.
use ais_server.Prelude.{◌≡◌, ◌↔◌, Bool, true, false, Option, none, some, arith}
use ais_server.Prelude.Text.{Text, text_eqb_iff}
use ais_server.Prelude.Int.{ℤ, pos, negsuc, int_eqb}
use ais_server.Forwarder.Worker.{Endpoint}
use ais_server.Forwarder.Manager.{bool_eqb, option_eqb, endpoint_match}

bool_eqb_iff : (a b : Bool) → (bool_eqb a b ≡ true) ↔ (a ≡ b)
bool_eqb_iff true true = ground arith
bool_eqb_iff true false = ground arith
bool_eqb_iff false true = ground arith
bool_eqb_iff false false = ground arith

int_eqb_iff : (a b : ℤ) → (int_eqb a b ≡ true) ↔ (a ≡ b)
int_eqb_iff (pos a) (pos b) = ground arith
int_eqb_iff (negsuc a) (negsuc b) = ground arith
int_eqb_iff (pos a) (negsuc b) = ground arith
int_eqb_iff (negsuc a) (pos b) = ground arith

option_eqb_iff : (a b : Option Text) → (option_eqb a b ≡ true) ↔ (a ≡ b)
option_eqb_iff none none = ground arith
option_eqb_iff (some s) (some t) = ground (arith, text_eqb_iff s t)
option_eqb_iff none (some t) = ground arith
option_eqb_iff (some s) none = ground arith

-- Two rows match exactly if they have the same protocol, host, port, path, name, enabled flag and
-- broadcast flag.
endpoint_match_iff :
    (a b : Endpoint)
    → (endpoint_match a b ≡ true) ↔ (
        (a.protocol ≡ b.protocol)
        × (a.host ≡ b.host)
        × (a.port ≡ b.port)
        × (a.path ≡ b.path)
        × (a.name ≡ b.name)
        × (a.enabled ≡ b.enabled)
        × (a.broadcast ≡ b.broadcast))
unfolding endpoint_match
endpoint_match_iff a b = ground (
  arith,
  text_eqb_iff a.protocol b.protocol,
  text_eqb_iff a.host b.host,
  int_eqb_iff a.port b.port,
  option_eqb_iff a.path b.path,
  text_eqb_iff a.name b.name,
  bool_eqb_iff a.enabled b.enabled,
  bool_eqb_iff a.broadcast b.broadcast,
)
