-- ===== src/Netcheck/Tests.antt =====
-- Runs of the check of ais_server/netcheck.py.
use ais_server.Prelude.{◌+◌, ◌*◌, ◌<◌, ◌≡◌, refl, true, List, [], ◌∷◌, arith}
use ais_server.Prelude.{none, some}
use ais_server.Prelude.Text.{Text, codes, words}
use ais_server.Prelude.Number.{int_hex}
use ais_server.Prelude.Show.{show}
use ais_server.Netcheck.Gateway.{
  default_gateway, default_gateway-hex_address, dotted_quad, other_destination,
}
use ais_server.Netcheck.{
  NetCheck, new, Cycle, no_route, probe_failed, cycle, run, failures, run_bounces,
}

abbrev check : NetCheck
check = new 3 true

abbrev outage : List Cycle
outage = probe_failed 30 ∷ probe_failed 60 ∷ no_route ∷ probe_failed 90 ∷ probe_failed 120 ∷ []

run_bounces_example :
    ((run check outage).1 * check.fail_threshold + (run check outage).0.fails
      ≡ check.fails + failures outage)
    × ((run check outage).0.fails < check.fail_threshold)
unfolding new
run_bounces_example = run_bounces check outage (tt, (tt, (tt, (tt, (tt, tt))))) refl (omega arith)

one_bounce : (run check outage).1 ≡ 1
unfolding run cycle new
one_bounce = refl

abbrev header : Text
header = codes "Iface Destination Gateway Flags"

abbrev local_route : Text
local_route = codes "eth0 0000A8C0 00000000 0001 0"

abbrev default_route : Text
default_route = codes "eth0 00000000 0101A8C0 0003 0"

default_gateway-hex_address_example :
    default_gateway (some (header ∷ local_route ∷ default_route ∷ []))
    ≡ some (dotted_quad 192 168 1 1)
unfolding words int_hex
default_gateway-hex_address_example =
    default_gateway-hex_address 192 168 1 1 (omega arith, (omega arith, (omega arith, omega arith)))
      header (local_route ∷ []) default_route [] (codes "eth0") (codes "0003") (codes "0" ∷ []) 3
      (
        other_destination {iface = codes "eth0"} {destination = codes "0000A8C0"}
            {more = codes "00000000" ∷ codes "0001" ∷ codes "0" ∷ []} refl (λ e. ground (arith, e)),
        tt,
      )
      refl refl refl

gateway :
    default_gateway (some (header ∷ local_route ∷ default_route ∷ [])) ≡ some (codes "192.168.1.1")
unfolding default_gateway words int_hex show
gateway = refl

no_route_file : default_gateway (some []) ≡ none
unfolding default_gateway
no_route_file = refl
