-- ===== src/Forwarder/Probe.antt =====
-- ais_server/forwarder.py: `test_endpoint`, the one sentence that the button of the page sends.
use ais_server.Prelude.{
  ℕ, Bool, true, false, ◌&&◌, Option, none, some, [], ◌∷◌, ◌++◌, ltb, leb, if◌then◌else◌,
}
use ais_server.Prelude.Text.{Text, codes, text_eqb, text_or}
use ais_server.Prelude.Int.{ℤ}
use ais_server.Prelude.Show.{show, show_int}
use ais_server.Forwarder.Worker.{Endpoint}

-- What comes of `requests.post`: the status code, or the text of the exception.
pub data Posted : Type 0 where
  answered : ℕ → Posted
  failed : Text → Posted

-- The network. A call over TCP or UDP has the text of its exception, if it raises one: TCP is the
-- connection and the sending, UDP has the option for broadcasts first, if it is asked for.
pub record Network : Type 0 where
  pub send_tcp : Text → ℤ → Text → Option Text
  pub send_udp : Bool → Text → ℤ → Text → Option Text
  pub post : Text → Text → Posted

abbrev pub default_sentence : Text
default_sentence = codes "!AIVDM,1,1,,A,13aEOK?P00PD2wVMdLDRhgvL289?,0*26"

abbrev pub sent : Option Text → Bool × Text
sent none = (true, codes "Sent")
sent (some message) = (false, message)

-- `200 <= status < 300`
abbrev pub posted : Posted → Bool × Text
posted (answered status) = (leb 200 status && ltb status 300, codes "HTTP " ++ show status)
posted (failed message) = (false, message)

-- `path or '/'`
abbrev pub path_or_root : Option Text → Text
path_or_root none = codes "/"
path_or_root (some s) = text_or s (codes "/")

-- The address that an HTTP worker posts to, too.
unfoldable pub url : Endpoint → Text
url ep = codes "http://" ++ (ep.host ++ b':' ∷ (show_int ep.port ++ path_or_root ep.path))

-- `sentence` is ASCII, so its encoding does not raise.
unfoldable pub test_endpoint : Network → Endpoint → Text → Bool × Text
unfolding url
test_endpoint net ep sentence =
    if text_eqb ep.protocol (codes "tcp")
    then sent (net.send_tcp ep.host ep.port (sentence ++ 13 ∷ 10 ∷ []))
    else if text_eqb ep.protocol (codes "udp")
    then sent (net.send_udp ep.broadcast ep.host ep.port (sentence ++ 13 ∷ 10 ∷ []))
    else if text_eqb ep.protocol (codes "http")
    then posted (net.post (url ep) sentence)
    else (false, codes "Unknown protocol")

-- `run` of a worker: which loop runs, by the protocol of the row.
pub data Handler : Type 0 where
  run_tcp : Handler
  run_udp : Handler
  run_http : Handler

unfoldable pub handler_for : Text → Handler
handler_for protocol =
    if text_eqb protocol (codes "tcp")
    then run_tcp
    else if text_eqb protocol (codes "udp")
    then run_udp
    else if text_eqb protocol (codes "http")
    then run_http
    else run_tcp
