-- ===== src/Ingest/Handler/Lines.antt =====
-- What a session keeps and what it delivers, over everything that its socket may send.
use ais_server.Prelude.{
  ℕ, ◌≡◌, refl, Bool, true, false, Option, none, some, List, [], ◌∷◌, ◌++◌, nat_eqb, if◌then◌else◌,
  length, get_elem?, All, All-append,
}
use ais_server.Prelude.Text.{Text}
use ais_server.Prelude.Dict.{Dict}
use ais_server.Nmea.{NmeaParse, parse}
use ais_server.Ingest.Registry.{
  NodeRegistry, LogEvent, open_event, close_event, should_log_session, on_session_start,
  on_session_end, set_source_id,
}
use ais_server.Ingest.Registry.Views.{WellKeyed}
use ais_server.Ingest.Registry.Keyed.{on_session_start-WellKeyed}
use ais_server.Ingest.Registry.Moves.{on_session_end-WellKeyed, touch-WellKeyed}
use ais_server.Ingest.Registry.SourceIds.{set_source_id-WellKeyed}
use ais_server.Ingest.TagBlock.{strip_tag_block}
use ais_server.Ingest.Framing.{cut_lines}
use ais_server.Ingest.Handler.{
  Delivery, Session, decode_line, same_source, take_identity, identify, count_invalid,
  accept_sentence, deliver_parsed, deliver, handle_text, handle_line, handle_lines, Received, chunk,
  idle_timeout, closed, socket_error, finish, feed, receive, open_session, run,
}

-- A delivered sentence parses, and its checksum is right.
abbrev pub IsGood : Delivery → Type 0
IsGood d = (p : NmeaParse) × (parse d.sentence ≡ some p) × (p.checksum_ok ≡ true)

pub record IsSound (s : Session) : Type 0 where
  pub keyed : WellKeyed s.registry
  pub good : All IsGood s.delivered

should_log-WellKeyed :
    (r : NodeRegistry) (k : Text) (e : LogEvent) (now : ℕ)
    → WellKeyed r
    → WellKeyed (should_log_session r k e now).0
unfolding should_log_session
should_log-WellKeyed r k open_event now w = by_test _ _ w
  where
    by_test :
        (b : Bool) (l : Dict Text (ℕ × ℕ))
        → WellKeyed r
        → WellKeyed
            (if◌then◌else◌ {A = NodeRegistry × Bool} b
              (record r { last_log = l }, true)
              (r, false)).0
    by_test true l w = w
    by_test false l w = w
should_log-WellKeyed r k close_event now w = by_test _ _ w
  where
    by_test :
        (b : Bool) (l : Dict Text (ℕ × ℕ))
        → WellKeyed r
        → WellKeyed
            (if◌then◌else◌ {A = NodeRegistry × Bool} b
              (record r { last_log = l }, true)
              (r, false)).0
    by_test true l w = w
    by_test false l w = w

identify-IsSound :
    (s : Session) (o : Option Text) (now : ℕ) → IsSound s → IsSound (identify s o now)
unfolding identify
identify-IsSound s none now v = v
identify-IsSound s (some source) now v =
    by_test (same_source source (get_elem? s.registry.objects s.info))
  where
    w : WellKeyed (set_source_id s.registry s.key source now).0
    w = set_source_id-WellKeyed s.registry s.key source now v.keyed

    taken :
        (r : NodeRegistry) (o : Option ℕ) → WellKeyed r → IsSound (take_identity s source (r, o))
    taken r none w = record { keyed = w; good = v.good }
    taken r (some ref) w = record { keyed = w; good = v.good }

    by_test :
        (b : Bool)
        → IsSound
            (if b then s else take_identity s source (set_source_id s.registry s.key source now))
    by_test true = v
    by_test false = let (r, o) = set_source_id s.registry s.key source now in taken r o w

deliver-IsSound :
    (s : Session) (sentence : Text) (now : ℕ) → IsSound s → IsSound (deliver s sentence now)
unfolding deliver
deliver-IsSound s sentence now v = by_failed s.failed
  where
    invalid : IsSound (count_invalid s now)
    invalid = record {
      keyed = touch-WellKeyed s.registry s.key 0 now false true v.keyed;
      good = v.good;
    }

    accepted :
        (p : NmeaParse)
        → parse sentence ≡ some p
        → p.checksum_ok ≡ true
        → IsSound (accept_sentence s sentence now)
    accepted p e c = record {
      keyed = touch-WellKeyed s.registry s.key 0 now true false v.keyed;
      good = All-append IsGood s.delivered _ v.good ((p, e, c), tt);
    }

    by_parse :
        (o : Option NmeaParse) → parse sentence ≡ o → IsSound (deliver_parsed s sentence now o)
    by_parse none e = invalid
    by_parse (some p) e = by_checksum p.checksum_ok refl
      where
        by_checksum :
            (b : Bool)
            → p.checksum_ok ≡ b
            → IsSound (if b then accept_sentence s sentence now else count_invalid s now)
        by_checksum true c = accepted p e c
        by_checksum false c = invalid

    by_failed :
        (b : Bool) → IsSound (if b then s else deliver_parsed s sentence now (parse sentence))
    by_failed true = v
    by_failed false = by_parse (parse sentence) refl

handle_line-IsSound :
    (s : Session) (raw : Text) (now : ℕ) → IsSound s → IsSound (handle_line s raw now)
unfolding handle_line
handle_line-IsSound s raw now v = by_text (decode_line raw)
  where
    by_text : (line : Text) → IsSound (handle_text s line now)
    by_text [] = v
    by_text (c ∷ line) =
        let (sentence, source) = strip_tag_block (c ∷ line) in
        deliver-IsSound (identify s source now) sentence now (identify-IsSound s source now v)

handle_lines-IsSound :
    (s : Session) (lines : List Text) (now : ℕ) → IsSound s → IsSound (handle_lines s lines now)
unfolding handle_lines
handle_lines-IsSound s [] now v = v
handle_lines-IsSound s (raw ∷ lines) now v =
    by_failed s.failed
      (handle_lines-IsSound (handle_line s raw now) lines now (handle_line-IsSound s raw now v))
  where
    by_failed :
        (b : Bool)
        → IsSound (handle_lines (handle_line s raw now) lines now)
        → IsSound (if b then s else handle_lines (handle_line s raw now) lines now)
    by_failed true r = v
    by_failed false r = r

finish-IsSound : (s : Session) (now : ℕ) → IsSound s → IsSound (finish s now)
unfolding finish
finish-IsSound s now v = record {
  keyed =
      should_log-WellKeyed (on_session_end s.registry s.key) s.key close_event now
        (on_session_end-WellKeyed s.registry s.key v.keyed);
  good = v.good;
}

feed-IsSound :
    (s : Session) (buf bytes : Text) (now : ℕ) → IsSound s → IsSound (feed s buf bytes now).0
unfolding feed
feed-IsSound s buf bytes now v = handle_lines-IsSound _ (cut_lines (buf ++ bytes)).0 now (record {
  keyed = touch-WellKeyed s.registry s.key (length bytes) now false false v.keyed;
  good = v.good;
})

receive-IsSound :
    (s : Session) (buf : Text) (events : List Received) → IsSound s → IsSound (receive s buf events)
unfolding receive
receive-IsSound s buf [] v = v
receive-IsSound s buf (chunk bytes now ∷ events) v =
    let f = feed-IsSound s buf bytes now v in
    by_tests (nat_eqb (length bytes) 0) (feed s buf bytes now).0.failed f
      (receive-IsSound (feed s buf bytes now).0 (feed s buf bytes now).1 events f)
  where
    by_tests :
        (a b : Bool)
        → IsSound (feed s buf bytes now).0
        → IsSound (receive (feed s buf bytes now).0 (feed s buf bytes now).1 events)
        → IsSound (
            if a
            then finish s now
            else if b
            then finish (feed s buf bytes now).0 now
            else receive (feed s buf bytes now).0 (feed s buf bytes now).1 events)
    by_tests true b f r = finish-IsSound s now v
    by_tests false true f r = finish-IsSound (feed s buf bytes now).0 now f
    by_tests false false f r = r
receive-IsSound s buf (idle_timeout now ∷ events) v = finish-IsSound s now v
receive-IsSound s buf (closed now ∷ events) v = finish-IsSound s now v
receive-IsSound s buf (socket_error now ∷ events) v = finish-IsSound s now v

-- Whatever a socket sends, in whatever chunks, a session hands on only sentences that parse and
-- whose checksum is right, and it leaves every key of the registry at an object with that key.
pub run-IsSound :
    (r : NodeRegistry) (peer host : Text) (now : ℕ) (events : List Received)
    → WellKeyed r
    → IsSound (run r peer host now events)
unfolding run open_session
run-IsSound r peer host now events w =
    receive-IsSound (open_session r peer host now) [] events (record {
      keyed =
          should_log-WellKeyed (on_session_start r peer host none now).0 host open_event now
            (on_session_start-WellKeyed r peer host none now w);
      good = tt;
    })
