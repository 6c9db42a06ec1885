-- ===== src/Wifi/Printed.antt =====
-- ais_server/wifi.py: the networks that `nmcli` prints are the networks that the page shows, as long as
-- no name holds a colon.
use ais_server.Prelude.{
  ℕ, ◌≡◌, refl, ap, ◌∙◌, false, true, List, [], ◌∷◌, ◌++◌, map, if◌then◌else◌, All,
}
use ais_server.Prelude.Text.{Text, codes, text_or, text_eqb}
use ais_server.Prelude.Int.{pos}
use ais_server.Prelude.Sort.{first}
use ais_server.Prelude.Lines.{IsLine, unlines, splitlines-unlines}
use ais_server.Nmea.Structure.{join, Lacks, split-join}
use ais_server.Wifi.{
  Host, exited, Network, network_of, signal_of, is_empty, unless_seen, scan_next, scan_loop,
  list_args, scan,
}
use ais_server.Wifi.Scan.{has_ssid, add_named, rows, scan-rows}

-- The four texts that `nmcli` prints of a network.
pub record Entry : Type 0 where
  pub in_use : Text
  pub ssid : Text
  pub signal : Text
  pub security : Text

abbrev pub fields : Entry → List Text
fields e = e.in_use ∷ e.ssid ∷ e.signal ∷ e.security ∷ []

abbrev pub printed : Entry → Text
printed e = join b':' (fields e)

-- No field holds a colon or ends a line.
abbrev pub IsPlain : Entry → Type 0
IsPlain e = Lacks b':' (fields e) × IsLine (printed e)

abbrev pub network : Entry → Network
network e = record {
  ssid = e.ssid;
  signal = signal_of e.signal;
  security = text_or e.security (codes "Open");
  in_use = text_eqb e.in_use (codes "*");
}

-- The networks that have a name.
abbrev pub named : List Entry → List Network
named [] = []
named (e ∷ es) = if is_empty e.ssid then named es else network e ∷ named es

lines_are_lines : (es : List Entry) → All IsPlain es → All IsLine (map printed es)
lines_are_lines [] a = tt
lines_are_lines (e ∷ es) a = (a.0.1, lines_are_lines es a.1)

rows-printed : (es : List Entry) → All IsPlain es → rows (map printed es) ≡ named es
unfolding rows
rows-printed [] a = refl
rows-printed (e ∷ es) a =
    ap (λ fs. add_named (network_of fs) (rows (map printed es)))
      (split-join b':' e.in_use (e.ssid ∷ e.signal ∷ e.security ∷ []) a.0.0)
    ∙ ap (λ ns. if is_empty e.ssid then ns else network e ∷ ns) (rows-printed es a.1)

-- If `nmcli` prints any networks, one to a line, whose fields hold no colon and no end of a line, the
-- scan has under each name what was printed first under it, with the signal as a number and `Open` for
-- no security.
pub scan-printed :
    (h : Host) (interface err : Text) (es : List Entry) (ssid : Text)
    → h.which_nmcli ≡ true
    → h.run (list_args interface) 15 ≡ exited (pos 0) (unlines (map printed es)) err
    → All IsPlain es
    → first (has_ssid ssid) (scan h interface) ≡ first (has_ssid ssid) (named es)
scan-printed h interface err es ssid there answer plain =
    ((scan-rows h interface (unlines (map printed es)) err there answer).1 ssid).1
    ∙ ap (λ ls. first (has_ssid ssid) (rows ls))
        (splitlines-unlines (map printed es) (lines_are_lines es plain))
    ∙ ap (first (has_ssid ssid)) (rows-printed es plain)

not_empty : (s : Text) (c : ℕ) → is_empty (s ++ c ∷ []) ≡ false
not_empty [] c = refl
not_empty (d ∷ s) c = refl

-- The line that `nmcli -t` prints of the name `before:after`: a backslash stands before the colon.
abbrev pub colon_line : Text → Text → Text → Text → Text → Text
colon_line in_use before after signal security =
    join b':' (in_use ∷ (before ++ 92 ∷ []) ∷ after ∷ signal ∷ security ∷ [])

-- A name with a colon in it, which `nmcli -t` prints with a backslash in front of the colon, is cut
-- there: the list has the part before the colon with the backslash for a name, the part behind it as
-- the signal, and the signal for the security, if the parts hold no further colon.
pub scan_loop_colon :
    (in_use before after signal security : Text)
    → Lacks b':' (in_use ∷ (before ++ 92 ∷ []) ∷ after ∷ signal ∷ security ∷ [])
    → scan_loop [] (colon_line in_use before after signal security ∷ [])
      ≡ record {
        ssid = before ++ 92 ∷ [];
        signal = signal_of after;
        security = text_or signal (codes "Open");
        in_use = text_eqb in_use (codes "*");
      }
        ∷ []
unfolding scan_loop
scan_loop_colon in_use before after signal security l =
    ap (λ fs. scan_next [] (λ s. []) (unless_seen [] (network_of fs)))
      (split-join b':' in_use ((before ++ 92 ∷ []) ∷ after ∷ signal ∷ security ∷ []) l)
    ∙ rw (not_empty before 92) refl
