-- ===== src/Wifi/Tests.antt =====
-- Runs of ais_server/wifi.py on a machine with two networks in reach and a wired link.
use ais_server.Prelude.{
  ℕ, ◌≡◌, refl, Bool, true, false, Option, none, some, List, [], ◌∷◌, map, if◌then◌else◌,
}
use ais_server.Prelude.Text.{Text, codes, text_eqb, splitlines}
use ais_server.Prelude.Int.{pos}
use ais_server.Prelude.Sort.{InOrder, first, AtMostOne}
use ais_server.Prelude.Lines.{unlines}
use ais_server.Wifi.{Host, Outcome, exited, file_not_found, stronger, scan, connect}
use ais_server.Wifi.Scan.{has_ssid, rows, scan-rows}
use ais_server.Wifi.Printed.{Entry, printed, named, colon_line, scan-printed, scan_loop_colon}
use ais_server.Wifi.Ethernet.{unknown, read_sysfs, state_word, ethernet}
use ais_server.Wifi.Link.{Device, device_lines, filled, ethernet-device}

abbrev entry : Text → Text → Entry
entry ssid signal = record {
  in_use = codes " ";
  ssid = ssid;
  signal = signal;
  security = codes "WPA2";
}

abbrev entries : List Entry
entries =
    entry (codes "dock") (codes "40")
    ∷ entry (codes "mast") (codes "75")
    ∷ entry (codes "dock") (codes "90")
    ∷ []

abbrev wired : Device
wired = record {
  number = codes "100 ";
  word = codes "connected";
  connection = codes "Wired connection 1";
  address = codes "192.168.1.42";
  prefix = codes "24";
  gateway = codes "--";
}

abbrev is_list : List Text → Bool
is_list (a ∷ b ∷ c ∷ d ∷ more) = text_eqb d (codes "IN-USE,SSID,SIGNAL,SECURITY")
is_list _ = false

abbrev answer : List Text → ℕ → Outcome
answer args timeout =
    exited (pos 0)
      (if is_list args then unlines (map printed entries) else unlines (device_lines wired)) []

abbrev file : Text → Option Text
file path =
    if text_eqb path (codes "/sys/class/net/eth0/speed")
    then some (codes "1000")
    else some (codes "1")

abbrev machine : Host
machine = record { which_nmcli = true; run = answer; is_dir = λ path. true; read_text = file }

scan-rows_example :
    InOrder stronger (scan machine (codes "wlan0"))
    × ((ssid : Text)
        → AtMostOne (has_ssid ssid) (scan machine (codes "wlan0"))
          × (first (has_ssid ssid) (scan machine (codes "wlan0"))
              ≡ first (has_ssid ssid) (rows (splitlines (unlines (map printed entries))))))
scan-rows_example = scan-rows machine (codes "wlan0") (unlines (map printed entries)) [] refl refl

scan-printed_case :
    first (has_ssid (codes "dock")) (scan machine (codes "wlan0"))
    ≡ first (has_ssid (codes "dock")) (named entries)
scan-printed_case = scan-printed machine (codes "wlan0") [] entries (codes "dock") refl refl (
  ((refl, (refl, (refl, (refl, tt)))), refl),
  (((refl, (refl, (refl, (refl, tt)))), refl), (((refl, (refl, (refl, (refl, tt)))), refl), tt)),
)

scan_mast_first :
    scan machine (codes "wlan0")
    ≡ record { ssid = codes "mast"; signal = pos 75; security = codes "WPA2"; in_use = false }
      ∷ record { ssid = codes "dock"; signal = pos 40; security = codes "WPA2"; in_use = false }
      ∷ []
unfolding scan ais_server.Prelude.Number.int_decimal
scan_mast_first = refl

scan_loop_colon_case :
    ais_server.Wifi.scan_loop []
      (colon_line (codes "*") (codes "my") (codes "net") (codes "70") (codes "WPA2") ∷ [])
    ≡ record { ssid = codes "my\\"; signal = pos 0; security = codes "70"; in_use = true } ∷ []
unfolding ais_server.Prelude.Number.int_decimal
scan_loop_colon_case =
    scan_loop_colon (codes "*") (codes "my") (codes "net") (codes "70") (codes "WPA2")
      (refl, (refl, (refl, (refl, (refl, tt)))))

ethernet-device_example :
    ethernet machine (codes "eth0") ≡ filled (read_sysfs machine (unknown (codes "eth0"))) wired
ethernet-device_example = ethernet-device machine (codes "eth0") [] wired refl refl (record {
  number_plain = refl;
  word_plain = (refl, refl);
  address_plain = refl;
  lines_plain = (refl, (refl, (refl, (refl, tt))));
})

speed_read : (ethernet machine (codes "eth0")).speed_mbps ≡ 1000
unfolding ethernet ais_server.Prelude.Number.int_decimal
speed_read = refl

-- NetworkManager's state for a link that it did not set up itself.
externally : state_word (codes "100 (connected (externally))") ≡ codes "connected (externally"
unfolding state_word
externally = refl

not_found :
    connect
      (record machine { run = λ args timeout. file_not_found })
      (codes "dock")
      none
      (codes "wlan0")
    ≡ (false, codes "nmcli not found")
unfolding connect
not_found = refl
