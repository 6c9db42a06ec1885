-- ===== src/Wifi.antt =====
-- ais_server/wifi.py: what the module reads from the answers of `nmcli` and of the files under
-- /sys. Running a command and reading a file are operations of a `Host`.
pub mod Ethernet
pub mod Scan
pub mod Link
pub mod Printed
mod Tests
use ais_server.Prelude.{
  ℕ, zero, suc, Bool, true, false, ◌||◌, not, Option, none, some, List, [], ◌∷◌, ◌++◌,
  if◌then◌else◌,
}
use ais_server.Prelude.Text.{
  Text, codes, text_eqb, is_space, strip, split_once, split, ends_with, splitlines, text_or,
}
use ais_server.Prelude.Int.{ℤ, pos, negsuc, int_ltb}
use ais_server.Prelude.Number.{int_decimal}
use ais_server.Prelude.Sort.{sort_by}

-- What comes of `subprocess.run`: an exit code with the two outputs, or one of the two exceptions.
pub data Outcome : Type 0 where
  exited : ℤ → Text → Text → Outcome
  file_not_found : Outcome
  timeout_expired : Outcome

-- The machine: `shutil.which("nmcli")`, `subprocess.run` with its time limit in seconds,
-- `Path.is_dir`, and `Path.read_text`, which has no result if it raises an `OSError` or `ValueError`.
pub record Host : Type 0 where
  pub which_nmcli : Bool
  pub run : List Text → ℕ → Outcome
  pub is_dir : Text → Bool
  pub read_text : Text → Option Text

-- The exit code, the output and the errors, by what came of the command.
abbrev pub proc_of : List Text → Outcome → ℤ × Text × Text
proc_of args (exited returncode stdout stderr) = (returncode, stdout, stderr)
proc_of [] file_not_found = (pos 127, [], codes " not found")
proc_of (program ∷ args) file_not_found = (pos 127, [], program ++ codes " not found")
proc_of args timeout_expired = (pos 124, [], codes "timeout")

unfoldable pub run_command : Host → List Text → ℕ → ℤ × Text × Text
run_command h args timeout = proc_of args (h.run args timeout)

abbrev pub is_zero : ℤ → Bool
is_zero (pos zero) = true
is_zero (pos (suc n)) = false
is_zero (negsuc n) = false

pub record Network : Type 0 where
  pub ssid : Text
  pub signal : ℤ
  pub security : Text
  pub in_use : Bool

abbrev pub int_or_zero : Option ℤ → ℤ
int_or_zero none = pos 0
int_or_zero (some i) = i

-- `int(text) if text else 0`, and 0 for a `ValueError`
abbrev pub signal_of : Text → ℤ
signal_of [] = pos 0
signal_of (c ∷ s) = int_or_zero (int_decimal (c ∷ s))

-- A line with fewer than four fields is passed over.
abbrev pub network_of : List Text → Option Network
network_of (in_use ∷ ssid ∷ signal ∷ security ∷ more) = some (record {
  ssid = ssid;
  signal = signal_of signal;
  security = text_or security (codes "Open");
  in_use = text_eqb in_use (codes "*");
})
network_of _ = none

-- `ssid in seen`
abbrev pub is_seen : Text → List Text → Bool
is_seen ssid [] = false
is_seen ssid (s ∷ seen) = text_eqb s ssid || is_seen ssid seen

abbrev pub is_empty : Text → Bool
is_empty [] = true
is_empty (c ∷ s) = false

abbrev pub unless_seen : List Text → Option Network → Option Network
unless_seen seen none = none
unless_seen seen (some n) = if is_empty n.ssid || is_seen n.ssid seen then none else some n

-- What the loop adds for a line, and the rest of the loop.
abbrev pub scan_next : List Text → (List Text → List Network) → Option Network → List Network
scan_next seen rest none = rest seen
scan_next seen rest (some n) = n ∷ rest (n.ssid ∷ seen)

unfoldable pub scan_loop : List Text → List Text → List Network
scan_loop seen [] = []
scan_loop seen (line ∷ lines) =
    scan_next seen (λ s. scan_loop s lines) (unless_seen seen (network_of (split b':' line)))

-- The order of `reverse=True`, which keeps equals in their order.
abbrev pub stronger : Network → Network → Bool
stronger a b = int_ltb b.signal a.signal

abbrev pub list_args : Text → List Text
list_args interface =
    codes "nmcli"
    ∷ codes "-t"
    ∷ codes "-f"
    ∷ codes "IN-USE,SSID,SIGNAL,SECURITY"
    ∷ codes "device"
    ∷ codes "wifi"
    ∷ codes "list"
    ∷ codes "ifname"
    ∷ interface
    ∷ []

abbrev pub listed : ℤ × Text × Text → List Network
listed (rc, out, err) = if is_zero rc then sort_by stronger (scan_loop [] (splitlines out)) else []

-- The rescan before the list is a command whose result is not read.
unfoldable pub scan : Host → Text → List Network
unfolding run_command scan_loop splitlines sort_by
scan h interface = if h.which_nmcli then listed (run_command h (list_args interface) 15) else []

pub record Current : Type 0 where
  pub interface : Text
  pub state : Text
  pub ssid : Text
  pub ip : Text
  pub gateway : Text

abbrev pub show_args : Text → List Text
show_args interface =
    codes "nmcli"
    ∷ codes "-t"
    ∷ codes "-f"
    ∷ codes "GENERAL.STATE,GENERAL.CONNECTION,IP4.ADDRESS,IP4.GATEWAY"
    ∷ codes "device"
    ∷ codes "show"
    ∷ interface
    ∷ []

-- One line of the answer: nothing without a colon.
abbrev pub read_current : Current → Text × Option Text → Current
read_current info (k, none) = info
read_current info (k, some v) =
    if ends_with k (codes "GENERAL.STATE")
    then record info { state = v }
    else if ends_with k (codes "GENERAL.CONNECTION")
    then record info { ssid = v }
    else if ends_with k (codes "IP4.ADDRESS[1]")
    then record info { ip = (split_once b'/' v).0 }
    else if ends_with k (codes "IP4.GATEWAY")
    then record info { gateway = v }
    else info

unfoldable pub current_loop : Current → List Text → Current
current_loop info [] = info
current_loop info (line ∷ lines) = current_loop (read_current info (split_once b':' line)) lines

abbrev pub shown : Text → ℤ × Text × Text → Option Current
shown interface (rc, out, err) =
    let info : Current = record {
      interface = interface;
      state = [];
      ssid = [];
      ip = [];
      gateway = [];
    } in
    if is_zero rc then some (current_loop info (splitlines out)) else none

unfoldable pub current : Host → Text → Option Current
unfolding run_command current_loop splitlines
current h interface =
    if h.which_nmcli then shown interface (run_command h (show_args interface) 15) else none

abbrev pub given : Option Text → List Text
given none = []
given (some []) = []
given (some (c ∷ s)) = codes "password" ∷ (c ∷ s) ∷ []

abbrev pub connect_args : Text → Option Text → Text → List Text
connect_args ssid password interface =
    codes "nmcli"
    ∷ codes "device"
    ∷ codes "wifi"
    ∷ codes "connect"
    ∷ ssid
    ∷ codes "ifname"
    ∷ interface
    ∷ given password

abbrev pub connected : ℤ × Text × Text → Bool × Text
connected (rc, out, err) =
    if is_zero rc
    then (true, strip is_space (text_or out (codes "connected")))
    else (false, strip is_space (text_or err (text_or out (codes "connect failed"))))

unfoldable pub connect : Host → Text → Option Text → Text → Bool × Text
unfolding run_command
connect h ssid password interface =
    if h.which_nmcli
    then connected (run_command h (connect_args ssid password interface) 30)
    else (false, codes "nmcli not available")

abbrev pub forgotten : ℤ × Text × Text → Bool × Text
forgotten (rc, out, err) =
    if is_zero rc
    then (true, codes "forgotten")
    else (false, strip is_space (text_or err (text_or out (codes "not found"))))

unfoldable pub forget : Host → Text → Bool × Text
unfolding run_command
forget h ssid =
    if h.which_nmcli
    then forgotten
        (run_command h (codes "nmcli" ∷ codes "connection" ∷ codes "delete" ∷ ssid ∷ []) 15)
    else (false, codes "nmcli not available")

-- The name on a line of a wireless connection.
abbrev pub saved_name : List Text → Option Text
saved_name (name ∷ type ∷ more) =
    if text_eqb type (codes "802-11-wireless") then some name else none
saved_name _ = none

unfoldable pub saved_loop : List Text → List Text
saved_loop [] = []
saved_loop (line ∷ lines) =
    let rest = saved_loop lines in
    elim (saved_name (split b':' line)) [ none ↦ rest | some ssid ↦ ssid ∷ rest ]

abbrev pub saved_in : ℤ × Text × Text → List Text
saved_in (rc, out, err) = if is_zero rc then saved_loop (splitlines out) else []

unfoldable pub saved : Host → List Text
unfolding run_command saved_loop splitlines
saved h =
    if h.which_nmcli
    then saved_in (
        run_command h
          (codes "nmcli"
            ∷ codes "-t"
            ∷ codes "-f"
            ∷ codes "NAME,TYPE"
            ∷ codes "connection"
            ∷ codes "show"
            ∷ [])
          15)
    else []
