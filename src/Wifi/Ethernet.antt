-- ===== src/Wifi/Ethernet.antt =====
-- ais_server/wifi.py: the status of the wired link, from the files under /sys and from `nmcli`.
use ais_server.Prelude.{
  ℕ, Bool, true, false, ◌&&◌, ◌||◌, Option, none, some, List, [], ◌∷◌, ◌++◌, if◌then◌else◌, nat_eqb,
}
use ais_server.Prelude.Text.{
  Text, codes, text_eqb, contains, is_space, strip, rstrip, split_once, ends_with, splitlines,
  text_or,
}
use ais_server.Prelude.Int.{ℤ, clip}
use ais_server.Prelude.Number.{int_decimal}
use ais_server.Wifi.{Host, run_command, is_zero, is_empty, show_args, int_or_zero}

pub record Ethernet : Type 0 where
  pub interface : Text
  pub available : Bool
  pub link : Bool
  pub connected : Bool
  pub state : Text
  pub speed_mbps : ℕ
  pub ip : Text
  pub gateway : Text
  pub mac : Text
  pub connection : Text

abbrev pub stripped : Option Text → Text
stripped none = []
stripped (some s) = strip is_space s

-- `_sysfs_read`
unfoldable pub sysfs_read : Host → Text → Text
sysfs_read h path = stripped (h.read_text path)

abbrev pub sys_root : Text → Text
sys_root interface = codes "/sys/class/net/" ++ interface

abbrev pub unknown : Text → Ethernet
unknown interface = record {
  interface = interface;
  available = false;
  link = false;
  connected = false;
  state = [];
  speed_mbps = 0;
  ip = [];
  gateway = [];
  mac = [];
  connection = [];
}

-- The first part: what the kernel says.
unfoldable pub read_sysfs : Host → Ethernet → Ethernet
unfolding sysfs_read
read_sysfs h info =
    let root = sys_root info.interface in
    if h.is_dir root
    then record info {
      available = true;
      mac = sysfs_read h (root ++ codes "/address");
      link = text_eqb (sysfs_read h (root ++ codes "/carrier")) (codes "1");
      speed_mbps =
          clip (
            int_or_zero
              (int_decimal (text_or (sysfs_read h (root ++ codes "/speed")) (codes "0"))));
    }
    else info

-- What stands behind the first parenthesis.
abbrev pub behind : Text × Option Text → Text
behind (head, none) = []
behind (head, some s) = s

unfoldable pub state_word : Text → Text
state_word v =
    if contains b'(' v && contains b')' v
    then strip is_space (rstrip (λ c. nat_eqb c b')') (behind (split_once b'(' v)))
    else strip is_space v

abbrev pub unless_dashes : Text → Text
unless_dashes v = if is_empty v || text_eqb v (codes "--") then [] else v

abbrev pub read_line : Ethernet → Text × Option Text → Ethernet
read_line info (k, none) = info
read_line info (k, some v) =
    if ends_with k (codes "GENERAL.STATE")
    then record info {
      state = state_word v;
      connected = text_eqb (state_word v) (codes "connected");
    }
    else if ends_with k (codes "GENERAL.CONNECTION")
    then record info { connection = unless_dashes v }
    else if ends_with k (codes "IP4.ADDRESS[1]")
    then record info { ip = (split_once b'/' v).0 }
    else if ends_with k (codes "IP4.GATEWAY")
    then record info { gateway = unless_dashes v }
    else info

unfoldable pub read_lines : Ethernet → List Text → Ethernet
unfolding state_word
read_lines info [] = info
read_lines info (line ∷ lines) = read_lines (read_line info (split_once b':' line)) lines

-- The second part: what NetworkManager says.
abbrev pub read_nmcli : Ethernet → ℤ × Text × Text → Ethernet
read_nmcli info (rc, out, err) = if is_zero rc then read_lines info (splitlines out) else info

unfoldable pub ethernet : Host → Text → Ethernet
unfolding read_sysfs run_command read_lines splitlines
ethernet h interface =
    let info = read_sysfs h (unknown interface) in
    if h.which_nmcli then read_nmcli info (run_command h (show_args interface) 15) else info
