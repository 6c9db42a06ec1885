-- ===== src/Wifi/Link.antt =====
-- ais_server/wifi.py: what `ethernet` makes of the answers of `nmcli` about the wired link.
use ais_server.Prelude.{
  ℕ, ◌≡◌, refl, ap, ◌∙◌, Bool, true, false, List, [], ◌∷◌, ◌++◌, arith, nat_eqb, all, All,
}
use ais_server.Prelude.Text.{Text, codes, text_eqb, contains, is_space, strip, rstrip, split_once}
use ais_server.Prelude.Int.{pos}
use ais_server.Prelude.Lines.{IsLine, unlines, splitlines-unlines}
use ais_server.Nmea.Structure.{split_once_head}
use ais_server.Wifi.{Host, exited, run_command, show_args}
use ais_server.Wifi.Ethernet.{
  Ethernet, unknown, read_sysfs, behind, state_word, unless_dashes, read_lines, ethernet,
}

all-append_last : (p : ℕ → Bool) (s : Text) (c : ℕ) → p c ≡ true → all p (s ++ c ∷ []) ≡ all p s
all-append_last p [] c h = rw h refl
all-append_last p (d ∷ s) c h = rw (all-append_last p s c h) refl

rstrip-append_last :
    (p : ℕ → Bool) (s : Text) (c : ℕ) → p c ≡ true → rstrip p (s ++ c ∷ []) ≡ rstrip p s
rstrip-append_last p [] c h = rw h refl
rstrip-append_last p (d ∷ s) c h = rw (all-append_last p s c h, rstrip-append_last p s c h) refl

contains_behind : (c : ℕ) (s t : Text) → contains c t ≡ true → contains c (s ++ t) ≡ true
contains_behind c [] t h = h
contains_behind c (d ∷ s) t h = rw (contains_behind c s t h) (ground arith)

split_once_rest :
    (sep : ℕ) (s rest : Text)
    → contains sep s ≡ false
    → behind (split_once sep (s ++ sep ∷ rest)) ≡ rest
split_once_rest sep [] rest h = ground arith
split_once_rest sep (c ∷ s) rest h = ground (arith, split_once_rest sep s rest)

-- The state as `nmcli` prints it: a number and a word in parentheses.
abbrev pub state_text : Text → Text → Text
state_text number word = number ++ b'(' ∷ (word ++ b')' ∷ [])

-- A word without white space around it and without parentheses at its end.
abbrev pub IsWord : Text → Type 0
IsWord w = (strip is_space w ≡ w) × (rstrip (λ c. nat_eqb c b')') w ≡ w)

state_word-state_text :
    (number word : Text)
    → contains b'(' number ≡ false
    → IsWord word
    → state_word (state_text number word) ≡ word
unfolding state_word
state_word-state_text number word h w =
    let tail = word ++ b')' ∷ [] in
    let opening = contains_behind b'(' number (b'(' ∷ tail) refl in
    let closing : contains b')' (number ++ b'(' ∷ tail) ≡ true =
      contains_behind b')' number (b'(' ∷ tail) (contains_behind b')' word (b')' ∷ []) refl) in
    rw (opening, closing)
      (ap (λ s. strip is_space (rstrip (λ c. nat_eqb c b')') s))
          (split_once_rest b'(' number tail h)
        ∙ ap (strip is_space) (rstrip-append_last (λ c. nat_eqb c b')') word b')' refl ∙ w.1)
        ∙ w.0)

-- The answer of `nmcli` about one device.
pub record Device : Type 0 where
  pub number : Text
  pub word : Text
  pub connection : Text
  pub address : Text
  pub prefix : Text
  pub gateway : Text

abbrev pub device_lines : Device → List Text
device_lines d =
    (codes "GENERAL.STATE:" ++ state_text d.number d.word)
    ∷ (codes "GENERAL.CONNECTION:" ++ d.connection)
    ∷ (codes "IP4.ADDRESS[1]:" ++ (d.address ++ b'/' ∷ d.prefix))
    ∷ (codes "IP4.GATEWAY:" ++ d.gateway)
    ∷ []

pub record IsPlain (d : Device) : Type 0 where
  pub number_plain : contains b'(' d.number ≡ false
  pub word_plain : IsWord d.word
  pub address_plain : contains b'/' d.address ≡ false
  pub lines_plain : All IsLine (device_lines d)

-- The status with what NetworkManager says of the device filled in.
abbrev pub filled : Ethernet → Device → Ethernet
filled info d = record info {
  state = d.word;
  connected = text_eqb d.word (codes "connected");
  connection = unless_dashes d.connection;
  ip = d.address;
  gateway = unless_dashes d.gateway;
}

read_lines-device :
    (info : Ethernet) (d : Device) → IsPlain d → read_lines info (device_lines d) ≡ filled info d
unfolding read_lines
read_lines-device info d q =
    rw
      (
        state_word-state_text d.number d.word q.number_plain q.word_plain,
        split_once_head b'/' d.address d.prefix q.address_plain,
      )
      refl

-- If `nmcli` is there and prints the state, the connection, the address with its prefix and the gateway
-- of a device, and if the number of the state has no opening parenthesis, its word has no white space
-- around it and no closing parenthesis at its end, the address has no slash and no field an end of a
-- line: the status has the word of the state, is connected exactly if the word is `connected`, has the
-- address without the prefix, and has the connection and the gateway, which are empty for two dashes;
-- the other fields are those that the kernel's files give.
pub ethernet-device :
    (h : Host) (interface err : Text) (d : Device)
    → h.which_nmcli ≡ true
    → h.run (show_args interface) 15 ≡ exited (pos 0) (unlines (device_lines d)) err
    → IsPlain d
    → ethernet h interface ≡ filled (read_sysfs h (unknown interface)) d
unfolding ethernet run_command
ethernet-device h interface err d there answer q =
    rw (there, answer)
      (ap (read_lines (read_sysfs h (unknown interface)))
          (splitlines-unlines (device_lines d) q.lines_plain)
        ∙ read_lines-device (read_sysfs h (unknown interface)) d q)
