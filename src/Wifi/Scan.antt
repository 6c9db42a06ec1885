-- ===== src/Wifi/Scan.antt =====
-- ais_server/wifi.py: the list of networks against the lines of `nmcli`.
use ais_server.Prelude.{
  ◌≡◌, ◌∙◌, inl, inr, Bool, true, false, ◌&&◌, ◌||◌, Option, none, some, List, [], ◌∷◌, arith,
  if◌then◌else◌, Bool-cases, All,
}
use ais_server.Prelude.Text.{Text, text_eqb, text_eqb_iff, split, splitlines}
use ais_server.Prelude.Int.{pos, int_ltb_asym, int_le_trans}
use ais_server.Prelude.Sort.{
  InOrder, first, AtMostOne, first-sort_by, sort_by-AtMostOne, sort_by-InOrder,
}
use ais_server.Wifi.{
  Host, exited, run_command, Network, network_of, is_seen, is_empty, unless_seen, scan_next,
  scan_loop, stronger, list_args, scan,
}

abbrev pub has_ssid : Text → Network → Bool
has_ssid ssid n = text_eqb n.ssid ssid

-- The networks of all lines that have four fields and a name.
abbrev pub add_named : Option Network → List Network → List Network
add_named none rest = rest
add_named (some n) rest = if is_empty n.ssid then rest else n ∷ rest

unfoldable pub rows : List Text → List Network
rows [] = []
rows (line ∷ lines) = add_named (network_of (split b':' line)) (rows lines)

module _ (ssid : Text) where
  first-scan_next :
      (seen : List Text) (rest : List Text → List Network) (all : List Network) (o : Option Network)
      → ((s : List Text)
          → first (has_ssid ssid) (rest s)
            ≡ (if is_seen ssid s then none else first (has_ssid ssid) all))
      → first (has_ssid ssid) (scan_next seen rest (unless_seen seen o))
        ≡ (if is_seen ssid seen then none else first (has_ssid ssid) (add_named o all))
  first-scan_next seen rest all none h = h seen
  first-scan_next seen rest all (some n) h =
      ground (arith, h seen, h (n.ssid ∷ seen), text_eqb_iff n.ssid ssid)

  first-scan_loop :
      (lines seen : List Text)
      → first (has_ssid ssid) (scan_loop seen lines)
        ≡ (if is_seen ssid seen then none else first (has_ssid ssid) (rows lines))
  unfolding scan_loop rows
  first-scan_loop [] seen = ground arith
  first-scan_loop (line ∷ lines) seen =
      first-scan_next seen (λ s. scan_loop s lines) (rows lines) (network_of (split b':' line))
        (first-scan_loop lines)

abbrev Unseen : List Text → Network → Type 0
Unseen seen n = is_seen n.ssid seen ≡ false

Unseen-tail :
    (ssid : Text) (seen : List Text) (ns : List Network)
    → All (Unseen (ssid ∷ seen)) ns
    → All (Unseen seen) ns
Unseen-tail ssid seen [] a = tt
Unseen-tail ssid seen (n ∷ ns) a = (ground (arith, a.0), Unseen-tail ssid seen ns a.1)

next-Unseen :
    (seen : List Text) (rest : List Text → List Network) (o : Option Network)
    → ((s : List Text) → All (Unseen s) (rest s))
    → All (Unseen seen) (scan_next seen rest (unless_seen seen o))
next-Unseen seen rest none h = h seen
next-Unseen seen rest (some n) h = elim (Bool-cases (is_empty n.ssid || is_seen n.ssid seen)) [
  | inl skipped ↦ rw skipped (h seen)
  | inr fresh ↦
      rw fresh
        (ground (arith, fresh), Unseen-tail n.ssid seen (rest (n.ssid ∷ seen)) (h (n.ssid ∷ seen)))
]

scan_loop-Unseen : (lines seen : List Text) → All (Unseen seen) (scan_loop seen lines)
unfolding scan_loop
scan_loop-Unseen [] seen = tt
scan_loop-Unseen (line ∷ lines) seen =
    next-Unseen seen (λ s. scan_loop s lines) (network_of (split b':' line))
      (scan_loop-Unseen lines)

module _ (ssid : Text) where
  apart :
      (n : Network) (seen : List Text) (ns : List Network)
      → All (Unseen (n.ssid ∷ seen)) ns
      → All (λ m. (has_ssid ssid n && has_ssid ssid m) ≡ false) ns
  apart n seen [] a = tt
  apart n seen (m ∷ ns) a = (
    ground (
      arith,
      a.0,
      text_eqb_iff n.ssid ssid,
      text_eqb_iff m.ssid ssid,
      text_eqb_iff n.ssid m.ssid,
    ),
    apart n seen ns a.1,
  )

  next-AtMostOne :
      (seen : List Text) (rest : List Text → List Network) (o : Option Network)
      → ((s : List Text) → All (Unseen s) (rest s))
      → ((s : List Text) → AtMostOne (has_ssid ssid) (rest s))
      → AtMostOne (has_ssid ssid) (scan_next seen rest (unless_seen seen o))
  next-AtMostOne seen rest none u h = h seen
  next-AtMostOne seen rest (some n) u h =
      elim (Bool-cases (is_empty n.ssid || is_seen n.ssid seen)) [
        | inl skipped ↦ rw skipped (h seen)
        | inr fresh ↦
            rw fresh (apart n seen (rest (n.ssid ∷ seen)) (u (n.ssid ∷ seen)), h (n.ssid ∷ seen))
      ]

  scan_loop-AtMostOne : (lines seen : List Text) → AtMostOne (has_ssid ssid) (scan_loop seen lines)
  unfolding scan_loop
  scan_loop-AtMostOne [] seen = tt
  scan_loop-AtMostOne (line ∷ lines) seen =
      next-AtMostOne seen (λ s. scan_loop s lines) (network_of (split b':' line))
        (scan_loop-Unseen lines) (scan_loop-AtMostOne lines)

-- If `nmcli` is there and its list ends with exit code 0: no network of the list comes after one with
-- a weaker signal; no two have the same name; and under each name the list has what the first line of
-- the output with that name says, or nothing if no line with four fields has it.
pub scan-rows :
    (h : Host) (interface out err : Text)
    → h.which_nmcli ≡ true
    → h.run (list_args interface) 15 ≡ exited (pos 0) out err
    → InOrder stronger (scan h interface)
      × ((ssid : Text)
          → AtMostOne (has_ssid ssid) (scan h interface)
            × (first (has_ssid ssid) (scan h interface)
                ≡ first (has_ssid ssid) (rows (splitlines out))))
unfolding scan run_command
scan-rows h interface out err there answer =
    rw (there, answer)
      (
        sort_by-InOrder stronger (λ a b e. int_ltb_asym b.signal a.signal e)
            (λ a b c p q. int_le_trans c.signal b.signal a.signal q p)
            (scan_loop [] (splitlines out)),
        λ ssid.
            let once = scan_loop-AtMostOne ssid (splitlines out) [] in
            (
              sort_by-AtMostOne (has_ssid ssid) stronger (scan_loop [] (splitlines out)) once,
              first-sort_by (has_ssid ssid) stronger (scan_loop [] (splitlines out)) once
                  ∙ first-scan_loop ssid (splitlines out) [],
            ),
      )
