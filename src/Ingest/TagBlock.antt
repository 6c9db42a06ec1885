-- ===== src/Ingest/TagBlock.antt =====
-- ais_server/ingest.py: `_strip_tag_block`, which takes the tag-block off a line.
use ais_server.Prelude.{
  ℕ, ◌≡◌, refl, ap, ◌∙◌, false, Option, none, some, List, [], ◌∷◌, ◌++◌, arith, nat_eqb,
  if◌then◌else◌, drop, All,
}
use ais_server.Prelude.Text.{
  Text, codes, contains, starts_with, is_space, strip, split_once, rsplit_once, split,
}
use ais_server.Nmea.Structure.{join, Lacks, split-join, contains-append, contains-join}
use ais_server.Nmea.Checksum.{rsplit_once-append}

-- The backslash.
abbrev pub mark : ℕ
mark = 92

-- `text or None`
abbrev pub or_none : Text → Option Text
or_none [] = none
or_none (c ∷ s) = some (c ∷ s)

-- The source id: the first field that starts with `s:`.
abbrev pub source_of : List Text → Option Text
source_of [] = none
source_of (f ∷ fs) =
    let rest = source_of fs in
    if starts_with f (codes "s:") then or_none (strip is_space (drop 2 f)) else rest

-- The block without the checksum behind its last `*`, if it has one.
abbrev pub without_checksum : Text → Option (Text × Text) → Text
without_checksum block none = block
without_checksum block (some (body, _)) = body

abbrev pub read_block : Text → Text × Option Text → Text × Option Text
read_block line (block, none) = (line, none)
read_block line (block, some body) =
    (body, source_of (split b',' (without_checksum block (rsplit_once b'*' block))))

-- The sentence behind the tag-block and the source id, if there is one.
unfoldable pub strip_tag_block : Text → Text × Option Text
strip_tag_block [] = ([], none)
strip_tag_block (c ∷ line) =
    if nat_eqb c mark then read_block (c ∷ line) (split_once mark line) else (c ∷ line, none)

split_once_both :
    (sep : ℕ) (s rest : Text)
    → contains sep s ≡ false
    → split_once sep (s ++ sep ∷ rest) ≡ (s, some rest)
split_once_both sep [] rest h = ground arith
split_once_both sep (c ∷ s) rest h =
    let cs = split_once_both sep s rest (ground arith) in rw cs (ground arith)

-- No field starts with `s:`.
abbrev pub NoSource : List Text → Type 0
NoSource fs = All (λ f. starts_with f (codes "s:") ≡ false) fs

source_of_first :
    (before after : List Text) (id : Text)
    → NoSource before
    → source_of (before ++ (b's' ∷ b':' ∷ id) ∷ after) ≡ or_none (strip is_space id)
source_of_first [] after id n = refl
source_of_first (f ∷ before) after id n = rw n.0 (source_of_first before after id n.1)

-- A tag-block as a gateway writes it: fields, a `*` and a checksum, between backslashes.
abbrev pub tagged : List Text → Text → Text → Text
tagged fields checksum sentence = mark ∷ (join b',' fields ++ b'*' ∷ checksum) ++ mark ∷ sentence

-- The line of a gateway gives back its sentence, and the source id of the first `s:` field, when
-- the fields hold no comma, star or backslash and the checksum no star or backslash.
pub strip_tag_block-tagged :
    (first : Text) (more before after : List Text) (id checksum sentence : Text)
    → first ∷ more ≡ before ++ (b's' ∷ b':' ∷ id) ∷ after
    → NoSource before
    → Lacks b',' (first ∷ more)
    → Lacks mark (first ∷ more)
    → contains b'*' checksum ≡ false
    → contains mark checksum ≡ false
    → strip_tag_block (tagged (first ∷ more) checksum sentence)
      ≡ (sentence, or_none (strip is_space id))
unfolding strip_tag_block
strip_tag_block-tagged first more before after id checksum sentence e n commas marks stars no_mark =
    let block = join b',' (first ∷ more) ++ b'*' ∷ checksum in
    let block_ok =
      contains-append mark (join b',' (first ∷ more)) (b'*' ∷ checksum)
        (contains-join mark b',' (first ∷ more) refl marks) no_mark in
    let line = tagged (first ∷ more) checksum sentence in
    ap (read_block line) (split_once_both mark block sentence block_ok)
    ∙ ap (λ c. (sentence, source_of (split b',' (without_checksum block c))))
        (rsplit_once-append b'*' (join b',' (first ∷ more)) checksum stars)
    ∙ ap (λ fs. (sentence, source_of fs)) (split-join b',' first more commas)
    ∙ ap (λ fs. (sentence, source_of fs)) e
    ∙ ap (λ s. (sentence, s)) (source_of_first before after id n)

-- A line that does not start with a backslash is left as it is.
pub strip_tag_block_plain :
    (c : ℕ) (line : Text) → nat_eqb c mark ≡ false → strip_tag_block (c ∷ line) ≡ (c ∷ line, none)
unfolding strip_tag_block
strip_tag_block_plain c line h = rw h refl
