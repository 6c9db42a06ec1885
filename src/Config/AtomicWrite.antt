-- ===== src/Config/AtomicWrite.antt =====
-- ais_server/config.py: `_atomic_write_text`, with every state of the disk that it passes through.
use ais_server.Prelude.{
  ℕ, ◌≡◌, refl, ◌∙◌, inl, ◌⊎◌, Bool, true, false, Option, none, some, List, [], ◌∷◌, ◌++◌,
  if◌then◌else◌, ◌==◌, ==_refl, take, All, All-append,
}
use ais_server.Prelude.Text.{Text, text_eq}
use ais_server.Prelude.Dict
use ais_server.Prelude.Dict.{Dict}

pub data Error : Type 0 where
  permission_error : Error
  other_error : Error

-- The contents of the files, by path.
abbrev pub Disk : Type 0
Disk = Dict Text Text

-- What fails of one call: the directory, the temporary file, the writing after some characters, the
-- replacement, and the removal of the temporary file. An `OSError` of `fsync` or `chmod` is passed
-- over and changes no contents.
pub record Faults : Type 0 where
  pub mkdir : Option Error
  pub mkstemp : Option Error
  pub write : Option (ℕ × Error)
  pub replace : Option Error
  pub unlink : Bool

-- The states while a text is written to a file that holds the part before it.
unfoldable pub writing : Disk → Text → Text → Text → List Disk
writing disk tmp before [] = []
writing disk tmp before (c ∷ s) =
    Dict.put disk tmp (before ++ c ∷ []) ∷ writing disk tmp (before ++ c ∷ []) s

-- The states passed, the state at the end, and the exception.
abbrev pub Written : Type 0
Written = List Disk × Disk × Option Error

abbrev pub clean_up : Faults → List Disk → Disk → Text → Error → Written
clean_up f passed disk tmp e =
    (passed ++ disk ∷ [], if f.unlink then disk else Dict.remove disk tmp, some e)

abbrev pub replace_file : Faults → List Disk → Disk → Text → Text → Text → Option Error → Written
replace_file f passed disk path tmp content (some e) = clean_up f passed disk tmp e
replace_file f passed disk path tmp content none =
    (passed ++ disk ∷ [], Dict.put (Dict.remove disk tmp) path content, none)

abbrev pub write_file : Faults → Disk → Text → Text → Text → Option (ℕ × Error) → Written
write_file f disk path tmp content (some (n, e)) =
    let created = Dict.put disk tmp [] in
    clean_up f (created ∷ writing created tmp [] (take n content))
      (Dict.put created tmp (take n content)) tmp e
write_file f disk path tmp content none =
    let created = Dict.put disk tmp [] in
    replace_file f (created ∷ writing created tmp [] content) (Dict.put created tmp content) path
      tmp content f.replace

abbrev pub make_tmp : Faults → Disk → Text → Text → Text → Option Error → Written
make_tmp f disk path tmp content (some e) = ([], disk, some e)
make_tmp f disk path tmp content none = write_file f disk path tmp content f.write

abbrev pub make_dir : Faults → Disk → Text → Text → Text → Option Error → Written
make_dir f disk path tmp content (some e) = ([], disk, some e)
make_dir f disk path tmp content none = make_tmp f disk path tmp content f.mkstemp

-- `tmp` is the name that `mkstemp` makes.
unfoldable pub atomic_write_text : Faults → Disk → Text → Text → Text → Written
unfolding writing
atomic_write_text f disk path tmp content = make_dir f disk path tmp content f.mkdir

-- The file has its old contents or the new ones.
abbrev pub OldOrNew : Disk → Text → Text → Disk → Type 0
OldOrNew old path content disk =
    (Dict.get disk path ≡ Dict.get old path) ⊎ (Dict.get disk path ≡ some content)

module _ (old : Disk) (path tmp content : Text) (other : (tmp == path) ≡ false) where
  -- A state in which only the temporary file was touched.
  abbrev Untouched : Disk → Type 0
  Untouched disk = Dict.get disk path ≡ Dict.get old path

  put-Untouched : (disk : Disk) (s : Text) → Untouched disk → Untouched (Dict.put disk tmp s)
  put-Untouched disk s u = Dict.get-put_ne disk tmp path s other ∙ u

  remove-Untouched : (disk : Disk) → Untouched disk → Untouched (Dict.remove disk tmp)
  remove-Untouched disk u = Dict.get-remove_ne disk tmp path other ∙ u

  as_old : (disks : List Disk) → All Untouched disks → All (OldOrNew old path content) disks
  as_old [] a = tt
  as_old (d ∷ ds) a = (inl a.0, as_old ds a.1)

  writing-Untouched :
      (disk : Disk) (before s : Text) → Untouched disk → All Untouched (writing disk tmp before s)
  unfolding writing
  writing-Untouched disk before [] u = tt
  writing-Untouched disk before (c ∷ s) u =
      (put-Untouched disk (before ++ c ∷ []) u, writing-Untouched disk (before ++ c ∷ []) s u)

  -- What a write leaves, by whether it raised.
  abbrev Ends : Bool → Disk → Option Error → Type 0
  Ends unlink disk none = Dict.get disk path ≡ some content
  Ends unlink disk (some e) =
      (Dict.get disk path ≡ Dict.get old path)
      × (unlink ≡ false → Dict.get old tmp ≡ none → Dict.get disk tmp ≡ none)

  abbrev IsAtomic : Faults → Written → Type 0
  IsAtomic f (passed, disk, e) = All (OldOrNew old path content) passed × Ends f.unlink disk e

  clean_up-IsAtomic :
      (f : Faults) (passed : List Disk) (disk : Disk) (e : Error)
      → All Untouched passed
      → Untouched disk
      → IsAtomic f (clean_up f passed disk tmp e)
  clean_up-IsAtomic f passed disk e a u = (
    as_old (passed ++ disk ∷ []) (All-append Untouched passed (disk ∷ []) a (u, tt)),
    ended f.unlink,
  )
    where
      ended : (fails : Bool) → Ends fails (if fails then disk else Dict.remove disk tmp) (some e)
      ended true = (u, λ h. absurd (cc h))
      ended false =
          (remove-Untouched disk u, λ _ fresh. Dict.get-remove_eq disk tmp tmp (==_refl tmp))

  write_file-IsAtomic :
      (f : Faults) (fault : Option (ℕ × Error))
      → IsAtomic f (write_file f old path tmp content fault)
  write_file-IsAtomic f (some (n, e)) =
      let created = Dict.put old tmp [] in
      let u = put-Untouched old [] refl in
      clean_up-IsAtomic f (created ∷ writing created tmp [] (take n content))
        (Dict.put created tmp (take n content)) e
        (u, writing-Untouched created [] (take n content) u)
        (put-Untouched created (take n content) u)
  write_file-IsAtomic f none = by_replace f.replace
    where
      created : Disk
      created = Dict.put old tmp []

      u : Untouched (Dict.put old tmp [])
      u = put-Untouched old [] refl

      passed : All Untouched (Dict.put old tmp [] ∷ writing (Dict.put old tmp []) tmp [] content)
      passed = (u, writing-Untouched (Dict.put old tmp []) [] content u)

      by_replace :
          (fault : Option Error)
          → IsAtomic f (
              replace_file f
                (created ∷ writing created tmp [] content)
                (Dict.put created tmp content)
                path
                tmp
                content
                fault)
      by_replace (some e) =
          clean_up-IsAtomic f (created ∷ writing created tmp [] content)
            (Dict.put created tmp content) e passed (put-Untouched created content u)
      by_replace none = (
        as_old (created ∷ writing created tmp [] content ++ Dict.put created tmp content ∷ []) (
            All-append Untouched (created ∷ writing created tmp [] content)
              (Dict.put created tmp content ∷ []) passed (put-Untouched created content u, tt)),
        Dict.get-put_eq (Dict.remove (Dict.put created tmp content) tmp) path path content
            (==_refl path),
      )

  make_tmp-IsAtomic :
      (f : Faults) (fault : Option Error) → IsAtomic f (make_tmp f old path tmp content fault)
  make_tmp-IsAtomic f (some e) = (tt, (refl, λ _ fresh. fresh))
  make_tmp-IsAtomic f none = write_file-IsAtomic f f.write

  make_dir-IsAtomic :
      (f : Faults) (fault : Option Error) → IsAtomic f (make_dir f old path tmp content fault)
  make_dir-IsAtomic f (some e) = (tt, (refl, λ _ fresh. fresh))
  make_dir-IsAtomic f none = make_tmp-IsAtomic f f.mkstemp

  -- Whatever fails, if the temporary file is another file: in every state that the disk passes through,
  -- so also after a crash at any moment, the file has its old contents or all of the new ones. When the
  -- call returns, it has the new ones; when it raises, the old ones, and a temporary file that was not
  -- there before is gone again if its removal works.
  pub atomic_write_text-IsAtomic :
      (f : Faults)
      → let w = atomic_write_text f old path tmp content in
        All (OldOrNew old path content) w.0
        × (w.2 ≡ none → Dict.get w.1 path ≡ some content)
        × ((e : Error)
            → w.2 ≡ some e
            → (Dict.get w.1 path ≡ Dict.get old path)
              × (f.unlink ≡ false → Dict.get old tmp ≡ none → Dict.get w.1 tmp ≡ none))
  unfolding atomic_write_text
  atomic_write_text-IsAtomic f =
      let w = make_dir f old path tmp content f.mkdir in
      let (all, ends) = make_dir-IsAtomic f f.mkdir in
      (all, returned w.1 w.2 ends, raised w.1 w.2 ends)
    where
      returned :
          (disk : Disk) (o : Option Error)
          → Ends f.unlink disk o
          → o ≡ none
          → Dict.get disk path ≡ some content
      returned disk none ends h = ends
      returned disk (some e) ends h = absurd (cc h)

      raised :
          (disk : Disk) (o : Option Error)
          → Ends f.unlink disk o
          → (e : Error) → o ≡ some e
          → (Dict.get disk path ≡ Dict.get old path)
            × (f.unlink ≡ false → Dict.get old tmp ≡ none → Dict.get disk tmp ≡ none)
      raised disk none ends e h = absurd (cc h)
      raised disk (some x) ends e h = ends
