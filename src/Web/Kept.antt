-- ===== src/Web/Kept.antt =====
-- ais_server/web/api.py: a backup that has just been saved survives the pruning.
use ais_server.Prelude.{
  ℕ, suc, ◌≤◌, ◌<◌, ◌≡◌, refl, sym, ap, ◌∙◌, inl, inr, ◌⊎◌, Bool, true, false, Option, List, [],
  ◌∷◌, arith, ltb, Bool-cases, All, All-weaken, In, at_head, in_tail,
}
use ais_server.Prelude.Text.{Text, text_eqb}
use ais_server.Prelude.Int.{pos}
use ais_server.Prelude.Sort.{insert_by, All-sort_by}
use ais_server.Web.{Backup, newer, newest_first, prune_backups}
use ais_server.Web.System.{saves, backup_name, write_backup, backup}

module _ (b : Backup) where
  -- Every file is this one or an older one.
  abbrev Newest : Backup → Type 0
  Newest c = (c ≡ b) ⊎ (c.mtime < b.mtime)

  no_newer : (c : Backup) → Newest c → c.mtime ≤ b.mtime
  no_newer c (inl e) = rw e (omega arith)
  no_newer c (inr h) = omega arith

  all_no_newer :
      (files : List Backup) → All Newest files → All (λ c. c.mtime ≤ b.mtime) (newest_first files)
  unfolding newest_first
  all_no_newer files a =
      All-sort_by (λ c. c.mtime ≤ b.mtime) newer files
        (All-weaken Newest (λ c. c.mtime ≤ b.mtime) files no_newer a)

  in_front :
      (files : List Backup)
      → All (λ c. c.mtime ≤ b.mtime) files
      → insert_by newer b files ≡ b ∷ files
  unfolding insert_by
  in_front [] a = refl
  in_front (c ∷ files) a = let h : ltb b.mtime c.mtime ≡ false = ground (arith, a.0) in rw h refl

  behind :
      (c : Backup) (rest : List Backup)
      → Newest c
      → (more : List Backup) × (insert_by newer c (b ∷ rest) ≡ b ∷ more)
  unfolding insert_by
  behind c rest (inl e) =
      let h : ltb b.mtime b.mtime ≡ false = ground arith in (b ∷ rest, rw (e, h) refl)
  behind c rest (inr older) =
      let h : ltb c.mtime b.mtime ≡ true = ground (arith, older) in
      (insert_by newer c rest, rw h refl)

  newest_first_head :
      (files : List Backup)
      → In b files
      → All Newest files
      → (rest : List Backup) × (newest_first files ≡ b ∷ rest)
  unfolding newest_first
  newest_first_head [] i a = elim i [ ]
  newest_first_head (c ∷ files) (at_head e) a = (
    newest_first files,
    ap (λ x. insert_by newer x (newest_first files)) (sym e)
        ∙ in_front (newest_first files) (all_no_newer files a.1),
  )
  newest_first_head (c ∷ files) (in_tail i) a =
      let (rest, e) = newest_first_head files i a.1 in
      let (more, e') = behind c rest a.0 in (more, ap (insert_by newer c) e ∙ e')

  write_backup-In : (files : List Backup) → In b (write_backup b files)
  unfolding write_backup
  write_backup-In [] = at_head refl
  write_backup-In (c ∷ files) = elim (Bool-cases (text_eqb c.name b.name)) [
    | inl same ↦ rw same (at_head refl)
    | inr other ↦ rw other (in_tail (write_backup-In files))
  ]

  all_older : (files : List Backup) → All (λ c. c.mtime < b.mtime) files → All Newest files
  all_older [] a = tt
  all_older (c ∷ files) a = (inr a.0, all_older files a.1)

  write_backup-Newest :
      (files : List Backup) → All (λ c. c.mtime < b.mtime) files → All Newest (write_backup b files)
  unfolding write_backup
  write_backup-Newest [] a = (inl refl, tt)
  write_backup-Newest (c ∷ files) a = elim (Bool-cases (text_eqb c.name b.name)) [
    | inl same ↦ rw same (inl refl, all_older files a.1)
    | inr other ↦ rw other (inr a.0, write_backup-Newest files a.1)
  ]

  pruned-In :
      (unlinks : Backup → Bool) (n : ℕ) (files : List Backup)
      → In b files
      → All Newest files
      → In b (prune_backups unlinks (pos (suc n)) true files).0
  unfolding prune_backups
  pruned-In unlinks n files i a = let (rest, e) = newest_first_head files i a in rw e (at_head refl)

-- A download with a copy that is saved without an error, when every file of the directory was changed
-- before and at least one is to be kept: the copy is in the directory afterwards, under the name of the
-- download, whatever the pruning can remove.
pub backup-In :
    (unlinks : Backup → Bool) (n : ℕ) (save : Option Text) (files : List Backup) (ts mtime : ℕ)
    → saves save ≡ true
    → All (λ c. c.mtime < mtime) files
    → let r = backup unlinks (pos (suc n)) save false files ts mtime in
      (r.1 ≡ backup_name ts) × In (record { name = r.1; mtime = mtime }) r.0
unfolding backup
backup-In unlinks n save files ts mtime saved older =
    let new : Backup = record { name = backup_name ts; mtime = mtime } in
    rw saved (
      refl,
      pruned-In new unlinks n (write_backup new files) (write_backup-In new files)
          (write_backup-Newest new files older),
    )
