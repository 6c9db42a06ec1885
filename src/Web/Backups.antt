-- ===== src/Web/Backups.antt =====
-- ais_server/web/api.py: which backups the pruning keeps.
use ais_server.Prelude.{
  ℕ, suc, ◌-◌, ◌≤◌, min, ◌≡◌, refl, Bool, true, false, List, [], ◌∷◌, arith, ltb_false→le, length,
  take, drop, All, All-weaken, All-append, length-append, length-drop, length-take,
}
use ais_server.Prelude.Int.{pos}
use ais_server.Prelude.Sort.{length-sort_by, sort_by-InOrder, cut-InOrder}
use ais_server.Web.{Backup, newer, newest_first, unlink_all, prune_backups}

unlink_every :
    (unlinks : Backup → Bool) (files : List Backup)
    → ((b : Backup) → unlinks b ≡ true)
    → unlink_all unlinks files ≡ ([], length files)
unfolding unlink_all
unlink_every unlinks [] h = refl
unlink_every unlinks (b ∷ files) h = rw (h b, unlink_every unlinks files h) refl

-- No file behind the cut is newer than one in front of it.
cut_newest :
    (n : ℕ) (files : List Backup)
    → let sorted = newest_first files in
      All (λ b. All (λ c. c.mtime ≤ b.mtime) (drop n sorted)) (take n sorted)
unfolding newest_first
cut_newest n files =
    let sorted = newest_first files in
    All-weaken (λ b. All (λ c. newer c b ≡ false) (drop n sorted))
      (λ b. All (λ c. c.mtime ≤ b.mtime) (drop n sorted)) (take n sorted)
      (λ b.
        All-weaken (λ c. newer c b ≡ false) (λ c. c.mtime ≤ b.mtime) (drop n sorted)
          (λ c. ltb_false→le b.mtime c.mtime))
      (cut-InOrder newer n sorted
        (sort_by-InOrder newer (λ a b e. ground arith) (λ a b c p q. ground arith) files))

-- With a positive limit in a directory whose files can all be removed, pruning keeps as many files as
-- the limit or as there are, counts the others as removed, and no removed file is newer than one
-- that stays.
pub prune_backups_newest :
    (unlinks : Backup → Bool) (n : ℕ) (files : List Backup)
    → ((b : Backup) → unlinks b ≡ true)
    → let r = prune_backups unlinks (pos (suc n)) true files in
      (length r.0 ≡ min (suc n) (length files))
      × (r.1 ≡ length files - suc n)
      × All (λ b. All (λ c. c.mtime ≤ b.mtime) (drop (suc n) (newest_first files))) r.0
unfolding prune_backups newest_first
prune_backups_newest unlinks n files h =
    let sorted = newest_first files in
    let gone = unlink_every unlinks (drop (suc n) sorted) h in
    let same = length-sort_by newer files in
    rw gone (
      omega (arith, length-append (take (suc n) sorted) [], length-take (suc n) sorted, same),
      omega (arith, length-drop (suc n) sorted, same),
      All-append (λ b. All (λ c. c.mtime ≤ b.mtime) (drop (suc n) sorted)) (take (suc n) sorted) []
          (cut_newest (suc n) files) tt,
    )
