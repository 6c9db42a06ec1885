-- ===== src/Maintenance.antt =====
-- ais_server/__main__.py: the schedule of the maintenance loop. Times are whole milliseconds; an
-- interval that is not positive is 0. The tasks themselves, and their failures, are outside.
mod Tests
use ais_server.Prelude.{
  ℕ, zero, suc, ◌+◌, ◌-◌, ◌≤◌, min, max, ◌≡◌, refl, Bool, true, false, ◌&&◌, ◌||◌, Option, none,
  some, List, [], ◌∷◌, ◌++◌, arith, ltb, leb, if◌then◌else◌,
}

pub data Task : Type 0 where
  checkpoint : Task
  vacuum : Task
  prune : Task

pub record Schedule : Type 0 where
  pub ckpt_iv : ℕ
  pub vac_iv : ℕ
  pub prune_iv : ℕ
  pub node_max : ℕ
  pub last_ckpt : ℕ
  pub last_vac : ℕ
  pub last_prune : ℕ

unfoldable pub new : ℕ → ℕ → ℕ → ℕ → Schedule
new ckpt_iv vac_iv prune_iv node_max = record {
  ckpt_iv = ckpt_iv;
  vac_iv = vac_iv;
  prune_iv = prune_iv;
  node_max = node_max;
  last_ckpt = 0;
  last_vac = 0;
  last_prune = 0;
}

-- The shortest of the intervals that are positive, if there is one.
unfoldable pub shortest : List ℕ → Option ℕ
shortest [] = none
shortest (zero ∷ ts) = shortest ts
shortest (suc t ∷ ts) = elim (shortest ts) [ none ↦ some (suc t) | some u ↦ some (min (suc t) u) ]

abbrev pub or_hour : Option ℕ → ℕ
or_hour none = 3600000
or_hour (some t) = t

-- How long the loop waits between two turns.
unfoldable pub tick : Schedule → ℕ
unfolding shortest
tick s = max 30000 (or_hour (shortest (s.ckpt_iv ∷ s.vac_iv ∷ s.prune_iv ∷ [])))

abbrev pub is_due : ℕ → ℕ → ℕ → Bool
is_due interval last now = ltb 0 interval && leb interval (now - last)

-- One turn: the tasks that it runs, in order.
unfoldable pub turn : Schedule → ℕ → Schedule × List Task
turn s now =
    let ckpt = is_due s.ckpt_iv s.last_ckpt now in
    let vac = is_due s.vac_iv s.last_vac now in
    let prn = is_due s.prune_iv s.last_prune now && ltb 0 s.node_max in
    (
      record s {
        last_ckpt = if ckpt then now else s.last_ckpt;
        last_vac = if vac then now else s.last_vac;
        last_prune = if prn then now else s.last_prune;
      },
      (if ckpt then checkpoint ∷ [] else [])
          ++ ((if vac then vacuum ∷ [] else []) ++ (if prn then prune ∷ [] else [])),
    )

abbrev pub is_checkpoint : Task → Bool
is_checkpoint checkpoint = true
is_checkpoint _ = false

unfoldable pub any_checkpoint : List Task → Bool
any_checkpoint [] = false
any_checkpoint (t ∷ ts) = is_checkpoint t || any_checkpoint ts

-- The times of the checkpoints over some turns.
unfoldable pub checkpoints : Schedule → List ℕ → List ℕ
unfolding turn any_checkpoint
checkpoints s [] = []
checkpoints s (now ∷ turns) =
    let (s', tasks) = turn s now in
    let rest = checkpoints s' turns in if any_checkpoint tasks then now ∷ rest else rest

-- Each time is at least the interval after the one before.
abbrev pub Spaced : ℕ → ℕ → List ℕ → Type 0
Spaced interval last [] = Unit
Spaced interval last (t ∷ ts) = (last + interval ≤ t) × Spaced interval t ts

ran_checkpoint :
    (a b c : Bool)
    → any_checkpoint (
        (if a then checkpoint ∷ [] else [])
        ++ ((if b then vacuum ∷ [] else []) ++ (if c then prune ∷ [] else [])))
      ≡ a
unfolding any_checkpoint
ran_checkpoint true b c = refl
ran_checkpoint false true true = refl
ran_checkpoint false true false = refl
ran_checkpoint false false true = refl
ran_checkpoint false false false = refl

turn_lem :
    (s : Schedule) (now : ℕ)
    → (any_checkpoint (turn s now).1 ≡ is_due s.ckpt_iv s.last_ckpt now)
      × ((turn s now).0.ckpt_iv ≡ s.ckpt_iv)
      × ((turn s now).0.last_ckpt ≡ (if is_due s.ckpt_iv s.last_ckpt now then now else s.last_ckpt))
unfolding turn
turn_lem s now = (
  ran_checkpoint (is_due s.ckpt_iv s.last_ckpt now) (is_due s.vac_iv s.last_vac now)
      (is_due s.prune_iv s.last_prune now && ltb 0 s.node_max),
  refl,
  refl,
)

due_later : (interval last now : ℕ) → is_due interval last now ≡ true → last + interval ≤ now
due_later interval last now h = ground arith

Spaced-if :
    (interval last now : ℕ) (b : Bool) (rest : List ℕ)
    → (b ≡ true → last + interval ≤ now)
    → Spaced interval (if b then now else last) rest
    → Spaced interval last (if b then now ∷ rest else rest)
Spaced-if interval last now true rest h r = (h refl, r)
Spaced-if interval last now false rest h r = r

-- Whenever the turns fall, two checkpoints of the database are at least the interval apart, and the
-- first comes at least the interval after the last one that the schedule knows.
pub checkpoints-Spaced :
    (s : Schedule) (turns : List ℕ) → Spaced s.ckpt_iv s.last_ckpt (checkpoints s turns)
unfolding checkpoints
checkpoints-Spaced s [] = tt
checkpoints-Spaced s (now ∷ turns) =
    let t = turn s now in
    let l = turn_lem s now in
    let rest : Spaced s.ckpt_iv (if is_due s.ckpt_iv s.last_ckpt now then now else s.last_ckpt)
        (checkpoints t.0 turns) =
      rw (← l.2) (checkpoints-Spaced t.0 turns) in
    rw l.0 (
      Spaced-if s.ckpt_iv s.last_ckpt now (is_due s.ckpt_iv s.last_ckpt now) (checkpoints t.0 turns)
        (due_later s.ckpt_iv s.last_ckpt now) rest)
