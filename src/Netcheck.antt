-- ===== src/Netcheck.antt =====
-- ais_server/netcheck.py: the connectivity check of the host, one cycle at a time. `nmcli` and the
-- probed host are outside: a cycle takes the target, if there is one, and whether the probe succeeds.
pub mod Gateway
mod Tests
use ais_server.Prelude.{
  ℕ, suc, ◌+◌, ◌-◌, ◌*◌, ◌≤◌, ◌<◌, ◌≡◌, refl, ap, ◌∙◌, Bool, true, false, List, [], ◌∷◌, arith, leb,
  if◌then◌else◌, All,
}

pub record NetCheck : Type 0 where
  pub fail_threshold : ℕ
  pub auto_recover : Bool
  pub fails : ℕ
  pub last_ok : ℕ
  pub last_fail : ℕ
  pub recoveries : ℕ

unfoldable pub new : ℕ → Bool → NetCheck
new fail_threshold auto_recover = record {
  fail_threshold = fail_threshold;
  auto_recover = auto_recover;
  fails = 0;
  last_ok = 0;
  last_fail = 0;
  recoveries = 0;
}

-- What one cycle meets.
pub data Cycle : Type 0 where
  no_route : Cycle
  probe_ok : ℕ → Cycle
  probe_failed : ℕ → Cycle

-- At the threshold the count starts again, so that the interface is not bounced in every cycle. The
-- second result tells whether the interface is bounced.
abbrev pub at_threshold : NetCheck → NetCheck × Bool
at_threshold n =
    if n.auto_recover
    then (record n { recoveries = n.recoveries + 1; fails = 0 }, true)
    else (record n { fails = 0 }, false)

unfoldable pub cycle : NetCheck → Cycle → NetCheck × Bool
cycle n no_route = (n, false)
cycle n (probe_ok now) = (record n { fails = 0; last_ok = now }, false)
cycle n (probe_failed now) =
    let failed : NetCheck = record n { fails = n.fails + 1; last_fail = now } in
    if leb failed.fail_threshold failed.fails then at_threshold failed else (failed, false)

-- The number of bounces over some cycles.
unfoldable pub run : NetCheck → List Cycle → NetCheck × ℕ
unfolding cycle
run n [] = (n, 0)
run n (c ∷ cycles) =
    let (n', bounced) = cycle n c in
    let (last, bounces) = run n' cycles in (last, (if bounced then 1 else 0) + bounces)

unfoldable pub failures : List Cycle → ℕ
failures [] = 0
failures (probe_failed now ∷ cycles) = suc (failures cycles)
failures (c ∷ cycles) = failures cycles

same_settings :
    (n : NetCheck) (c : Cycle)
    → ((cycle n c).0.fail_threshold ≡ n.fail_threshold)
      × ((cycle n c).0.auto_recover ≡ n.auto_recover)
unfolding cycle
same_settings n no_route = (refl, refl)
same_settings n (probe_ok now) = (refl, refl)
same_settings n (probe_failed now) = ground arith

cycle_bound :
    (n : NetCheck) (c : Cycle)
    → let r = cycle n c in
      (if r.1 then 1 else 0) * n.fail_threshold + r.0.fails ≤ n.fails + failures (c ∷ [])
unfolding cycle failures
cycle_bound n no_route = omega arith
cycle_bound n (probe_ok now) = omega arith
cycle_bound n (probe_failed now) = ground arith

distrib : (a b c : ℕ) → (a + b) * c ≡ a * c + b * c
distrib a b c = grind arith

failures-cons :
    (c : Cycle) (cycles : List Cycle) → failures (c ∷ cycles) ≡ failures (c ∷ []) + failures cycles
unfolding failures
failures-cons no_route cycles = omega arith
failures-cons (probe_ok now) cycles = omega arith
failures-cons (probe_failed now) cycles = omega arith

-- Over any cycles, each bounce of the interface takes `fail_threshold` failed probes of its own.
pub run_bounces_bound :
    (n : NetCheck) (cycles : List Cycle)
    → (run n cycles).1 * n.fail_threshold + (run n cycles).0.fails ≤ n.fails + failures cycles
unfolding run failures
run_bounces_bound n [] = omega arith
run_bounces_bound n (c ∷ cycles) =
    let r = cycle n c in
    let rest = run r.0 cycles in
    omega (
      arith,
      run_bounces_bound r.0 cycles,
      ap (λ t. rest.1 * t) (same_settings n c).0,
      cycle_bound n c,
      failures-cons c cycles,
      distrib (if r.1 then 1 else 0) rest.1 n.fail_threshold,
    )

-- Every probe of the cycle fails, or there is no route yet.
abbrev pub IsDown : Cycle → Type 0
IsDown (probe_ok now) = ⊥
IsDown _ = Unit

cycle_down :
    (n : NetCheck) (c : Cycle)
    → IsDown c
    → n.auto_recover ≡ true
    → n.fails < n.fail_threshold
    → let r = cycle n c in
      ((if r.1 then 1 else 0) * n.fail_threshold + r.0.fails ≡ n.fails + failures (c ∷ []))
      × (r.0.fails < n.fail_threshold)
unfolding cycle failures
cycle_down n no_route d a h = (omega arith, h)
cycle_down n (probe_ok now) d a h = absurd d
cycle_down n (probe_failed now) d a h = ground arith

-- While the network stays down, with recovery on: the interface is bounced after every
-- `fail_threshold` failed probes, neither earlier nor later, and the count stays below the threshold.
pub run_bounces :
    (n : NetCheck) (cycles : List Cycle)
    → All IsDown cycles
    → n.auto_recover ≡ true
    → n.fails < n.fail_threshold
    → ((run n cycles).1 * n.fail_threshold + (run n cycles).0.fails ≡ n.fails + failures cycles)
      × ((run n cycles).0.fails < n.fail_threshold)
unfolding run failures
run_bounces n [] d a h = (omega arith, h)
run_bounces n (c ∷ cycles) d a h =
    let r = cycle n c in
    let rest = run r.0 cycles in
    let one = cycle_down n c d.0 a h in
    let same = same_settings n c in
    let ih = run_bounces r.0 cycles d.1 (same.1 ∙ a) (rw same.0 one.1) in
    (
      omega (
        arith,
        ih.0,
        ap (λ t. rest.1 * t) same.0,
        one.0,
        failures-cons c cycles,
        distrib (if r.1 then 1 else 0) rest.1 n.fail_threshold,
      ),
      omega (arith, ih.1, same.0),
    )
