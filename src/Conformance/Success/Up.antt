-- ===== src/Conformance/Success/Up.antt =====
-- `SpinShim::start` of conformance-tests/src/main.rs on a shim that comes up.
use containerd_shim_spin.Prelude.{
  ℕ, zero, suc, ◌+◌, ◌≤◌, ◌<◌, ◌≡◌, refl, true, false, arith, ltb, Bool-cases, inl, inr,
}
use containerd_shim_spin.Conformance.{started, Probe, await_start, two_minutes}
use containerd_shim_spin.Conformance.Startup.{Sleeps, IsWaiting, elapsed-ge}
use containerd_shim_spin.Conformance.Shim.{up}

-- A shim that comes up: its port opens in some round, before which its process runs and time is left.
pub record ComesUp (probe : Probe) : Type 0 where
  pub sleeps : Sleeps probe
  pub opens : (k : ℕ) × (probe.connects k ≡ true) × ((n : ℕ) → n < k → IsWaiting probe n)

await_start-started :
    (probe : Probe) (k fuel n : ℕ)
    → probe.connects k ≡ true
    → ((i : ℕ) → i < k → IsWaiting probe i)
    → n ≤ k
    → k < n + fuel
    → await_start probe fuel n ≡ started
unfolding await_start
await_start-started probe k zero n opened waiting before enough = absurd (omega arith)
await_start-started probe k (suc fuel) n opened waiting before enough =
    elim (Bool-cases (probe.connects n)) [
      | inl open_port ↦ simp open_port refl
      | inr closed ↦ elim (Bool-cases (ltb n k)) [
        | inr reached ↦ let same : n ≡ k = ground arith in absurd (cc)
        | inl more ↦
            let round = waiting n (ground arith) in
            let in_time : ltb two_minutes (probe.elapsed n) ≡ false =
              ground (arith, round.in_time) in
            simp (closed, round.alive, in_time)
              (await_start-started probe k fuel (suc n) opened waiting (ground arith) (omega arith))
      ]
    ]

-- The port opens within the rounds of the loop.
opens-le : (probe : Probe) (k : ℕ) → Sleeps probe → ((i : ℕ) → i < k → IsWaiting probe i) → k < 2402
opens-le probe zero sleeps waiting = omega arith
opens-le probe (suc k) sleeps waiting =
    omega (arith, (waiting k (omega arith)).in_time, elapsed-ge probe sleeps k)

pub await_start_up : (probe : Probe) → ComesUp probe → await_start probe 2402 0 ≡ started
await_start_up probe up =
    let (k, opened, waiting) = up.opens in
    await_start-started probe k 2402 0 opened waiting (omega arith)
      (opens-le probe k up.sleeps waiting)
