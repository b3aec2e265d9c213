-- ===== src/Smp/Ordered.antt =====
-- What the barrier guarantees: the two waits end in order.
use native.Mathlib.Decide.{ℕ_discrete}
use rtv.Base.{
  ℕ, zero, suc, ◌+◌, ◌≤◌, ◌<◌, ◌≡◌, refl, ap, ◌==◌, leb, ltb, ◌&&◌, if◌then◌else◌, arith,
}
use rtv.Acpi.Madt.{max_cpus}
use rtv.Smp.{
  Phase, arriving, waiting_all, configuring, waiting_none, finished, Barrier, put_phase, Step,
  Reach, here, next, start, arrive, all_here, leave, none_here,
}

-- How far a processor has come.
abbrev pub stage : Phase → ℕ
stage arriving = 0
stage waiting_all = 1
stage configuring = 2
stage waiting_none = 3
stage finished = 4

-- Whether it is counted.
abbrev pub counted : Phase → ℕ
counted p = if leb 1 (stage p) && leb (stage p) 2 then 1 else 0

unfoldable pub count : ℕ → (ℕ → Phase) → ℕ
count zero f = 0
count (suc n) f = count n f + counted (f n)

pub stage-put_phase :
    (f : ℕ → Phase) (i : ℕ) (p : Phase) (j : ℕ)
    → stage (put_phase f i p j) ≡ (if j == i then stage p else stage (f j))
unfolding put_phase
stage-put_phase f i p j = ground arith

count-put_phase :
    (n : ℕ) (f : ℕ → Phase) (i : ℕ) (p : Phase)
    → count n (put_phase f i p) + (if ltb i n then counted (f i) else 0)
      ≡ count n f + (if ltb i n then counted p else 0)
unfolding count
count-put_phase zero f i p = ground arith
count-put_phase (suc n) f i p =
    let rest = count-put_phase n f i p in
    elim (ℕ_discrete n i) [
      | yes same ↦ rw same (ground (arith, stage-put_phase f i p i, rw same at rest))
      | no other ↦ ground (arith, stage-put_phase f i p n, rest)
    ]

count_le : (n : ℕ) (f : ℕ → Phase) → count n f ≤ n
unfolding count
count_le zero f = omega arith
count_le (suc n) f = let rest = count_le n f in ground arith

count_full : (n : ℕ) (f : ℕ → Phase) → count n f ≡ n → (j : ℕ) → j < n → counted (f j) ≡ 1
unfolding count
count_full zero f e j lt = absurd (omega arith)
count_full (suc n) f e j lt =
    let most = count_le n f in
    elim (ℕ_discrete j n) [
      | yes same ↦ rw same (ground arith)
      | no other ↦ count_full n f (ground arith) j (omega arith)
    ]

count_none : (n : ℕ) (f : ℕ → Phase) → count n f ≡ 0 → (j : ℕ) → j < n → counted (f j) ≡ 0
unfolding count
count_none zero f e j lt = absurd (omega arith)
count_none (suc n) f e j lt = elim (ℕ_discrete j n) [
  | yes same ↦ rw same (omega arith)
  | no other ↦ count_none n f (omega arith) j (omega arith)
]

count-start : (n : ℕ) → count n (λ i. arriving) ≡ 0
unfolding count
count-start zero = refl
count-start (suc n) = omega (arith, count-start n)

-- `mtrr_sync` counts the processors between its two changes. One that is behind the first wait has seen
-- every processor arrive, and one that is behind the second has seen every processor leave mtrr_config.
pub record IsOrdered (g_cpus : ℕ) (s : Barrier) : Type 0 where
  pub sync : s.mtrr_sync ≡ count g_cpus s.phase
  pub arrived : (i j : ℕ) → i < g_cpus → j < g_cpus → 2 ≤ stage (s.phase i) → 1 ≤ stage (s.phase j)
  pub left : (i j : ℕ) → i < g_cpus → j < g_cpus → 4 ≤ stage (s.phase i) → 3 ≤ stage (s.phase j)

module _ (g_cpus : ℕ) (few : g_cpus ≤ max_cpus) where
  -- The counter after a processor's step.
  count-step :
      (f : ℕ → Phase) (i : ℕ) (p : Phase)
      → i < g_cpus
      → count g_cpus (put_phase f i p) + counted (f i) ≡ count g_cpus f + counted p
  count-step f i p lt = ground (arith, count-put_phase g_cpus f i p)

  Step-IsOrdered : {s t : Barrier} → IsOrdered g_cpus s → Step g_cpus s t → IsOrdered g_cpus t
  Step-IsOrdered {s} o (arrive i lt at) = record {
    sync =
        let c = count-step s.phase i waiting_all lt in
        let most = count_le g_cpus s.phase in
        let sync = o.sync in let now = ap stage at in ground arith;
    arrived = λ a b la lb h.
        let now = ap stage at in
        ground (
          arith,
          stage-put_phase s.phase i waiting_all a,
          stage-put_phase s.phase i waiting_all b,
          o.arrived a b la lb,
        );
    left = λ a b la lb h.
        let now = ap stage at in
        ground (
          arith,
          stage-put_phase s.phase i waiting_all a,
          stage-put_phase s.phase i waiting_all b,
          o.left a b la lb,
        );
  }
  Step-IsOrdered {s} o (all_here i lt at full) = record {
    sync =
        let c = count-step s.phase i configuring lt in
        let most = count_le g_cpus s.phase in
        let sync = o.sync in let now = ap stage at in ground arith;
    arrived = λ a b la lb h.
        let now = ap stage at in
        ground (
          arith,
          stage-put_phase s.phase i configuring a,
          stage-put_phase s.phase i configuring b,
          count_full g_cpus s.phase (omega (arith, o.sync)) b lb,
        );
    left = λ a b la lb h.
        let now = ap stage at in
        ground (
          arith,
          stage-put_phase s.phase i configuring a,
          stage-put_phase s.phase i configuring b,
          o.left a b la lb,
        );
  }
  Step-IsOrdered {s} o (leave i lt at) = record {
    sync =
        let c = count-step s.phase i waiting_none lt in
        let most = count_le g_cpus s.phase in
        let sync = o.sync in let now = ap stage at in ground arith;
    arrived = λ a b la lb h.
        let now = ap stage at in
        ground (
          arith,
          stage-put_phase s.phase i waiting_none a,
          stage-put_phase s.phase i waiting_none b,
          o.arrived a b la lb,
          o.arrived i b lt lb,
        );
    left = λ a b la lb h.
        let now = ap stage at in
        ground (
          arith,
          stage-put_phase s.phase i waiting_none a,
          stage-put_phase s.phase i waiting_none b,
          o.left a b la lb,
        );
  }
  Step-IsOrdered {s} o (none_here i lt at none) = record {
    sync =
        let c = count-step s.phase i finished lt in
        let most = count_le g_cpus s.phase in
        let sync = o.sync in let now = ap stage at in ground arith;
    arrived = λ a b la lb h.
        let now = ap stage at in
        ground (
          arith,
          stage-put_phase s.phase i finished a,
          stage-put_phase s.phase i finished b,
          o.arrived a b la lb,
          o.arrived i b lt lb,
        );
    left = λ a b la lb h.
        let now = ap stage at in
        ground (
          arith,
          stage-put_phase s.phase i finished a,
          stage-put_phase s.phase i finished b,
          o.left a b la lb,
          o.arrived i b lt lb,
          count_none g_cpus s.phase (omega (arith, o.sync)) b lb,
        );
  }

  -- With at most 16 processors, in every state that the barrier can reach from the start: `mtrr_sync` is
  -- the number of processors between its two changes; if one is behind the first wait, every processor
  -- has arrived; and if one is behind the second wait, every processor has left mtrr_config.
  pub Reach-IsOrdered : {s : Barrier} → Reach g_cpus start s → IsOrdered g_cpus s
  Reach-IsOrdered here =
      unfold start in
      record {
        sync = omega (arith, count-start g_cpus);
        arrived = λ i j li lj h. absurd (omega arith);
        left = λ i j li lj h. absurd (omega arith);
      }
  Reach-IsOrdered (next r st) = Step-IsOrdered (Reach-IsOrdered r) st
