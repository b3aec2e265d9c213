-- ===== src/Smp/Deadlock.antt =====
-- The barrier can come to a standstill: a processor that is fast enough changes `mtrr_sync` again before
-- another one has read it in the first wait.
use native.Mathlib.Decide.{ℕ_discrete}
use rtv.Base.{ℕ, zero, suc, ◌+◌, ◌-◌, ◌%◌, ◌^◌, ◌≤◌, ◌<◌, ◌≡◌, ◌≢◌, refl, ap, ◌∙◌, arith}
use rtv.Acpi.Madt.{max_cpus}
use rtv.Smp.{
  Phase, arriving, waiting_all, configuring, waiting_none, finished, Barrier, put_phase, Step,
  arrive, all_here, leave, none_here, Reach, here, next, start,
}
use rtv.Smp.Ordered.{stage}

put_phase-same : (f : ℕ → Phase) (i : ℕ) (p : Phase) → put_phase f i p i ≡ p
unfolding put_phase
put_phase-same f i p = ground arith

put_phase-other :
    (f : ℕ → Phase) (i : ℕ) (p : Phase) (j : ℕ) → ◌≢◌ {A = ℕ} j i → put_phase f i p j ≡ f j
unfolding put_phase
put_phase-other f i p j ne = ground arith

-- The first `k` processors have arrived, and nothing else has happened.
record Gathered (g_cpus k : ℕ) : Type 0 where
  state : Barrier
  reached : Reach g_cpus start state
  sync : state.mtrr_sync ≡ k
  waiting : (j : ℕ) → j < k → state.phase j ≡ waiting_all
  coming : (j : ℕ) → k ≤ j → state.phase j ≡ arriving

gather : (g_cpus : ℕ) → g_cpus ≤ max_cpus → (k : ℕ) → k ≤ g_cpus → Gathered g_cpus k
gather g_cpus few zero le =
    unfold start in
    record {
      state = start;
      reached = here;
      sync = refl;
      waiting = λ j lt. absurd (omega arith);
      coming = λ j le. refl;
    }
gather g_cpus few (suc k) le =
    let g = gather g_cpus few k (omega arith) in
    record {
      state = record {
        mtrr_sync = (g.state.mtrr_sync + 1) % 2 ^ 8;
        phase = put_phase g.state.phase k waiting_all;
      };
      reached = next g.reached (arrive k (omega arith) (g.coming k (omega arith)));
      sync = let e = g.sync in omega arith;
      waiting = λ j lt. elim (ℕ_discrete j k) [
        | yes same ↦ rw same (put_phase-same g.state.phase k waiting_all)
        | no other ↦ put_phase-other g.state.phase k waiting_all j other ∙ g.waiting j (omega arith)
      ];
      coming = λ j h.
          put_phase-other g.state.phase k waiting_all j (omega arith) ∙ g.coming j (omega arith);
    }

-- No processor can take a step, and none is behind the second wait.
pub record IsStuck (g_cpus : ℕ) (s : Barrier) : Type 0 where
  pub unfinished : (i : ℕ) → i < g_cpus → s.phase i ≢ finished
  pub blocked : (t : Barrier) → ¬ Step g_cpus s t

-- Processor 0 waits for the others to leave, and they wait for it to come back.
Step-blocked :
    (g_cpus : ℕ) {s t : Barrier}
    → 2 ≤ g_cpus
    → s.mtrr_sync + 1 ≡ g_cpus
    → s.phase 0 ≡ waiting_none
    → ((j : ℕ) → 0 < j → j < g_cpus → s.phase j ≡ waiting_all)
    → ¬ Step g_cpus s t
Step-blocked g_cpus {s} many sync first others (arrive i lt now) = elim (ℕ_discrete i 0) [
  | yes same ↦ omega (arith, ap stage (rw same at now), ap stage first)
  | no other ↦ omega (arith, ap stage now, ap stage (others i (omega arith) lt))
]
Step-blocked g_cpus {s} many sync first others (all_here i lt at full) = omega arith
Step-blocked g_cpus {s} many sync first others (leave i lt now) = elim (ℕ_discrete i 0) [
  | yes same ↦ omega (arith, ap stage (rw same at now), ap stage first)
  | no other ↦ omega (arith, ap stage now, ap stage (others i (omega arith) lt))
]
Step-blocked g_cpus {s} many sync first others (none_here i lt at none) = omega arith

-- With two to sixteen processors, the barrier can reach a state in which no processor has come through
-- and none ever will.
pub start-IsStuck :
    (g_cpus : ℕ)
    → 2 ≤ g_cpus
    → g_cpus ≤ max_cpus
    → (s : Barrier) × Reach g_cpus start s × IsStuck g_cpus s
start-IsStuck g_cpus many few =
    let g = gather g_cpus few g_cpus (omega arith) in
    let f = g.state.phase in
    let passed = put_phase f 0 configuring in
    let last : Barrier = record {
      mtrr_sync = (g.state.mtrr_sync + 2 ^ 8 - 1) % 2 ^ 8;
      phase = put_phase passed 0 waiting_none;
    } in
    let others = others_lem f g.waiting in
    (
      last,
      next (next g.reached (all_here 0 (omega arith) (g.waiting 0 (omega arith)) g.sync))
          (leave 0 (omega arith) (put_phase-same f 0 configuring)),
      record {
        unfinished = λ i lt e. elim (ℕ_discrete i 0) [
          | yes same ↦ absurd (
              omega
                (arith, ap stage (rw same at e), ap stage (put_phase-same passed 0 waiting_none)))
          | no other ↦ absurd (omega (arith, ap stage e, ap stage (others i (omega arith) lt)))
        ];
        blocked = λ t.
            Step-blocked g_cpus many (let e = g.sync in omega arith)
              (put_phase-same passed 0 waiting_none) others;
      },
    )
  where
    others_lem :
        (f : ℕ → Phase)
        → ((j : ℕ) → j < g_cpus → f j ≡ waiting_all)
        → (j : ℕ) → 0 < j
        → j < g_cpus
        → put_phase (put_phase f 0 configuring) 0 waiting_none j ≡ waiting_all
    others_lem f all j pos lt =
        put_phase-other (put_phase f 0 configuring) 0 waiting_none j (omega arith)
        ∙ put_phase-other f 0 configuring j (omega arith)
        ∙ all j lt
