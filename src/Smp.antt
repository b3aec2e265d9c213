-- ===== src/Smp.antt =====
-- arch/x86_64/boot/init.c and arch/x86_64/smp/smp.c: the barrier around mtrr_config, which every
-- processor passes. The steps of the processors interleave; a section under mtrr_lock is one step, and
-- so is a wait that ends.
pub mod Ordered
pub mod Deadlock
use rtv.Base.{ℕ, ◌+◌, ◌-◌, ◌%◌, ◌^◌, ◌<◌, ◌≡◌, ◌==◌, if◌then◌else◌}

-- Where a processor is: before `mtrr_sync++`, in the first wait, in mtrr_config, in the second wait
-- and behind it.
pub data Phase : Type 0 where
  arriving waiting_all configuring waiting_none finished : Phase

pub record Barrier : Type 0 where
  pub mtrr_sync : ℕ
  pub phase : ℕ → Phase

unfoldable pub put_phase : (ℕ → Phase) → ℕ → Phase → ℕ → Phase
put_phase f i p j = if j == i then p else f j

-- What processor `i` does, of `g_cpus` processors.
pub data Step (g_cpus : ℕ) (s : Barrier) : Barrier → Type 0 where
  arrive :
      (i : ℕ)
      → i < g_cpus
      → s.phase i ≡ arriving
      → Step g_cpus s (record {
        mtrr_sync = (s.mtrr_sync + 1) % 2 ^ 8;
        phase = put_phase s.phase i waiting_all;
      })
  all_here :
      (i : ℕ)
      → i < g_cpus
      → s.phase i ≡ waiting_all
      → s.mtrr_sync ≡ g_cpus
      → Step g_cpus s (record s { phase = put_phase s.phase i configuring })
  leave :
      (i : ℕ)
      → i < g_cpus
      → s.phase i ≡ configuring
      → Step g_cpus s (record {
        mtrr_sync = (s.mtrr_sync + 2 ^ 8 - 1) % 2 ^ 8;
        phase = put_phase s.phase i waiting_none;
      })
  none_here :
      (i : ℕ)
      → i < g_cpus
      → s.phase i ≡ waiting_none
      → s.mtrr_sync ≡ 0
      → Step g_cpus s (record s { phase = put_phase s.phase i finished })

pub data Reach (g_cpus : ℕ) (s : Barrier) : Barrier → Type 0 where
  here : Reach g_cpus s s
  next : {t u : Barrier} → Reach g_cpus s t → Step g_cpus t u → Reach g_cpus s u

unfoldable pub start : Barrier
start = record { mtrr_sync = 0; phase = λ i. arriving }
