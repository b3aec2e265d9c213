-- ===== src/Spinlock/Contended.antt =====
-- include/utils/spinlock.h with many processors: the steps that they take interleave. An atomic
-- operation is one step, and so is the last round of the wait in spin_lock.
use rtv.Base.{ℕ, ◌+◌, ◌<◌, ◌≡◌, ◌==◌, if◌then◌else◌}
use rtv.Spinlock.{Spinlock, u16}

-- Where a processor is: outside the lock, in the loop of spin_lock with its ticket `me`, or past it.
pub data Standing : Type 0 where
  away : Standing
  waiting : ℕ → Standing
  holding : Standing

pub record Contest : Type 0 where
  pub lock : Spinlock
  pub standing : ℕ → Standing

unfoldable pub put_standing : (ℕ → Standing) → ℕ → Standing → ℕ → Standing
put_standing f p v q = if q == p then v else f q

-- What processor `p` does, of `cpus` processors.
pub data Turn (cpus : ℕ) (s : Contest) : Contest → Type 0 where
  take_ticket :
      (p : ℕ)
      → p < cpus
      → s.standing p ≡ away
      → Turn cpus s (record {
        lock = record { next = u16 (s.lock.next + 1); owner = s.lock.owner };
        standing = put_standing s.standing p (waiting (s.lock.next));
      })
  end_wait :
      (p me : ℕ)
      → p < cpus
      → s.standing p ≡ waiting me
      → me ≡ s.lock.owner
      → Turn cpus s (record s { standing = put_standing s.standing p holding })
  release :
      (p : ℕ)
      → p < cpus
      → s.standing p ≡ holding
      → Turn cpus s (record {
        lock = record { next = s.lock.next; owner = u16 (s.lock.owner + 1) };
        standing = put_standing s.standing p away;
      })

pub data Turns (cpus : ℕ) (s : Contest) : Contest → Type 0 where
  none_yet : Turns cpus s s
  one_more : {t u : Contest} → Turns cpus s t → Turn cpus t u → Turns cpus s u
