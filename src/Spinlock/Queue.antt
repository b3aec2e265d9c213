-- ===== src/Spinlock/Queue.antt =====
-- The processors that wait for the lock as a queue.
use rtv.Base.{ℕ, ◌+◌, ◌-◌, ◌%◌, ◌^◌, ◌≤◌, ◌<◌, ◌≡◌, ◌≢◌, refl, ap, ◌==◌, if◌then◌else◌, arith}
use rtv.Base.Pigeonhole.{pigeonhole}
use rtv.Spinlock.Contended.{Standing, away, waiting, holding, Contest, put_standing}

abbrev pub stage : Standing → ℕ
stage away = 0
stage (waiting me) = 1
stage holding = 2

abbrev pub ticket : Standing → ℕ
ticket away = 0
ticket (waiting me) = me
ticket holding = 0

pub stage-holding : (v : Standing) → stage v ≡ 2 → v ≡ holding
stage-holding away h = absurd (omega arith)
stage-holding (waiting me) h = absurd (omega arith)
stage-holding holding h = refl

pub stage-waiting : (v : Standing) → stage v ≡ 1 → v ≡ waiting (ticket v)
stage-waiting away h = absurd (omega arith)
stage-waiting (waiting me) h = refl
stage-waiting holding h = absurd (omega arith)

pub stage_max : (v : Standing) → stage v ≤ 2
stage_max away = omega arith
stage_max (waiting me) = omega arith
stage_max holding = omega arith

pub stage-put :
    (f : ℕ → Standing) (p : ℕ) (v : Standing) (q : ℕ)
    → stage (put_standing f p v q) ≡ (if q == p then stage v else stage (f q))
unfolding put_standing
stage-put f p v q = ground arith

pub ticket-put :
    (f : ℕ → Standing) (p : ℕ) (v : Standing) (q : ℕ)
    → ticket (put_standing f p v q) ≡ (if q == p then ticket v else ticket (f q))
unfolding put_standing
ticket-put f p v q = ground arith

-- The tickets as numbers that do not wrap around: those from `lo` to `hi` are out, `number` is that of
-- a processor and `owner_of` the processor of a number.
pub record IsQueue (cpus : ℕ) (s : Contest) (lo hi : ℕ) (number owner_of : ℕ → ℕ) : Type 0 where
  pub next : s.lock.next ≡ hi % 2 ^ 16
  pub owner : s.lock.owner ≡ lo % 2 ^ 16
  pub order : lo ≤ hi
  pub out :
      (t : ℕ)
      → lo ≤ t
      → t < hi
      → (owner_of t < cpus) × (stage (s.standing (owner_of t)) ≢ 0) × (number (owner_of t) ≡ t)
  pub numbered :
      (p : ℕ)
      → stage (s.standing p) ≢ 0
      → (lo ≤ number p) × (number p < hi) × (owner_of (number p) ≡ p)
  pub same : (p : ℕ) → stage (s.standing p) ≡ 1 → ticket (s.standing p) ≡ number p % 2 ^ 16
  pub first : (p : ℕ) → stage (s.standing p) ≡ 2 → number p ≡ lo

-- No more tickets are out than there are processors.
pub queue_max :
    {cpus lo hi : ℕ} {s : Contest} {number owner_of : ℕ → ℕ}
    → IsQueue cpus s lo hi number owner_of
    → hi ≤ lo + cpus
queue_max {cpus = cpus} {lo = lo} {hi = hi} {number = number} {owner_of = owner_of} h =
    let most =
      pigeonhole cpus (hi - lo) (λ k. owner_of (lo + k))
        (λ k lt. (h.out (lo + k) (omega arith) (omega arith)).0)
        (λ k j lk lj eq.
          let (a, b, c) = h.out (lo + k) (omega arith) (omega arith) in
          let (a', b', c') = h.out (lo + j) (omega arith) (omega arith) in
          let n = ap number eq in omega arith) in
    let o = h.order in omega arith

-- Some such numbering, after any step.
abbrev pub Queued : (cpus : ℕ) → Contest → Type 0
Queued cpus s =
    (lo hi : ℕ) × (number : ℕ → ℕ) × (owner_of : ℕ → ℕ) × IsQueue cpus s lo hi number owner_of

unfoldable pub put_number : (ℕ → ℕ) → (p v : ℕ) → ℕ → ℕ
put_number f p v q = if q == p then v else f q

pub put_number_lem : (f : ℕ → ℕ) (p v q : ℕ) → put_number f p v q ≡ (if q == p then v else f q)
unfolding put_number
put_number_lem f p v q = ground arith
