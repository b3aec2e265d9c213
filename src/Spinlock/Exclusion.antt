-- ===== src/Spinlock/Exclusion.antt =====
-- What the lock guarantees however the steps of the processors interleave.
use rtv.Base.{ℕ, ◌+◌, ◌%◌, ◌^◌, ◌≤◌, ◌<◌, ◌≡◌, ◌≢◌, sym, ap, ◌∙◌, arith}
use rtv.Spinlock.Ticket.{IsLock, IsFree}
use rtv.Spinlock.Contended.{
  away, waiting, holding, Contest, Turn, take_ticket, end_wait, release, Turns, none_yet, one_more,
}
use rtv.Spinlock.Queue.{stage, ticket, stage-holding, stage-waiting, stage_max, Queued, put_number}
use rtv.Spinlock.Serving.{take_ticket-IsQueue, end_wait-IsQueue, release-IsQueue, only_first}

Turn-Queued :
    {cpus : ℕ} {s t : Contest} → cpus ≤ 2 ^ 16 → Turn cpus s t → Queued cpus s → Queued cpus t
Turn-Queued few (take_ticket p lt idle) (lo, hi, number, owner_of, h) = (
  lo,
  hi + 1,
  put_number number p hi,
  put_number owner_of hi p,
  take_ticket-IsQueue few h p lt (ap stage idle),
)
Turn-Queued few (end_wait p me lt queued up) (lo, hi, number, owner_of, h) =
    (lo, hi, number, owner_of, end_wait-IsQueue few h p (ap stage queued) (ap ticket queued ∙ up))
Turn-Queued few (release p lt held) (lo, hi, number, owner_of, h) =
    (lo + 1, hi, number, owner_of, release-IsQueue few h p (ap stage held))

Turns-Queued :
    {cpus : ℕ} {s t : Contest} → cpus ≤ 2 ^ 16 → Turns cpus s t → Queued cpus s → Queued cpus t
Turns-Queued few none_yet q = q
Turns-Queued few (one_more turns turn) q = Turn-Queued few turn (Turns-Queued few turns q)

-- No processor has begun, and the lock is free.
pub record IsUnused (s : Contest) : Type 0 where
  pub fits : IsLock s.lock
  pub free : IsFree s.lock
  pub idle : (p : ℕ) → s.standing p ≡ away

IsUnused-Queued : (cpus : ℕ) (s : Contest) → IsUnused s → Queued cpus s
IsUnused-Queued cpus s unused = (
  s.lock.owner,
  s.lock.owner,
  λ p. 0,
  λ t. 0,
  record {
    next = let f = unused.free in let b = (unused.fits).owner_fits in omega arith;
    owner = let b = (unused.fits).owner_fits in omega arith;
    order = omega arith;
    out = λ t a b. absurd (omega arith);
    numbered = λ p on. absurd (on (ap stage (unused.idle p)));
    same = λ p on. let z = ap stage (unused.idle p) in absurd (omega arith);
    first = λ p on. let z = ap stage (unused.idle p) in absurd (omega arith);
  },
)

-- Two processors never hold the lock, and if one waits and none holds it, there is one whose wait ends.
pub record IsExclusive (cpus : ℕ) (s : Contest) : Type 0 where
  pub alone : (p q : ℕ) → s.standing p ≡ holding → s.standing q ≡ holding → p ≡ q
  pub goes_on :
      (p me : ℕ)
      → s.standing p ≡ waiting me
      → ((q : ℕ) → s.standing q ≢ holding)
      → (q : ℕ) × (q < cpus) × (s.standing q ≡ waiting (s.lock.owner))

-- From a lock that is free, with at most 2 ^ 16 processors that call `spin_lock` and `spin_unlock` in
-- any interleaving of their atomic steps and as often as they like, where both halves of the lock wrap
-- around: at most one processor holds the lock, and whenever one waits and none holds it, a processor
-- is there whose ticket is the lock's `owner`, so that its wait ends.
pub Turns-IsExclusive :
    (cpus : ℕ) (s t : Contest) → cpus ≤ 2 ^ 16 → IsUnused s → Turns cpus s t → IsExclusive cpus t
Turns-IsExclusive cpus s t few unused turns =
    let (lo, hi, number, owner_of, h) = Turns-Queued few turns (IsUnused-Queued cpus s unused) in
    record {
      alone = λ p q hp hq.
          let sp : stage (t.standing p) ≡ 2 = ap stage hp in
          let sq : stage (t.standing q) ≡ 2 = ap stage hq in
          only_first few h q p (λ z. omega arith) (λ z. omega arith) (h.first q sq) (h.first p sp);
      goes_on = λ p me hp none.
          let sp : stage (t.standing p) ≡ 1 = ap stage hp in
          let (a, b, c) = h.numbered p (λ z. omega arith) in
          let (x, y, z) = h.out lo (omega arith) (omega arith) in
          let two : stage (t.standing (owner_of lo)) ≢ 2 =
            λ st. none (owner_of lo) (stage-holding (t.standing (owner_of lo)) st) in
          let most = stage_max (t.standing (owner_of lo)) in
          let one : stage (t.standing (owner_of lo)) ≡ 1 = omega arith in
          (
            owner_of lo,
            x,
            stage-waiting (t.standing (owner_of lo)) one
                ∙ ap waiting
                    (h.same (owner_of lo) one ∙ ap (λ (n : ℕ). n % 2 ^ 16) z ∙ sym h.owner),
          );
    }
