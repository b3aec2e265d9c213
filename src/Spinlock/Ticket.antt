-- ===== src/Spinlock/Ticket.antt =====
-- What the lock operations do to a lock that is free, and to one that is held.
use rtv.Base.{◌+◌, ◌^◌, ◌<◌, ◌≡◌, ◌≢◌, true, false, arith}
use rtv.Base.Run.{ok, spinning, and_then}
use rtv.Spinlock.{Spinlock, u16, word_of, of_word, spin_lock, spin_unlock, spin_trylock}

-- Both halves are `uint16_t`.
pub record IsLock (lock : Spinlock) : Type 0 where
  pub next_fits : lock.next < 2 ^ 16
  pub owner_fits : lock.owner < 2 ^ 16

-- No ticket is out.
abbrev pub IsFree : Spinlock → Type 0
IsFree lock = lock.next ≡ lock.owner

pub word_of-of_word : (lock : Spinlock) → IsLock lock → of_word (word_of lock) ≡ lock
unfolding word_of of_word
word_of-of_word lock h = ground arith

pub spin_lock-free :
    (lock : Spinlock)
    → IsFree lock
    → spin_lock lock ≡ ok tt (record { next = u16 (lock.next + 1); owner = lock.owner })
unfolding spin_lock
spin_lock-free lock h = ground arith

-- One processor alone, on a free lock: `spin_lock` and then `spin_unlock` leave a free lock, both
-- counters advanced by one with their wrap-around, and `spin_lock` twice waits for ever.
pub spin_lock-spin_unlock :
    (lock : Spinlock)
    → IsLock lock
    → IsFree lock
    → (and_then (spin_lock lock) (λ _. spin_unlock)
        ≡ ok tt (record { next = u16 (lock.next + 1); owner = u16 (lock.next + 1) }))
      × (and_then (spin_lock lock) (λ _. spin_lock) ≡ spinning)
unfolding spin_lock spin_unlock
spin_lock-spin_unlock lock is free = ground arith

-- One processor alone, on a free lock: `spin_trylock` reports success and a second try fails, but it
-- advances `owner` and not `next`, so that after `spin_unlock` the lock is not free and `spin_lock`
-- waits for ever.
pub spin_trylock-free :
    (lock : Spinlock)
    → IsLock lock
    → IsFree lock
    → (spin_trylock lock ≡ ok true (record { next = lock.next; owner = u16 (lock.next + 1) }))
      × (and_then (spin_trylock lock) (λ _. spin_trylock)
          ≡ ok false (record { next = lock.next; owner = u16 (lock.next + 1) }))
      × (and_then (and_then (spin_trylock lock) (λ _. spin_unlock)) (λ _. spin_lock) ≡ spinning)
unfolding spin_trylock spin_unlock spin_lock
spin_trylock-free lock is free = ground arith

-- On a lock that is held it fails and changes nothing.
pub spin_trylock-held :
    (lock : Spinlock) → IsLock lock → lock.next ≢ lock.owner → spin_trylock lock ≡ ok false lock
unfolding spin_trylock
spin_trylock-held lock is held = ground arith
