-- ===== src/Tests/Locks.antt =====
-- The ticket lock.
use rtv.Base.{◌≡◌, refl, true, false, arith}
use rtv.Base.Run.{ok, spinning, and_then}
use rtv.Spinlock.{Spinlock, spin_lock, spin_unlock, spin_trylock}
use rtv.Spinlock.Ticket.{spin_trylock-free}
use rtv.Spinlock.Contended.{
  away, waiting, holding, Contest, put_standing, take_ticket, end_wait, Turns, none_yet, one_more,
}
use rtv.Spinlock.Exclusion.{IsUnused, IsExclusive, Turns-IsExclusive}

abbrev wrapping : Spinlock
wrapping = record { next = 65535; owner = 65535 }

-- The ticket counter wraps around.
lock_wraps : spin_lock wrapping ≡ ok tt (record { next = 0; owner = 65535 })
unfolding spin_lock
lock_wraps = refl

spin_trylock-free_example :
    (spin_trylock wrapping ≡ ok true (record { next = 65535; owner = 0 }))
    × (and_then (spin_trylock wrapping) (λ _. spin_trylock)
        ≡ ok false (record { next = 65535; owner = 0 }))
    × (and_then (and_then (spin_trylock wrapping) (λ _. spin_unlock)) (λ _. spin_lock) ≡ spinning)
spin_trylock-free_example = spin_trylock-free wrapping (omega arith) refl

abbrev contest : Contest
contest = record { lock = wrapping; standing = λ p. away }

contest-IsUnused : IsUnused contest
contest-IsUnused = record {
  fits = record { next_fits = omega arith; owner_fits = omega arith };
  free = refl;
  idle = λ p. refl;
}

-- Processor 3 takes the last ticket before the wrap-around, processor 1 the next, and 3 gets the lock.
abbrev contested : Contest
contested = record {
  lock = record { next = 1; owner = 65535 };
  standing =
      put_standing (put_standing (put_standing contest.standing 3 (waiting 65535)) 1 (waiting 0)) 3
        holding;
}

three_steps : Turns 4 contest contested
unfolding put_standing
three_steps =
    one_more
      (one_more (one_more none_yet (take_ticket 3 (omega arith) refl))
        (take_ticket 1 (omega arith) refl))
      (end_wait 3 65535 (omega arith) refl refl)

Turns-IsExclusive_example : IsExclusive 4 contested
Turns-IsExclusive_example =
    Turns-IsExclusive 4 contest contested (omega arith) contest-IsUnused three_steps
