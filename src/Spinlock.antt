-- ===== src/Spinlock.antt =====
-- include/utils/spinlock.h: a ticket lock in one 32-bit word. Its lower half is `next` and its upper
-- half `owner`, the layout of the union on this little-endian machine.
pub mod Ticket
pub mod Contended
pub mod Queue
pub mod Serving
pub mod Exclusion
use rtv.Base.{ℕ, ◌+◌, ◌*◌, ◌/◌, ◌%◌, ◌^◌, Bool, true, false, ◌==◌, if◌then◌else◌}
use rtv.Base.Run.{Run, ok, spinning, Cmd}

pub record Spinlock : Type 0 where
  pub next : ℕ
  pub owner : ℕ

abbrev pub u16 : ℕ → ℕ
u16 n = n % 2 ^ 16

-- The member `data` of the union.
unfoldable pub word_of : Spinlock → ℕ
word_of lock = lock.next + lock.owner * 2 ^ 16

unfoldable pub of_word : ℕ → Spinlock
of_word w = record { next = w % 2 ^ 16; owner = w / 2 ^ 16 }

unfoldable pub spin_lock_init : Cmd Spinlock (Unit {0})
unfolding of_word
spin_lock_init lock = ok tt (of_word 0)

-- One processor alone: if its ticket is not up, nobody will hand the lock on.
unfoldable pub spin_lock : Cmd Spinlock (Unit {0})
spin_lock lock =
    let me = lock.next in
    if me == lock.owner then ok tt (record lock { next = u16 (me + 1) }) else spinning

unfoldable pub spin_unlock : Cmd Spinlock (Unit {0})
spin_unlock lock = ok tt (record lock { owner = u16 (lock.owner + 1) })

-- `atomic_cmp_xchg` compares the whole word with `expected` and stores `desired` on a match.
unfoldable pub spin_trylock : Cmd Spinlock Bool
unfolding word_of of_word
spin_trylock lock =
    let me = lock.next in
    let next = u16 (me + 1) in
    let expected = (me * 2 ^ 16 + me) % 2 ^ 32 in
    let desired = (next * 2 ^ 16 + me) % 2 ^ 32 in
    if word_of lock == expected then ok true (of_word desired) else ok false lock
