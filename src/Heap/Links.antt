-- ===== src/Heap/Links.antt =====
-- What writing a link does to bytes and to the other links.
use native.Mathlib.Decide.{ℕ_discrete}
use rtv.Base.{
  ℕ, ◌+◌, ◌*◌, ◌/◌, ◌%◌, ◌^◌, ◌≤◌, ◌<◌, ◌≡◌, ◌≢◌, ◌⊎◌, refl, ap, ◌∙◌, ◌==◌, if◌then◌else◌, arith,
}
use rtv.Bits.{store}
use rtv.Heap.{Bytes, read64, write64, next_of, prev_of, unlink, link}

-- The `n` bytes at `p` and the `m` bytes at `q` have none in common.
abbrev pub Apart : (p n q m : ℕ) → Type 0
Apart p n q m = (p + n ≤ q) ⊎ (q + m ≤ p)

module _ (m : Bytes) (p v : ℕ) where
  pub write64-outside : (q : ℕ) → Apart p 8 q 1 → write64 m p v q ≡ m q
  unfolding write64
  write64-outside q h = ground arith

  byte_0 : write64 m p v p ≡ v % 2 ^ 8
  unfolding write64
  byte_0 = ground arith

  byte_1 : write64 m p v (p + 1) ≡ v / 2 ^ 8 % 2 ^ 8
  unfolding write64
  byte_1 = ground arith

  byte_2 : write64 m p v (p + 2) ≡ v / 2 ^ 16 % 2 ^ 8
  unfolding write64
  byte_2 = ground arith

  byte_3 : write64 m p v (p + 3) ≡ v / 2 ^ 24 % 2 ^ 8
  unfolding write64
  byte_3 = ground arith

  byte_4 : write64 m p v (p + 4) ≡ v / 2 ^ 32 % 2 ^ 8
  unfolding write64
  byte_4 = ground arith

  byte_5 : write64 m p v (p + 5) ≡ v / 2 ^ 40 % 2 ^ 8
  unfolding write64
  byte_5 = ground arith

  byte_6 : write64 m p v (p + 6) ≡ v / 2 ^ 48 % 2 ^ 8
  unfolding write64
  byte_6 = ground arith

  byte_7 : write64 m p v (p + 7) ≡ v / 2 ^ 56 % 2 ^ 8
  unfolding write64
  byte_7 = ground arith

  digits :
      v < 2 ^ 64
      → v % 2 ^ 8
          + v / 2 ^ 8 % 2 ^ 8 * 2 ^ 8
          + v / 2 ^ 16 % 2 ^ 8 * 2 ^ 16
          + v / 2 ^ 24 % 2 ^ 8 * 2 ^ 24
          + v / 2 ^ 32 % 2 ^ 8 * 2 ^ 32
          + v / 2 ^ 40 % 2 ^ 8 * 2 ^ 40
          + v / 2 ^ 48 % 2 ^ 8 * 2 ^ 48
          + v / 2 ^ 56 % 2 ^ 8 * 2 ^ 56
        ≡ v
  digits lt = omega arith

  pub read64-same : v < 2 ^ 64 → read64 (write64 m p v) p ≡ v
  unfolding read64
  read64-same lt = rw (byte_0, byte_1, byte_2, byte_3, byte_4, byte_5, byte_6, byte_7) (digits lt)

  pub read64-elsewhere : (q : ℕ) → Apart p 8 q 8 → read64 (write64 m p v) q ≡ read64 m q
  unfolding read64
  read64-elsewhere q h =
      rw
        (
          write64-outside q (ground arith),
          write64-outside (q + 1) (ground arith),
          write64-outside (q + 2) (ground arith),
          write64-outside (q + 3) (ground arith),
          write64-outside (q + 4) (ground arith),
          write64-outside (q + 5) (ground arith),
          write64-outside (q + 6) (ground arith),
          write64-outside (q + 7) (ground arith),
        )
        refl

-- Two list heads are one, or have no byte in common.
abbrev pub Separate : ℕ → ℕ → Type 0
Separate p q = (p ≡ q) ⊎ Apart p 16 q 16

-- A write of one link, as the links read it.
module _ (m : Bytes) (p v q : ℕ) (sep : Separate p q) where
  next-write_next : v < 2 ^ 64 → next_of (write64 m p v) q ≡ (if q == p then v else next_of m q)
  next-write_next lt = elim (ℕ_discrete q p) [
    | yes e ↦ rw e (read64-same m p v lt ∙ ground arith)
    | no ne ↦ read64-elsewhere m p v q (ground arith) ∙ ground arith
  ]

  prev-write_next : prev_of (write64 m p v) q ≡ prev_of m q
  prev-write_next = read64-elsewhere m p v (q + 8) (ground arith)

  next-write_prev : next_of (write64 m (p + 8) v) q ≡ next_of m q
  next-write_prev = read64-elsewhere m (p + 8) v q (ground arith)

  prev-write_prev :
      v < 2 ^ 64 → prev_of (write64 m (p + 8) v) q ≡ (if q == p then v else prev_of m q)
  prev-write_prev lt = elim (ℕ_discrete q p) [
    | yes e ↦ rw e (read64-same m (p + 8) v lt ∙ ground arith)
    | no ne ↦ read64-elsewhere m (p + 8) v (q + 8) (ground arith) ∙ ground arith
  ]

module _ (m : Bytes) (u v : ℕ) (fit_u : u < 2 ^ 64) (fit_v : v < 2 ^ 64) where
  pub next-unlink :
      (q : ℕ)
      → Separate u q
      → Separate v q
      → next_of (unlink m u v) q ≡ (if q == u then v else next_of m q)
  unfolding unlink
  next-unlink q su sv =
      next-write_next (write64 m (v + 8) u) u v q su fit_v
      ∙ ap (λ (n : ℕ). if q == u then v else n) (next-write_prev m v u q sv)

  pub prev-unlink :
      (q : ℕ)
      → Separate u q
      → Separate v q
      → prev_of (unlink m u v) q ≡ (if q == v then u else prev_of m q)
  unfolding unlink
  prev-unlink q su sv =
      prev-write_next (write64 m (v + 8) u) u v q su ∙ prev-write_prev m v u q sv fit_u

  pub unlink-outside : (q : ℕ) → Apart u 16 q 1 → Apart v 16 q 1 → unlink m u v q ≡ m q
  unfolding unlink
  unlink-outside q au av =
      write64-outside (write64 m (v + 8) u) u v q (ground arith)
      ∙ write64-outside m (v + 8) u q (ground arith)

-- `a` is a new list head between `u` and `v`.
module _ (m : Bytes) (a u v : ℕ) (fit_a : a < 2 ^ 64) (fit_u : u < 2 ^ 64)
    (fit_v : v < 2 ^ 64) where
  pub next-link :
      (q : ℕ)
      → Separate a q
      → Separate u q
      → Separate v q
      → next_of (link m a u v) q ≡ (if q == u then a else if q == a then v else next_of m q)
  unfolding link
  next-link q sa su sv =
      next-write_next (write64 (write64 (write64 m (v + 8) a) a v) (a + 8) u) u a q su fit_a
      ∙ ap (λ (n : ℕ). if q == u then a else n)
          (next-write_prev (write64 (write64 m (v + 8) a) a v) a u q sa
            ∙ next-write_next (write64 m (v + 8) a) a v q sa fit_v
            ∙ ap (λ (n : ℕ). if q == a then v else n) (next-write_prev m v a q sv))

  pub prev-link :
      (q : ℕ)
      → Separate a q
      → Separate u q
      → Separate v q
      → prev_of (link m a u v) q ≡ (if q == a then u else if q == v then a else prev_of m q)
  unfolding link
  prev-link q sa su sv =
      prev-write_next (write64 (write64 (write64 m (v + 8) a) a v) (a + 8) u) u a q su
      ∙ prev-write_prev (write64 (write64 m (v + 8) a) a v) a u q sa fit_u
      ∙ ap (λ (n : ℕ). if q == a then u else n)
          (prev-write_next (write64 m (v + 8) a) a v q sa ∙ prev-write_prev m v a q sv fit_a)

  pub link-outside :
      (q : ℕ) → Apart a 16 q 1 → Apart u 16 q 1 → Apart v 16 q 1 → link m a u v q ≡ m q
  unfolding link
  link-outside q aa au av =
      write64-outside (write64 (write64 (write64 m (v + 8) a) a v) (a + 8) u) u a q (ground arith)
      ∙ write64-outside (write64 (write64 m (v + 8) a) a v) (a + 8) u q (ground arith)
      ∙ write64-outside (write64 m (v + 8) a) a v q (ground arith)
      ∙ write64-outside m (v + 8) a q (ground arith)

-- A byte that is no part of a link.
pub store-other : (m : Bytes) (q b p : ℕ) → ◌≢◌ {A = ℕ} p q → store m q b p ≡ m p
unfolding store
store-other m q b p ne = ground arith

pub store-same : (m : Bytes) (q b : ℕ) → store m q b q ≡ b
unfolding store
store-same m q b = ground arith

pub read64-store : (m : Bytes) (q b p : ℕ) → Apart p 8 q 1 → read64 (store m q b) p ≡ read64 m p
unfolding read64
read64-store m q b p h =
    rw
      (
        store-other m q b p (omega arith),
        store-other m q b (p + 1) (omega arith),
        store-other m q b (p + 2) (omega arith),
        store-other m q b (p + 3) (omega arith),
        store-other m q b (p + 4) (omega arith),
        store-other m q b (p + 5) (omega arith),
        store-other m q b (p + 6) (omega arith),
        store-other m q b (p + 7) (omega arith),
      )
      refl
