-- ===== src/Base/Pigeonhole.antt =====
-- The pigeonhole principle.
use rtv.Base.Names.{ℕ, zero, suc, ◌≤◌, ◌<◌, ◌≡◌, refl, arith}
use rtv.Base.Tests.{◌==◌, if◌then◌else◌}

-- Different numbers below `n` go to different numbers below `top` only if `n` is at most `top`.
pub pigeonhole :
    (top n : ℕ) (g : ℕ → ℕ)
    → ((k : ℕ) → k < n → g k < top)
    → ((k j : ℕ) → k < n → j < n → g k ≡ g j → k ≡ j)
    → n ≤ top
pigeonhole top zero g below one = omega arith
pigeonhole zero (suc n) g below one = absurd (let b = below 0 (omega arith) in omega arith)
pigeonhole (suc top) (suc n) g below one =
    let rest = pigeonhole top n moved moved_below moved_one in omega arith
  where
    -- The last number takes the place of the one that goes to `top`.
    moved : ℕ → ℕ
    moved k = if g k == top then g n else g k

    moved_at : (k : ℕ) → moved k ≡ (if g k == top then g n else g k)
    moved_at k = refl

    moved_below : (k : ℕ) → k < n → moved k < top
    moved_below k lt =
        let b = below k (omega arith) in
        let l = below n (omega arith) in
        let o = one k n (omega arith) (omega arith) in ground (arith, moved_at k, o)

    moved_one : (k j : ℕ) → k < n → j < n → moved k ≡ moved j → k ≡ j
    moved_one k j lk lj same = ground (
      arith,
      moved_at k,
      moved_at j,
      one k j (omega arith) (omega arith),
      one k n (omega arith) (omega arith),
      one j n (omega arith) (omega arith),
    )
