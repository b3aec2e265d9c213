-- ===== src/Physical/Cycle.antt =====
-- Calls in a row: what is taken stays taken, and what is given back is free again.
use rtv.Base.{ℕ, ◌*◌, ◌/◌, ◌≤◌, ◌≡◌, ◌≢◌, inl, inr, ap, sym, ◌∙◌, arith}
use rtv.Base.Run.{ok}
use rtv.Bits.{bit_at, bitmap64_set}
use rtv.Bits.Word.{bit_at-bitmap64_set}
use rtv.Physical.Defs.{Phys, pg_size, alloc_phys_frame, free_phys_frame}
use rtv.Physical.State.{IsReady, free_at, after, after-IsReady}
use rtv.Physical.Frame.{Found, FirstFit, alloc_phys_frame-FirstFit, free_phys_frame_lem}

ok-injective : {s s' : Phys} {a b : ℕ} → ok a s ≡ ok b s' → (a ≡ b) × (s ≡ s')
ok-injective e = (cc, cc)

-- Between calls, with a table of four words or more: where `alloc_phys_frame` returns an address that
-- is not 0, `free_phys_frame` of that address succeeds, and the two calls together leave every frame
-- free or taken as it was.
pub free_phys_frame-alloc_phys_frame :
    {s : Phys} (addr : ℕ) (s' : Phys)
    → IsReady s
    → 4 ≤ s.entry_end
    → alloc_phys_frame s ≡ ok addr s'
    → addr ≢ 0
    → (s'' : Phys) × (free_phys_frame addr s' ≡ ok tt s'') × ((j : ℕ) → free_at s'' j ≡ free_at s j)
free_phys_frame-alloc_phys_frame {s} addr s' ready four e ne =
    given (alloc_phys_frame-FirstFit ready four)
  where
    given :
        FirstFit s 256 (s.entry_end * 64) (alloc_phys_frame s)
        → (s'' : Phys) × (free_phys_frame addr s' ≡ ok tt s'')
          × ((j : ℕ) → free_at s'' j ≡ free_at s j)
    given (inr x) = absurd (ne (sym (ok-injective (sym x.returns ∙ e)).0))
    given (inl f) =
        let (same, state) = ok-injective (sym f.returns ∙ e) in
        let ready' : IsReady s' = rw (← state) (after-IsReady ready f.table f.words) in
        let below = f.below in
        let fits = ready.fits in
        let index : addr / pg_size ≡ f.frame = omega arith in
        (
          after s' (bitmap64_set s'.mm_table (addr / pg_size)),
          free_phys_frame_lem ready' addr (omega arith),
          λ j. ground (
            arith,
            bit_at-bitmap64_set s'.mm_table (addr / pg_size) j,
            f.taken j,
            ap (λ (t : Phys). bit_at t.mm_table j) state,
            f.was_free,
            index,
          ),
        )

-- Between calls, with a table of four words or more: two addresses that `alloc_phys_frame` returns in
-- a row, neither of them 0, are different.
pub alloc_phys_frame-ne :
    {s : Phys} (a b : ℕ) (s' s'' : Phys)
    → IsReady s
    → 4 ≤ s.entry_end
    → alloc_phys_frame s ≡ ok a s'
    → alloc_phys_frame s' ≡ ok b s''
    → a ≢ 0
    → b ≢ 0
    → a ≢ b
alloc_phys_frame-ne {s} a b s' s'' ready four e e' ne ne' =
    given (alloc_phys_frame-FirstFit ready four)
  where
    second :
        (f : Found s 256 (s.entry_end * 64) (alloc_phys_frame s))
        → (a ≡ f.frame * pg_size)
        → after s f.table ≡ s'
        → FirstFit s' 256 (s'.entry_end * 64) (alloc_phys_frame s')
        → a ≢ b
    second f same state (inr x) = λ _. ne' (sym (ok-injective (sym x.returns ∙ e')).0)
    second f same state (inl g) = λ eq.
        let again : b ≡ g.frame * pg_size = sym (ok-injective (sym g.returns ∙ e')).0 in
        let frames : f.frame ≡ g.frame = omega arith in
        ground (
          arith,
          g.was_free,
          ap (λ (t : Phys). bit_at t.mm_table g.frame) state,
          f.taken g.frame,
          frames,
        )

    given : FirstFit s 256 (s.entry_end * 64) (alloc_phys_frame s) → a ≢ b
    given (inr x) = absurd (ne (sym (ok-injective (sym x.returns ∙ e)).0))
    given (inl f) =
        let (same, state) = ok-injective (sym f.returns ∙ e) in
        second f (sym same) state (
          alloc_phys_frame-FirstFit (rw (← state) (after-IsReady ready f.table f.words))
            (rw (← state) four))
