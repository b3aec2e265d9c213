-- ===== src/Heap/Rings.antt =====
-- The circular lists of all buckets at once. `pos e k` is the place of the list of entry `e` that `k`
-- steps lead to from its head, and `len e` the number of its blocks.
use native.Mathlib.Decide.{ℕ_discrete}
use rtv.Base.{
  ℕ, ◌+◌, ◌-◌, ◌^◌, ◌≤◌, ◌<◌, ◌≡◌, ◌⊎◌, inl, inr, refl, ap, ◌∙◌, ◌==◌, ◌&&◌, leb, if◌then◌else◌,
  arith,
}
use rtv.Heap.{Bytes, next_of, prev_of, bucket, buddy_entries}
use rtv.Heap.Links.{Apart, Separate}

abbrev pub Places : Type 0
Places = ℕ → ℕ → ℕ

pub record Rings (bsystem : ℕ) (m : Bytes) (pos : Places) (len : ℕ → ℕ) : Type 0 where
  pub first : (e : ℕ) → e < buddy_entries → pos e 0 ≡ bucket bsystem e
  pub last : (e : ℕ) → e < buddy_entries → pos e (len e + 1) ≡ pos e 0
  pub forward : (e k : ℕ) → e < buddy_entries → k ≤ len e → next_of m (pos e k) ≡ pos e (k + 1)
  pub backward : (e k : ℕ) → e < buddy_entries → k ≤ len e → prev_of m (pos e (k + 1)) ≡ pos e k
  pub small : (e k : ℕ) → e < buddy_entries → k ≤ len e → pos e k < 2 ^ 64
  pub apart :
      (e k e' k' : ℕ)
      → e < buddy_entries
      → e' < buddy_entries
      → k ≤ len e
      → k' ≤ len e'
      → ((e ≡ e') × (k ≡ k')) ⊎ Apart (pos e k) 16 (pos e' k') 16

-- The places when the block of entry `e` behind place `i` is taken out, and when `a` is put in first.
unfoldable pub without : Places → (e i : ℕ) → Places
without pos e i e' k = if e' == e then (if leb k i then pos e' k else pos e' (k + 1)) else pos e' k

unfoldable pub with_first : Places → (e a : ℕ) → Places
with_first pos e a e' k =
    if e' == e
    then (if k == 0 then pos e' k else if k == 1 then a else pos e' (k - 1))
    else pos e' k

unfoldable pub put : (ℕ → ℕ) → (e n : ℕ) → ℕ → ℕ
put len e n e' = if e' == e then n else len e'

module _ {bsystem : ℕ} {m : Bytes} {pos : Places} {len : ℕ → ℕ} (r : Rings bsystem m pos len) where
  pub same_place :
      (e k e' k' : ℕ)
      → e < buddy_entries
      → e' < buddy_entries
      → k ≤ len e
      → k' ≤ len e'
      → pos e k ≡ pos e' k'
      → (e ≡ e') × (k ≡ k')
  same_place e k e' k' he he' hk hk' same = elim (r.apart e k e' k' he he' hk hk') [
    | inl h ↦ h
    | inr h ↦ absurd (omega arith)
  ]

  pub separate :
      (e k e' k' : ℕ)
      → e < buddy_entries
      → e' < buddy_entries
      → k ≤ len e
      → k' ≤ len e'
      → Separate (pos e k) (pos e' k')
  separate e k e' k' he he' hk hk' = elim (r.apart e k e' k' he he' hk hk') [
    | inl h ↦ inl (rw (h.0, h.1) refl)
    | inr h ↦ inr h
  ]

  -- The place behind `k`, as one of the ring's own.
  abbrev pub follow : ℕ → ℕ → ℕ
  follow e k = if k == len e then 0 else k + 1

  pub follow_lem :
      (e k : ℕ)
      → e < buddy_entries
      → k ≤ len e
      → (pos e (k + 1) ≡ pos e (follow e k)) × (follow e k ≤ len e)
  follow_lem e k he hk = elim (ℕ_discrete k (len e)) [
    | yes same ↦ (rw same (r.last e he ∙ ap (pos e) (ground arith)), ground arith)
    | no other ↦ (ap (pos e) (ground arith), ground arith)
  ]

  same_follow :
      (e k e' k' : ℕ)
      → e < buddy_entries
      → e' < buddy_entries
      → k ≤ len e
      → k' ≤ len e'
      → pos e (k + 1) ≡ pos e' (k' + 1)
      → (e ≡ e') × (k ≡ k')
  same_follow e k e' k' he he' hk hk' same =
      let (f, b) = follow_lem e k he hk in
      let (f', b') = follow_lem e' k' he' hk' in
      let (ee, kk) = same_place e (follow e k) e' (follow e' k') he he' b b' (omega arith) in
      (ee, let l = ap len ee in ground arith)

  pub Separate-follow :
      (e k e' k' : ℕ)
      → e < buddy_entries
      → e' < buddy_entries
      → k ≤ len e
      → k' ≤ len e'
      → Separate (pos e (k + 1)) (pos e' k')
  Separate-follow e k e' k' he he' hk hk' =
      let (f, b) = follow_lem e k he hk in rw f (separate e (follow e k) e' k' he he' b hk')

  pub Separate-follows :
      (e k e' k' : ℕ)
      → e < buddy_entries
      → e' < buddy_entries
      → k ≤ len e
      → k' ≤ len e'
      → Separate (pos e (k + 1)) (pos e' (k' + 1))
  Separate-follows e k e' k' he he' hk hk' =
      let (f, b) = follow_lem e' k' he' hk' in
      rw f (Separate-follow e k e' (follow e' k') he he' hk b)

  pub small_follow : (e k : ℕ) → e < buddy_entries → k ≤ len e → pos e (k + 1) < 2 ^ 64
  small_follow e k he hk = let (f, b) = follow_lem e k he hk in rw f (r.small e (follow e k) he b)

  pub place_test :
      (e k e' k' : ℕ)
      → e < buddy_entries
      → e' < buddy_entries
      → k ≤ len e
      → k' ≤ len e'
      → (pos e k == pos e' k') ≡ (e == e' && k == k')
  place_test e k e' k' he he' hk hk' = elim (ℕ_discrete (pos e k) (pos e' k')) [
    | yes same ↦ let (ee, kk) = same_place e k e' k' he he' hk hk' same in ground arith
    | no other ↦ elim (ℕ_discrete e e') [
      | yes ee ↦ elim (ℕ_discrete k k') [
        | yes kk ↦ absurd (other (rw (ee, kk) refl))
        | no ne ↦ ground arith
      ]
      | no ne ↦ ground arith
    ]
  ]

  pub follow_test :
      (e k e' k' : ℕ)
      → e < buddy_entries
      → e' < buddy_entries
      → k ≤ len e
      → k' ≤ len e'
      → (pos e (k + 1) == pos e' (k' + 1)) ≡ (e == e' && k == k')
  follow_test e k e' k' he he' hk hk' = elim (ℕ_discrete (pos e (k + 1)) (pos e' (k' + 1))) [
    | yes same ↦ let (ee, kk) = same_follow e k e' k' he he' hk hk' same in ground arith
    | no other ↦ elim (ℕ_discrete e e') [
      | yes ee ↦ elim (ℕ_discrete k k') [
        | yes kk ↦ absurd (other (rw (ee, kk) refl))
        | no ne ↦ ground arith
      ]
      | no ne ↦ ground arith
    ]
  ]
