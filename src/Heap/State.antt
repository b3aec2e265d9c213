-- ===== src/Heap/State.antt =====
-- The heap's memory against the kinds of its blocks and the places of its lists.
use native.Mathlib.Decide.{ℕ_discrete}
use native.Mathlib.Nat.{eq_of_mul-eq-mul_right}
use rtv.Base.{ℕ, ◌+◌, ◌-◌, ◌*◌, ◌≤◌, ◌<◌, ◌≡◌, ◌≢◌, ◌⊎◌, inl, inr, ap, ◌∙◌, arith}
use rtv.Heap.{Bytes, malloc_base, buddy_entries, used_tag}
use rtv.Heap.Links.{Apart}
use rtv.Heap.Rings.{Places, Rings}
use rtv.Heap.Layout.{
  held, taken, listed, vacant, Kinds, block_size, begin, final, IsLayout, block_size_min,
  leaves-Disjoint,
}

-- The lists hold the blocks that are listed or vacant, and the tags are those of the kinds.
pub record IsHeap (bsystem : ℕ) (m : Bytes) (kind : Kinds) (pos : Places) (len : ℕ → ℕ)
    : Type 0 where
  pub placed : bsystem + 24 * buddy_entries ≤ malloc_base
  pub rings : Rings bsystem m pos len
  pub layout : IsLayout kind
  pub members :
      (e k : ℕ)
      → e < buddy_entries
      → k < len e
      → (i : ℕ) × (listed ≤ kind e i) × (pos e (k + 1) ≡ begin e i)
  pub places :
      (e i : ℕ)
      → e < buddy_entries
      → listed ≤ kind e i
      → (k : ℕ) × (k < len e) × (pos e (k + 1) ≡ begin e i)
  pub tags : (e i : ℕ) → e < buddy_entries → kind e i ≡ vacant → m (final e i) ≡ e
  pub used :
      (e i : ℕ)
      → e < buddy_entries
      → kind e i ≡ taken
      → (m (final e i) ≡ used_tag) × (m (begin e i) ≡ e)

-- A byte of a block, but for the links of one that stands in a list.
pub record IsQuiet (kind : Kinds) (e i q : ℕ) : Type 0 where
  pub level : e < buddy_entries
  pub leaf : held ≤ kind e i
  pub from : begin e i ≤ q
  pub to : q < begin e i + block_size e
  pub behind : (kind e i ≤ taken) ⊎ (begin e i + 16 ≤ q)

-- The last byte of a block, and the first one of a block that is in use.
pub final-IsQuiet :
    (kind : Kinds) (e i : ℕ) → e < buddy_entries → held ≤ kind e i → IsQuiet kind e i (final e i)
final-IsQuiet kind e i he leaf =
    let s = block_size_min e in
    record {
      level = he;
      leaf = leaf;
      from = omega arith;
      to = omega arith;
      behind = inr (omega arith);
    }

pub begin-IsQuiet :
    (kind : Kinds) (e i : ℕ)
    → e < buddy_entries
    → held ≤ kind e i
    → kind e i ≤ taken
    → IsQuiet kind e i (begin e i)
begin-IsQuiet kind e i he leaf low =
    let s = block_size_min e in
    record { level = he; leaf = leaf; from = omega arith; to = omega arith; behind = inl low }

-- Two blocks of one size that begin at one place are one.
pub same_begin : (e j i : ℕ) → begin e j ≡ begin e i → j ≡ i
same_begin e j i same = cancel (block_size e) (block_size_min e) same
  where
    cancel : (b : ℕ) → 32 ≤ b → malloc_base + j * b ≡ malloc_base + i * b → j ≡ i
    cancel b pos_b eq = eq_of_mul-eq-mul_right b (omega arith) j i (omega arith)

-- The bytes that are not links are as they were.
abbrev pub SameBytes : Kinds → Bytes → Bytes → Type 0
SameBytes kind m m' = (e i q : ℕ) → IsQuiet kind e i q → m' q ≡ m q

module _ {bsystem : ℕ} {m : Bytes} {kind : Kinds} {pos : Places} {len : ℕ → ℕ}
    (h : IsHeap bsystem m kind pos len) where
  -- Such a byte lies outside all list heads.
  pub quiet-Apart :
      (e i q : ℕ)
      → IsQuiet kind e i q
      → (e' k : ℕ) → e' < buddy_entries
      → k ≤ len e'
      → Apart (pos e' k) 16 q 1
  quiet-Apart e i q quiet e' k he hk = elim (ℕ_discrete k 0) [
    | yes z ↦
        let from = quiet.from in
        let placed = h.placed in rw (z, h.rings.first e' he) (inl (grind arith))
    | no pos_k ↦
        let (j, leaf, at) = h.members e' (k - 1) he (omega arith) in
        rw (ap (pos e') (back pos_k) ∙ at) (
          apart_block j leaf (
            leaves-Disjoint h.layout e' j e i (omega arith) (let l = quiet.level in omega arith)
              (omega arith) quiet.leaf))
  ]
    where
      back : ◌≢◌ {A = ℕ} k 0 → k ≡ k - 1 + 1
      back ne = omega arith

      apart_block :
          (j : ℕ)
          → listed ≤ kind e' j
          → ((e' ≡ e) × (j ≡ i))
            ⊎ ((begin e' j + block_size e' ≤ begin e i) ⊎ (begin e i + block_size e ≤ begin e' j))
          → Apart (begin e' j) 16 q 1
      apart_block j leaf (inl (ee, ji)) =
          let k = ap (λ (n : ℕ). kind n j) ee in
          let k' = ap (kind e) ji in
          rw (ee, ji) (elim quiet.behind [ inl low ↦ absurd (omega arith) | inr far ↦ inl far ])
      apart_block j leaf (inr (inl before)) =
          let from = quiet.from in let s = block_size_min e' in inl (omega arith)
      apart_block j leaf (inr (inr behind)) = let to = quiet.to in inr (omega arith)

  -- A block that is held keeps clear of them, too.
  pub held-Apart :
      (e i : ℕ)
      → e < buddy_entries
      → kind e i ≡ held
      → (e' k : ℕ) → e' < buddy_entries
      → k ≤ len e'
      → Apart (begin e i) 16 (pos e' k) 16
  held-Apart e i he is_held e' k he' hk = elim (ℕ_discrete k 0) [
    | yes z ↦ let placed = h.placed in rw (z, h.rings.first e' he') (inr (grind arith))
    | no pos_k ↦
        let (j, leaf, at) = h.members e' (k - 1) he' (omega arith) in
        rw (ap (pos e') (back pos_k) ∙ at) (
          apart_block j leaf (
            leaves-Disjoint h.layout e' j e i (omega arith) (omega arith) (omega arith)
              (omega arith)))
  ]
    where
      back : ◌≢◌ {A = ℕ} k 0 → k ≡ k - 1 + 1
      back ne = omega arith

      apart_block :
          (j : ℕ)
          → listed ≤ kind e' j
          → ((e' ≡ e) × (j ≡ i))
            ⊎ ((begin e' j + block_size e' ≤ begin e i) ⊎ (begin e i + block_size e ≤ begin e' j))
          → Apart (begin e i) 16 (begin e' j) 16
      apart_block j leaf (inl (ee, ji)) =
          absurd (let k = ap (λ (n : ℕ). kind n j) ee in let k' = ap (kind e) ji in omega arith)
      apart_block j leaf (inr (inl before)) = let s = block_size_min e' in inr (omega arith)
      apart_block j leaf (inr (inr behind)) = let s = block_size_min e in inl (omega arith)
