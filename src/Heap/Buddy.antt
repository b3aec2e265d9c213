-- ===== src/Heap/Buddy.antt =====
-- The address of a block's buddy, which is the other half of the block above.
use Prim.Native.Nat.{bit_xor-bitwise, differ}
use native.Mathlib.Nat.{mul-le-mul_right}
use rtv.Base.{
  ℕ, zero, suc, ◌+◌, ◌-◌, ◌*◌, ◌/◌, ◌%◌, ◌^◌, ◌≤◌, ◌<◌, ◌≡◌, refl, sym, ap, ◌∙◌, ◌==◌,
  if◌then◌else◌, bit_xor, arith,
}
use rtv.Word.{u64, sub64}
use rtv.Word.Step.{bit_xor_step}
use rtv.Heap.{Heap, malloc_base, buddy_of}
use rtv.Heap.Layout.{block_size, begin}

abbrev pub sibling : ℕ → ℕ
sibling i = if i % 2 == 0 then i + 1 else i - 1

xor_zero : (n a : ℕ) → a ≤ n → bit_xor a 0 ≡ a
xor_zero zero a le = rw (none le) (bit_xor-bitwise 0 0)
  where
    none : a ≤ 0 → a ≡ 0
    none le = omega arith
xor_zero (suc n) a le =
    bit_xor_step a 0
    ∙ ap (λ (t : ℕ). t * 2 + differ (a % 2) 0) (xor_zero n (a / 2) (omega arith))
    ∙ digit (a % 2) refl
  where
    digit : (d : ℕ) → d ≡ a % 2 → a / 2 * 2 + differ d 0 ≡ a
    digit zero e = omega arith
    digit (suc d) e = omega arith

double : (x y : ℕ) → bit_xor (x * 2) (y * 2) ≡ bit_xor x y * 2
double x y = bit_xor_step (x * 2) (y * 2) ∙ rw (half x, half y, even x, even y) (omega arith)
  where
    half : (x : ℕ) → x * 2 / 2 ≡ x
    half x = omega arith

    even : (x : ℕ) → x * 2 % 2 ≡ 0
    even x = omega arith

-- Exclusive or with a block's size exchanges the two halves.
abbrev Exchanges : ℕ → Type 0
Exchanges b = (i : ℕ) → bit_xor (i * b) b ≡ sibling i * b

Exchanges-one : Exchanges 1
Exchanges-one i =
    ap (λ (t : ℕ). bit_xor t 1) (one i)
    ∙ bit_xor_step i 1
    ∙ ap (λ (t : ℕ). t * 2 + differ (i % 2) 1) (xor_zero (i / 2) (i / 2) (omega arith))
    ∙ digit (i % 2) refl
  where
    one : (i : ℕ) → i * 1 ≡ i
    one i = omega arith

    digit : (d : ℕ) → d ≡ i % 2 → i / 2 * 2 + differ d 1 ≡ sibling i * 1
    digit zero e = ground arith
    digit (suc zero) e = ground arith
    digit (suc (suc d)) e = absurd (omega arith)

Exchanges-double : (b : ℕ) → Exchanges b → Exchanges (b * 2)
Exchanges-double b h i =
    ap (λ (t : ℕ). bit_xor t (b * 2)) (move i)
    ∙ double (i * b) b
    ∙ ap (λ (t : ℕ). t * 2) (h i)
    ∙ sym (move (sibling i))
  where
    move : (i : ℕ) → i * (b * 2) ≡ i * b * 2
    move i = grind arith

Exchanges-block_size : (e : ℕ) → Exchanges (block_size e)
unfolding block_size
Exchanges-block_size zero = Exchanges-double 16 (
    Exchanges-double 8 (Exchanges-double 4 (Exchanges-double 2 (Exchanges-double 1 Exchanges-one))))
Exchanges-block_size (suc e) = Exchanges-double (block_size e) (Exchanges-block_size e)

pub buddy_of_lem :
    (bsystem : ℕ) (s : Heap) (e i : ℕ)
    → s.mem_base ≡ malloc_base
    → s.size e ≡ block_size e
    → begin e i + block_size e * 2 < 2 ^ 64
    → buddy_of bsystem s (begin e i) e ≡ begin e (sibling i)
buddy_of_lem bsystem s e i base size fits =
    rw (base, size, offset, Exchanges-block_size e i) (small (sibling i * block_size e) near)
  where
    offset : sub64 (begin e i) malloc_base ≡ i * block_size e
    offset = cut (i * block_size e) (grind arith)
      where
        cut :
            (n : ℕ)
            → malloc_base + n < 2 ^ 64
            → (malloc_base + n + 2 ^ 64 - malloc_base) % 2 ^ 64 ≡ n
        cut n lt = omega arith

    bound : (j b : ℕ) → j ≤ i + 1 → j * b ≤ i * b + b
    bound j b le = let m = mul-le-mul_right {m = j} {n = i + 1} b le in grind arith

    near : sibling i * block_size e ≤ i * block_size e + block_size e
    near = bound (sibling i) (block_size e) (ground arith)

    small : (n : ℕ) → n ≤ i * block_size e + block_size e → u64 (n + malloc_base) ≡ malloc_base + n
    small n le = let f = fits in omega arith
