-- ===== src/Utils/Strings.antt =====
-- utils/string.c. A `char *` is the function from an offset to the byte there, read as `unsigned char`.
use rtv.Base.{ℕ, zero, suc, ◌+◌, ◌-◌, ◌%◌, ◌^◌, not, ◌||◌, ◌==◌, Option, none, some, if◌then◌else◌}

abbrev pub Chars : Type 0
Chars = ℕ → ℕ

-- The loop of strlen, which ends at the first zero byte; `none` is no zero byte within the fuel.
unfoldable pub count_chars : Chars → (fuel len : ℕ) → Option ℕ
count_chars str zero len = none
count_chars str (suc fuel) len =
    let rest = count_chars str fuel (len + 1) in if str len == 0 then some len else rest

unfoldable pub strlen : (fuel : ℕ) → Chars → Option ℕ
strlen fuel str = count_chars str fuel 0

-- `c1 - c2` as an `int`, in the two's complement of 32 bits.
unfoldable pub int_difference : ℕ → ℕ → ℕ
int_difference c1 c2 = (c1 + 2 ^ 32 - c2) % 2 ^ 32

-- The loop of strncmp at offset `i`, with the bytes `c1` and `c2` of the round before.
unfoldable pub compare_chars : Chars → Chars → (n i c1 c2 : ℕ) → ℕ
compare_chars s1 s2 zero i c1 c2 = int_difference c1 c2
compare_chars s1 s2 (suc n) i c1 c2 =
    let rest = compare_chars s1 s2 n (i + 1) (s1 i) (s2 i) in
    if s1 i == 0 || not (s1 i == s2 i) then int_difference (s1 i) (s2 i) else rest

unfoldable pub strncmp : Chars → Chars → ℕ → ℕ
strncmp s1 s2 n = compare_chars s1 s2 n 0 0 0
