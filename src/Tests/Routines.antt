-- ===== src/Tests/Routines.antt =====
-- Strings and rounding.
use rtv.Base.{ℕ, ◌+◌, ◌*◌, ◌≤◌, ◌<◌, ◌≡◌, refl, arith, ltb, ◌==◌, some, if◌then◌else◌}
use rtv.Utils.Strings.{Chars, strlen, strncmp, compare_chars, int_difference}
use rtv.Utils.Compared.{Compared, strncmp-Compared, strlen_lem}
use rtv.Utils.Rounding.{ceiling64, ceiling64_lem}

-- "aab" and "aac"
abbrev first : Chars
first i = if ltb i 2 then 97 else if i == 2 then 98 else 0

abbrev second : Chars
second i = if ltb i 2 then 97 else if i == 2 then 99 else 0

strncmp_two : strncmp first second 2 ≡ 0
unfolding strncmp compare_chars int_difference
strncmp_two = refl

strncmp_three : strncmp second first 3 ≡ 1
unfolding strncmp compare_chars int_difference
strncmp_three = refl

strncmp-Compared_example : Compared first second 3 0 (strncmp first second 3)
strncmp-Compared_example = strncmp-Compared first second 3

strlen_lem_example : strlen 10 first ≡ some 3
strlen_lem_example = strlen_lem first 10 3 (omega arith) refl (λ j lt. ground arith)

ceiling64_lem_example :
    (q : ℕ) × (ceiling64 5000 4096 ≡ some (q * 4096)) × (5000 ≤ q * 4096) × (q * 4096 < 5000 + 4096)
ceiling64_lem_example = ceiling64_lem 5000 4096 (omega arith) (omega arith)
