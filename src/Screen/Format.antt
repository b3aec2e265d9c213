-- ===== src/Screen/Format.antt =====
-- utils/screen.c: vprintf. A string is the list of its characters before the zero byte; the result is
-- what the calls of `putc` print, in their order. Calls with no defined meaning have none: an argument
-- that is missing or of another kind, and a format that ends inside a directive, where the code steps
-- over the zero byte.
use rtv.Base.{
  ℕ, zero, suc, ◌+◌, ◌-◌, ◌*◌, ◌/◌, ◌%◌, ◌^◌, Bool, true, false, not, ◌&&◌, ◌||◌, ◌==◌, ltb, leb,
  if◌then◌else◌, List, [], ◌∷◌, ◌++◌, Option, none, some,
}
use rtv.Word.{shr}

abbrev pub Text : Type 0
Text = List ℕ

-- A variable argument.
pub data Arg : Type 0 where
  word : ℕ → Arg
  text : Text → Arg
  null : Arg

-- What a directive has set so far.
pub record Options : Type 0 where
  pub precision : ℕ
  pub width : ℕ
  pub in_precision : Bool
  pub upper : Bool
  pub ells : ℕ
  pub padding : ℕ

unfoldable pub no_options : Options
no_options = record {
  precision = 0;
  width = 0;
  in_precision = false;
  upper = true;
  ells = 0;
  padding = 32;
}

abbrev pub sub32 : ℕ → ℕ → ℕ
sub32 a b = (a + 2 ^ 32 - b) % 2 ^ 32

-- HANDLE_OPTIONS for digit `q` of round `i`: whether digits are printed from now on, and padding.
unfoldable pub print_digits : Options → (max_w i q : ℕ) → (seen : Bool) → Bool
print_digits o max_w i q seen =
    let seen' = seen || (not (q == 0) || i == max_w - 1) in
    seen' || (q == 0 && (not seen' && leb (sub32 max_w o.precision) i))

unfoldable pub print_padding : Options → (max_w i q : ℕ) → (pad seen : Bool) → Bool
print_padding o max_w i q pad seen =
    let seen' = seen || (not (q == 0) || i == max_w - 1) in
    pad || (q == 0 && (not seen' && leb (sub32 max_w o.width) i))

-- What a round prints.
unfoldable pub put_digit : Options → (ℕ → ℕ) → (q : ℕ) → (pad seen : Bool) → Text
put_digit o show q pad seen =
    if seen then show q ∷ [] else if q == 0 && pad then o.padding ∷ [] else []

-- The rounds of a numeral's loop from round `i` on, over the digits that are left.
unfoldable pub put_digits :
    Options → (max_w : ℕ) → (show : ℕ → ℕ) → (i : ℕ) → (pad seen : Bool) → List ℕ → Text
put_digits o max_w show i pad seen [] = []
put_digits o max_w show i pad seen (q ∷ qs) =
    let seen' = print_digits o max_w i q seen in
    let pad' = print_padding o max_w i q pad seen in
    put_digit o show q pad' seen' ++ put_digits o max_w show (i + 1) pad' seen' qs

-- `'A' + li - 0x0A` or `'0' + li`
unfoldable pub hex_char : Bool → ℕ → ℕ
hex_char upper li = if ltb 9 li then (if upper then 65 else 97) + li - 10 else 48 + li

unfoldable pub decimal_char : ℕ → ℕ
decimal_char q = 48 + q

-- The digits of `x` in `w` rounds, the highest first.
unfoldable pub hex_digits : (w x : ℕ) → List ℕ
hex_digits zero x = []
hex_digits (suc w) x = shr x (w * 4) % 2 ^ 4 ∷ hex_digits w x

abbrev pub base10_u32_divisors : List ℕ
base10_u32_divisors =
    1000000000 ∷ 100000000 ∷ 10000000 ∷ 1000000 ∷ 100000 ∷ 10000 ∷ 1000 ∷ 100 ∷ 10 ∷ 1 ∷ []

unfoldable pub decimal_digits : List ℕ → ℕ → List ℕ
decimal_digits [] x = []
decimal_digits (d ∷ ds) x = x / d ∷ decimal_digits ds (x % d)

unfoldable pub put_hex : Options → ℕ → Text
put_hex o x =
    let w = if o.ells == 2 then 16 else 8 in
    put_digits o w (hex_char o.upper) 0 false false
      (hex_digits w (if o.ells == 2 then x % 2 ^ 64 else x % 2 ^ 32))

unfoldable pub put_decimal : Options → ℕ → Text
put_decimal o x = put_digits o 10 decimal_char 0 false false (decimal_digits base10_u32_divisors x)

-- An `int32_t` in two's complement; `x *= -1` of the least one wraps around.
unfoldable pub put_signed : Options → ℕ → Text
put_signed o x = if ltb x (2 ^ 31) then put_decimal o x else 45 ∷ put_decimal o (2 ^ 32 - x)

unfoldable pub take : ℕ → Text → Text
take zero s = []
take (suc n) [] = []
take (suc n) (c ∷ s) = c ∷ take n s

unfoldable pub put_text : Options → Text → Text
put_text o s = if ltb 0 o.precision then take o.precision s else s

-- "(null)"
abbrev pub null_text : Text
null_text = 40 ∷ 110 ∷ 117 ∷ 108 ∷ 108 ∷ 41 ∷ []

-- The cases of the inner switch.
pub data Directive : Type 0 where
  hex : Bool → Directive
  unsigned signed string percent long dot digit other : Directive

unfoldable pub directive : ℕ → Directive
directive c =
    if c == 120
    then hex false
    else if c == 88
    then hex true
    else if c == 117
    then unsigned
    else if c == 100
    then signed
    else if c == 115
    then string
    else if c == 37
    then percent
    else if c == 108
    then long
    else if c == 46
    then dot
    else if leb 48 c && leb c 57
    then digit
    else other

-- One round of the inner loop: the directive is finished, or goes on, or has no meaning.
pub data Round : Type 0 where
  finished : (out : Text) (args : List Arg) → Round
  goes_on : Options → Round
  undefined : Round

unfoldable pub with_word : List Arg → (ℕ → Text) → Round
with_word [] put = undefined
with_word (word x ∷ args) put = finished (put x) args
with_word (text s ∷ args) put = undefined
with_word (null ∷ args) put = undefined

unfoldable pub with_text : List Arg → (Text → Text) → Round
with_text [] put = undefined
with_text (word x ∷ args) put = undefined
with_text (text s ∷ args) put = finished (put s) args
with_text (null ∷ args) put = finished null_text args

unfoldable pub add_digit : Options → ℕ → Options
add_digit o c =
    if o.in_precision
    then record o { precision = (o.precision * 10 + (c - 48)) % 2 ^ 32 }
    else if o.width == 0 && c == 48
    then record o { padding = 48 }
    else record o { width = (o.width * 10 + (c - 48)) % 2 ^ 32 }

unfoldable pub round : Options → ℕ → List Arg → Round
round o c args = elim (directive c) [
  | hex upper ↦ with_word args (put_hex (record o { upper = upper && o.upper }))
  | unsigned ↦ with_word args (λ x. put_decimal o (x % 2 ^ 32))
  | signed ↦ with_word args (λ x. put_signed o (x % 2 ^ 32))
  | string ↦ with_text args (put_text o)
  | percent ↦ finished (37 ∷ []) args
  | long ↦ goes_on (record o { ells = o.ells + 1 })
  | dot ↦ goes_on (record o { in_precision = true })
  | digit ↦ goes_on (add_digit o c)
  | other ↦ goes_on o
]

-- The outer loop, and with options the inner loop of a directive.
unfoldable pub format : Text → Option Options → List Arg → Option Text
format [] none args = some []
format [] (some o) args = none
format (c ∷ fmt) none args = elim (c == 37) [
  | true ↦ format fmt (some no_options) args
  | false ↦ elim (format fmt none args) [ none ↦ none | some rest ↦ some (c ∷ rest) ]
]
format (c ∷ fmt) (some o) args = elim (round o c args) [
  | finished out args' ↦ elim (format fmt none args') [
    | none ↦ none
    | some rest ↦ some (out ++ rest)
  ]
  | goes_on o' ↦ format fmt (some o') args
  | undefined ↦ none
]

unfoldable pub vprintf : Text → List Arg → Option Text
vprintf fmt args = format fmt none args
