-- ===== src/Screen/Numeral.antt =====
-- The numerals that vprintf prints, read back.
use native.Mathlib.Nat.{mod-eq_of_lt}
use rtv.Base.{
  ℕ, zero, suc, ap, leb, ◌||◌, ◌+◌, ◌-◌, ◌*◌, ◌%◌, ◌^◌, ◌<◌, ◌≡◌, ◌≢◌, ◌⊎◌, inl, inr, refl, ◌∙◌,
  Bool, true, false, ◌&&◌, ◌==◌, ltb, if◌then◌else◌, List, [], ◌∷◌, ◌++◌, arith, Bool-cases,
}
use rtv.Screen.Digits.{value, Below, length, divisors, hex_digits-value, decimal_digits-value}
use rtv.Screen.Format.{
  Text, Arg, word, Options, put_digits, hex_char, decimal_char, hex_digits, decimal_digits,
  print_digits, print_padding, put_digit, put_hex, put_decimal, Round, finished, round, directive,
  with_word,
}

-- The value of a numeral, spaces in front of it left out.
unfoldable pub char_value : ℕ → ℕ
char_value c = if ltb c 58 then c - 48 else if ltb c 71 then c - 55 else c - 87

unfoldable pub read : (base acc : ℕ) → Text → ℕ
read base acc [] = acc
read base acc (c ∷ cs) =
    if c == 32 then read base acc cs else read base (acc * base + char_value c) cs

-- `0` to `9`, and for base 16 `A` to `F` and `a` to `f`.
abbrev pub is_digit : (base c : ℕ) → Bool
is_digit base c =
    (leb 48 c && ltb c 58) || ((base == 16) && ((leb 65 c && ltb c 71) || (leb 97 c && ltb c 103)))

abbrev pub AllDigits : (base : ℕ) → Text → Type 0
AllDigits base [] = Unit {0}
AllDigits base (c ∷ cs) = (is_digit base c ≡ true) × AllDigits base cs

abbrev pub run_of : (pad count : ℕ) → Text
run_of pad zero = []
run_of pad (suc count) = pad ∷ run_of pad count

-- Padding, and behind it at least one digit, and nothing else.
pub record IsPadded (pad base : ℕ) (out : Text) : Type 0 where
  pub blanks : ℕ
  pub digits : Text
  pub parts : out ≡ run_of pad blanks ++ digits
  pub all : AllDigits base digits
  pub nonempty : digits ≢ []

-- A character that shows a digit reads as the digit.
abbrev Shows : (ℕ → ℕ) → ℕ → Type 0
Shows show base =
    (q : ℕ)
    → q < base
    → (char_value (show q) ≡ q) × ((show q == 32) ≡ false) × (is_digit base (show q) ≡ true)

hex_char-Shows : (upper : Bool) → Shows (hex_char upper) 16
unfolding hex_char char_value
hex_char-Shows true q lt = (ground arith, ground arith, ground arith)
hex_char-Shows false q lt = (ground arith, ground arith, ground arith)

decimal_char-Shows : Shows decimal_char 10
unfolding decimal_char char_value
decimal_char-Shows q lt = (ground arith, ground arith, ground arith)

cons-nonempty : (c : ℕ) (s : Text) → c ∷ s ≢ []
cons-nonempty c s e = cc e

module _ (o : Options) (max_w : ℕ) (show : ℕ → ℕ) (base : ℕ) (shows : Shows show base)
    (pad_char : (o.padding ≡ 32) ⊎ (o.padding ≡ 48)) where
  -- Padding in front of the numeral does not count.
  read-padding : (rest : Text) → read base 0 (o.padding ∷ rest) ≡ read base 0 rest
  unfolding read char_value
  read-padding rest = elim pad_char [ inl e ↦ rw e | inr e ↦ rw (e, none) ]
    where
      none : 0 * base + 0 ≡ 0
      none = omega arith

  read-show :
      (acc q : ℕ) (rest : Text)
      → q < base
      → read base acc (show q ∷ rest) ≡ read base (acc * base + q) rest
  unfolding read
  read-show acc q rest lt = let (v, n, d) = shows q lt in rw (n, v)

  read-put_digit :
      (acc q : ℕ) (pad seen : Bool) (rest : Text)
      → q < base
      → (seen ≡ true) ⊎ ((acc ≡ 0) × (q ≡ 0))
      → read base acc (put_digit o show q pad seen ++ rest) ≡ read base (acc * base + q) rest
  unfolding put_digit
  read-put_digit acc q pad true rest lt so_far = read-show acc q rest lt
  read-put_digit acc q pad false rest lt (inl e) = absurd (cc e)
  read-put_digit acc q pad false rest lt (inr (zero_acc, zero_q)) =
      rw (zero_acc, zero_q, none) (blank pad)
    where
      none : 0 * base + 0 ≡ 0
      none = omega arith

      blank :
          (p : Bool)
          → read base 0 ((if 0 == 0 && p then o.padding ∷ [] else []) ++ rest) ≡ read base 0 rest
      blank true = read-padding rest
      blank false = refl

  print_digits-false :
      (i q : ℕ) (seen : Bool) → print_digits o max_w i q seen ≡ false → (seen ≡ false) × (q ≡ 0)
  unfolding print_digits
  print_digits-false i q seen e = ground arith

  read-put_digits :
      (qs : List ℕ) (acc i : ℕ) (pad seen : Bool)
      → Below base qs
      → (seen ≡ true) ⊎ (acc ≡ 0)
      → read base acc (put_digits o max_w show i pad seen qs) ≡ value base acc qs
  unfolding put_digits value
  read-put_digits [] acc i pad seen below so_far = unfold read in refl
  read-put_digits (q ∷ qs) acc i pad seen (lt, below) so_far =
      read-put_digit acc q pad' seen' (put_digits o max_w show (i + 1) pad' seen' qs) lt
        (fits (Bool-cases seen'))
      ∙ read-put_digits qs (acc * base + q) (i + 1) pad' seen' below (later (Bool-cases seen'))
    where
      seen' : Bool
      seen' = print_digits o max_w i q seen

      pad' : Bool
      pad' = print_padding o max_w i q pad seen

      none : seen' ≡ false → (acc ≡ 0) × (q ≡ 0)
      none e = let (s, z) = print_digits-false i q seen e in (ground arith, z)

      fits : (seen' ≡ true) ⊎ (seen' ≡ false) → (seen' ≡ true) ⊎ ((acc ≡ 0) × (q ≡ 0))
      fits (inl e) = inl e
      fits (inr e) = inr (none e)

      later : (seen' ≡ true) ⊎ (seen' ≡ false) → (seen' ≡ true) ⊎ (acc * base + q ≡ 0)
      later (inl e) = inl e
      later (inr e) = let (a, z) = none e in inr (rw (a, z) (omega arith))

  -- Behind the first digit there are only digits.
  put_digits-AllDigits :
      (qs : List ℕ) (i : ℕ) (pad : Bool)
      → Below base qs
      → AllDigits base (put_digits o max_w show i pad true qs)
  unfolding put_digits put_digit print_digits
  put_digits-AllDigits [] i pad below = tt
  put_digits-AllDigits (q ∷ qs) i pad (lt, below) =
      ((shows q lt).2, put_digits-AllDigits qs (i + 1) (print_padding o max_w i q pad true) below)

  -- A round that prints no digit prints padding or nothing.
  put_digit-IsPadded :
      (q : ℕ) (pad : Bool) (rest : Text)
      → IsPadded o.padding base rest
      → IsPadded o.padding base (put_digit o show q pad false ++ rest)
  unfolding put_digit
  put_digit-IsPadded q pad rest r = elim (Bool-cases (q == 0 && pad)) [
    | inl e ↦ rw e (record {
      blanks = suc r.blanks;
      digits = r.digits;
      parts = ap (λ (t : Text). o.padding ∷ t) r.parts;
      all = r.all;
      nonempty = r.nonempty;
    })
    | inr e ↦ rw e r
  ]

  -- The last digit is printed in any case.
  put_digits-IsPadded :
      (qs : List ℕ) (i : ℕ) (pad seen : Bool)
      → Below base qs
      → 0 < length qs
      → i + length qs ≡ max_w
      → IsPadded o.padding base (put_digits o max_w show i pad seen qs)
  unfolding put_digits
  put_digits-IsPadded [] i pad seen below nonempty ends = absurd (omega arith)
  put_digits-IsPadded (q ∷ qs) i pad seen (lt, below) nonempty ends =
      elim (Bool-cases (print_digits o max_w i q seen)) [
        | inl e ↦ rw e (
            unfold put_digit in
            record {
              blanks = 0;
              digits =
                  show q
                  ∷ put_digits o max_w show (i + 1) (print_padding o max_w i q pad seen) true qs;
              parts = refl;
              all = (
                (shows q lt).2,
                put_digits-AllDigits qs (i + 1) (print_padding o max_w i q pad seen) below,
              );
              nonempty =
                  cons-nonempty (show q)
                    (put_digits o max_w show (i + 1) (print_padding o max_w i q pad seen) true qs);
            })
        | inr e ↦
            let more : 0 < length qs = not_last qs ends e in
            rw e (
              put_digit-IsPadded q (print_padding o max_w i q pad seen)
                (put_digits o max_w show (i + 1) (print_padding o max_w i q pad seen) false qs)
                (put_digits-IsPadded qs (i + 1) (print_padding o max_w i q pad seen) false below
                  more (omega arith)))
      ]
    where
      not_last :
          (qs : List ℕ)
          → i + length (q ∷ qs) ≡ max_w
          → print_digits o max_w i q seen ≡ false
          → 0 < length qs
      not_last [] ends e = absurd (cc (last ends, e))
        where
          last : i + 1 ≡ max_w → print_digits o max_w i q seen ≡ true
          last ends = unfold print_digits in ground arith
      not_last (r ∷ qs) ends e = omega arith

-- A directive printed a numeral for `n`, and used one argument.
pub record Numeral (pad base n : ℕ) (args : List Arg) (r : Round) : Type 0 where
  pub out : Text
  pub returns : r ≡ finished out args
  pub reads_back : read base 0 out ≡ n
  pub shape : IsPadded pad base out

-- The characters that vprintf pads with.
abbrev pub PadsWell : Options → Type 0
PadsWell o = (o.padding ≡ 32) ⊎ (o.padding ≡ 48)

module _ (o : Options) (pads : PadsWell o) where
  put_decimal-value :
      (x : ℕ)
      → x < 2 ^ 32
      → (read 10 0 (put_decimal o x) ≡ x) × IsPadded o.padding 10 (put_decimal o x)
  unfolding put_decimal
  put_decimal-value x lt =
      let (b, v) = decimal_digits-value 10 0 x (omega arith) in
      (
        read-put_digits o 10 decimal_char 10 decimal_char-Shows pads
              (decimal_digits (divisors 10) x) 0 0 false false b (inr refl)
            ∙ v
            ∙ omega arith,
        put_digits-IsPadded o 10 decimal_char 10 decimal_char-Shows pads
            (decimal_digits (divisors 10) x) 0 false false b (unfold decimal_digits in omega arith)
            (unfold decimal_digits in refl),
      )

  put_hex_digits :
      (w : ℕ) (upper : Bool) (x : ℕ)
      → 0 < w
      → x < 2 ^ (w * 4)
      → (read 16 0 (put_digits o w (hex_char upper) 0 false false (hex_digits w x)) ≡ x)
        × IsPadded o.padding 16 (put_digits o w (hex_char upper) 0 false false (hex_digits w x))
  put_hex_digits w upper x pos lt =
      let (b, v, l) = hex_digits-value w 0 x in
      (
        read-put_digits o w (hex_char upper) 16 (hex_char-Shows upper) pads (hex_digits w x) 0 0
              false false b (inr refl)
            ∙ v
            ∙ omega (arith, mod-eq_of_lt lt),
        put_digits-IsPadded o w (hex_char upper) 16 (hex_char-Shows upper) pads (hex_digits w x) 0
            false false b (rw l pos) (rw l (omega arith)),
      )

  put_hex-value :
      (x : ℕ)
      → (read 16 0 (put_hex o x) ≡ x % 2 ^ (if o.ells == 2 then 64 else 32))
        × IsPadded o.padding 16 (put_hex o x)
  unfolding put_hex
  put_hex-value x = elim (Bool-cases (o.ells == 2)) [
    | inl e ↦ rw e (put_hex_digits 16 o.upper (x % 2 ^ 64) (omega arith) (omega arith))
    | inr e ↦ rw e (put_hex_digits 8 o.upper (x % 2 ^ 32) (omega arith) (omega arith))
  ]

-- Whatever width, precision, padding and letters a directive has asked for: `%u` prints a numeral that
-- reads back as its argument modulo 2 ^ 32, and `%x` and `%X` one that reads back as the argument
-- modulo 2 ^ 64 after `ll` and modulo 2 ^ 32 otherwise. Each is a run of the padding character, which may
-- be empty, and at least one digit of the base behind it, and nothing else.
pub round-Numeral :
    (o : Options) (x : ℕ) (args : List Arg)
    → PadsWell o
    → Numeral o.padding 10 (x % 2 ^ 32) args (round o 117 (word x ∷ args))
      × Numeral o.padding 16
          (x % 2 ^ (if o.ells == 2 then 64 else 32))
          args
          (round o 120 (word x ∷ args))
      × Numeral o.padding 16
          (x % 2 ^ (if o.ells == 2 then 64 else 32))
          args
          (round o 88 (word x ∷ args))
unfolding round directive with_word
round-Numeral o x args pads =
    let (d, d') = put_decimal-value o pads (x % 2 ^ 32) (omega arith) in
    let small : Options = record o { upper = false } in
    let large : Options = record o { upper = true && o.upper } in
    let (h, h') = put_hex-value small pads x in
    let (l, l') = put_hex-value large pads x in
    (
      record { out = put_decimal o (x % 2 ^ 32); returns = refl; reads_back = d; shape = d' },
      record { out = put_hex small x; returns = refl; reads_back = h; shape = h' },
      record { out = put_hex large x; returns = refl; reads_back = l; shape = l' },
    )
