-- ===== src/Tests/Output.antt =====
-- Formatted output.
use rtv.Base.{◌-◌, ◌%◌, ◌^◌, ◌≡◌, inr, refl, if◌then◌else◌, ◌==◌, arith, [], ◌∷◌, some}
use rtv.Base.Run.{ok}
use rtv.Spinlock.Ticket.{IsFree}
use rtv.Screen.Format.{
  Options, word, text, no_options, vprintf, format, directive, round, with_word, with_text,
  add_digit, put_decimal, put_digits, put_digit, print_digits, print_padding, decimal_digits,
  decimal_char, hex_char, hex_digits, put_hex, put_text, put_signed,
}
use rtv.Screen.Numeral.{Numeral, round-Numeral}
use rtv.Screen.Cursor.{Screen, printf}
use rtv.Screen.Printing.{Page, Shows, type_all, printf-Shows}

-- `%04u`
abbrev padded : Options
padded = record no_options { width = 4; padding = 48 }

-- "0042"
vprintf-padded : vprintf (37 ∷ 48 ∷ 52 ∷ 117 ∷ []) (word 42 ∷ []) ≡ some (48 ∷ 48 ∷ 52 ∷ 50 ∷ [])
unfolding vprintf format directive round with_word add_digit put_decimal put_digits put_digit
    print_digits print_padding decimal_digits decimal_char no_options
vprintf-padded = refl

-- "%x%s" of 0xBEEF and "!"
vprintf-hex :
    vprintf (37 ∷ 120 ∷ 37 ∷ 115 ∷ []) (word 0xBEEF ∷ text (33 ∷ []) ∷ [])
    ≡ some (98 ∷ 101 ∷ 101 ∷ 102 ∷ 33 ∷ [])
unfolding vprintf format directive round with_word with_text put_hex put_text put_digits put_digit
    print_digits print_padding hex_digits hex_char no_options
vprintf-hex = refl

-- "%d" of -7
vprintf-negative : vprintf (37 ∷ 100 ∷ []) (word (2 ^ 32 - 7) ∷ []) ≡ some (45 ∷ 55 ∷ [])
unfolding vprintf format directive round with_word put_signed put_decimal put_digits put_digit
    print_digits print_padding decimal_digits decimal_char no_options
vprintf-negative = refl

round-Numeral_example :
    Numeral padded.padding 10 (42 % 2 ^ 32) [] (round padded 117 (word 42 ∷ []))
    × Numeral padded.padding 16
        (42 % 2 ^ (if padded.ells == 2 then 64 else 32))
        []
        (round padded 120 (word 42 ∷ []))
    × Numeral padded.padding 16
        (42 % 2 ^ (if padded.ells == 2 then 64 else 32))
        []
        (round padded 88 (word 42 ∷ []))
round-Numeral_example = round-Numeral padded 42 [] (inr refl)

abbrev blank : Page
blank = record { cells = λ p. 32; at = 79 }

abbrev start : Screen
start = record {
  frame_buf = λ i. if i % 2 == 0 then 32 else 7;
  xpos = 79;
  ypos = 0;
  scr_lock = record { next = 3; owner = 3 };
}

start-Shows : Shows start blank
start-Shows = record {
  column = omega arith;
  line = omega arith;
  place = refl;
  shown = λ p lt. ground arith;
}

printf-Shows_example :
    (s' : Screen) × (printf (37 ∷ 48 ∷ 52 ∷ 117 ∷ []) (word 42 ∷ []) start ≡ ok tt s')
    × Shows s' (type_all (48 ∷ 48 ∷ 52 ∷ 50 ∷ []) blank)
    × IsFree s'.scr_lock
printf-Shows_example =
    printf-Shows (37 ∷ 48 ∷ 52 ∷ 117 ∷ []) (word 42 ∷ []) (48 ∷ 48 ∷ 52 ∷ 50 ∷ []) start-Shows refl
      vprintf-padded
