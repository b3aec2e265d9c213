-- ===== src/Screen/Printing.antt =====
-- The screen as a typewriter's page: printf implements it.
use rtv.Base.{
  ℕ, ◌+◌, ◌*◌, ◌/◌, ◌%◌, ◌^◌, ◌<◌, ◌≡◌, refl, ap, ◌∙◌, Bool, true, false, ◌||◌, ◌==◌, ltb, leb,
  if◌then◌else◌, List, [], ◌∷◌, some, arith, Bool-cases, inl, inr,
}
use rtv.Base.Run.{ok}
use rtv.Bits.{store}
use rtv.Spinlock.{u16, spin_lock, spin_unlock}
use rtv.Spinlock.Ticket.{IsFree}
use rtv.Screen.Format.{Text, Arg, vprintf}
use rtv.Screen.Cursor.{
  Screen, columns, lines, attribute, lock_screen, unlock_screen, newline, write_byte, putchar,
  put_all, printf,
}

-- The page is one row of cells, of which the next one is at the cursor.
pub record Page : Type 0 where
  pub cells : ℕ → ℕ
  pub at : ℕ

unfoldable pub is_newline : ℕ → Bool
is_newline c = c == 10 || c == 13

-- A newline goes to the next multiple of the line's length, and the page starts again behind its end.
unfoldable pub type_char : ℕ → Page → Page
type_char c v =
    if is_newline c
    then record v { at = (v.at / columns + 1) * columns % (lines * columns) }
    else record { cells = store v.cells v.at (c % 2 ^ 8); at = (v.at + 1) % (lines * columns) }

unfoldable pub type_all : Text → Page → Page
type_all [] v = v
type_all (c ∷ cs) v = type_all cs (type_char c v)

-- The screen shows the page, and the cursor is on it.
pub record Shows (s : Screen) (v : Page) : Type 0 where
  pub column : s.xpos < columns
  pub line : s.ypos < lines
  pub place : s.xpos + s.ypos * columns ≡ v.at
  pub shown : (p : ℕ) → p < lines * columns → s.frame_buf (p * 2) ≡ v.cells p

newline-Shows :
    (s : Screen) (v : Page)
    → s.ypos < lines
    → s.ypos ≡ v.at / columns
    → ((p : ℕ) → p < lines * columns → s.frame_buf (p * 2) ≡ v.cells p)
    → Shows (newline s) (record v { at = (v.at / columns + 1) * columns % (lines * columns) })
unfolding newline
newline-Shows s v line row shown = elim (Bool-cases (leb lines ((s.ypos + 1) % 2 ^ 16))) [
  | inl e ↦
      rw e
        (record { column = omega arith; line = omega arith; place = ground arith; shown = shown })
  | inr e ↦
      rw e
        (record { column = omega arith; line = ground arith; place = ground arith; shown = shown })
]

module _ {s : Screen} {v : Page} (sh : Shows s v) (c : ℕ) where
  putchar-newline : is_newline c ≡ true → putchar c s ≡ ok tt (newline s)
  unfolding putchar is_newline
  putchar-newline e = rw e

  -- The screen after a character, before the cursor moves.
  abbrev written : Screen
  written = record s {
    frame_buf =
        store (store s.frame_buf ((s.xpos + s.ypos * columns) * 2) (c % 2 ^ 8))
          ((s.xpos + s.ypos * columns) * 2 + 1) attribute;
  }

  putchar-cell :
      is_newline c ≡ false
      → putchar c s
        ≡ ok tt (
            if leb columns ((s.xpos + 1) % 2 ^ 16)
            then newline written
            else record written { xpos = (s.xpos + 1) % 2 ^ 16 })
  unfolding putchar is_newline write_byte
  putchar-cell e = rw (e, first, second)
    where
      first : ltb ((s.xpos + s.ypos * columns) * 2) (lines * columns * 2) ≡ true
      first = let x = sh.column in let y = sh.line in ground arith

      second : ltb ((s.xpos + s.ypos * columns) * 2 + 1) (lines * columns * 2) ≡ true
      second = let x = sh.column in let y = sh.line in ground arith

  written-shown :
      (p : ℕ) → p < lines * columns → written.frame_buf (p * 2) ≡ store v.cells v.at (c % 2 ^ 8) p
  unfolding store
  written-shown p lt = let place = sh.place in ground (arith, sh.shown p lt)

  putchar-Shows :
      (s' : Screen) × (putchar c s ≡ ok tt s')
      × Shows s' (type_char c v)
      × (s'.scr_lock ≡ s.scr_lock)
  unfolding type_char
  putchar-Shows = elim (Bool-cases (is_newline c)) [
    | inl e ↦ (
      newline s,
      putchar-newline e,
      rw e (newline-Shows s v sh.line row sh.shown),
      unfold newline in refl,
    )
    | inr e ↦ elim (Bool-cases (leb columns ((s.xpos + 1) % 2 ^ 16))) [
      | inl full ↦ (
        newline written,
        putchar-cell e ∙ rw full,
        rw e (
            rw (wraps full) at (
              newline-Shows written (record v { cells = store v.cells v.at (c % 2 ^ 8) }) sh.line
                row written-shown)),
        unfold newline in refl,
      )
      | inr room ↦ (
        record written { xpos = (s.xpos + 1) % 2 ^ 16 },
        putchar-cell e ∙ rw room,
        rw e (record {
          column = ground arith;
          line = sh.line;
          place = let x = sh.column in let y = sh.line in let place = sh.place in ground arith;
          shown = written-shown;
        }),
        refl,
      )
    ]
  ]
    where
      row : s.ypos ≡ v.at / columns
      row = let x = sh.column in let place = sh.place in omega arith

      wraps :
          leb columns ((s.xpos + 1) % 2 ^ 16) ≡ true
          → (v.at / columns + 1) * columns % (lines * columns) ≡ (v.at + 1) % (lines * columns)
      wraps full = let x = sh.column in let place = sh.place in ground arith

put_all-Shows :
    (cs : Text) {s : Screen} {v : Page}
    → Shows s v
    → (s' : Screen) × (put_all cs s ≡ ok tt s')
      × Shows s' (type_all cs v)
      × (s'.scr_lock ≡ s.scr_lock)
unfolding put_all type_all
put_all-Shows [] {s} sh = (s, refl, sh, refl)
put_all-Shows (c ∷ cs) sh =
    let (t, e, next, l) = putchar-Shows sh c in
    let (s', e', last, l') = put_all-Shows cs next in (s', rw e e', last, l' ∙ l)

lock_screen_lem :
    (s : Screen)
    → IsFree s.scr_lock
    → lock_screen s
      ≡ ok tt (record s {
        scr_lock = record { next = u16 (s.scr_lock.next + 1); owner = s.scr_lock.owner };
      })
unfolding lock_screen spin_lock
lock_screen_lem s unlocked = ground arith

unlock_screen_lem :
    (s : Screen)
    → unlock_screen s
      ≡ ok tt (record s {
        scr_lock = record { next = s.scr_lock.next; owner = u16 (s.scr_lock.owner + 1) };
      })
unfolding unlock_screen spin_unlock
unlock_screen_lem s = refl

-- On a screen that shows a page, with the lock free and a format whose directives have a meaning:
-- `printf` types the characters that `vprintf` gives at the cursor, wrapping around at the ends of the
-- lines and of the page, writes inside the frame buffer and releases the lock.
pub printf-Shows :
    (fmt : Text) (args : List Arg) (out : Text) {s : Screen} {v : Page}
    → Shows s v
    → IsFree s.scr_lock
    → vprintf fmt args ≡ some out
    → (s' : Screen) × (printf fmt args s ≡ ok tt s')
      × Shows s' (type_all out v)
      × IsFree s'.scr_lock
unfolding printf
printf-Shows fmt args out {s} {v} sh unlocked defined =
    let (t, e, shows, l) = put_all-Shows out (entered sh) in
    (
      record t { scr_lock = record { next = t.scr_lock.next; owner = u16 (t.scr_lock.owner + 1) } },
      rw (lock_screen_lem s unlocked, defined, e, unlock_screen_lem t),
      record { column = shows.column; line = shows.line; place = shows.place; shown = shows.shown },
      rw l (ap (λ (n : ℕ). u16 (n + 1)) unlocked),
    )
  where
    entered :
        Shows s v
        → Shows
            (record s {
              scr_lock = record { next = u16 (s.scr_lock.next + 1); owner = s.scr_lock.owner };
            })
            v
    entered h = record { column = h.column; line = h.line; place = h.place; shown = h.shown }
