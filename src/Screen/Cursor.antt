-- ===== src/Screen/Cursor.antt =====
-- utils/screen.c: _putchar and printf on the text screen of 24 lines of 80 columns.
use rtv.Base.{ℕ, ◌+◌, ◌*◌, ◌%◌, ◌^◌, ◌||◌, ◌==◌, ltb, leb, if◌then◌else◌, List, [], ◌∷◌, none, some}
use rtv.Base.Run.{ok, faulted, Cmd, pure, ◌>>◌, on_part}
use rtv.Bits.{Words, store}
use rtv.Spinlock.{Spinlock, spin_lock, spin_unlock}
use rtv.Screen.Format.{Text, Arg, vprintf}

abbrev pub columns : ℕ
columns = 80

abbrev pub lines : ℕ
lines = 24

abbrev pub attribute : ℕ
attribute = 7

pub record Screen : Type 0 where
  pub frame_buf : Words
  pub xpos : ℕ
  pub ypos : ℕ
  pub scr_lock : Spinlock

unfoldable pub lock_screen : Cmd Screen (Unit {0})
lock_screen = on_part (λ s. s.scr_lock) (λ l s. record s { scr_lock = l }) spin_lock

unfoldable pub unlock_screen : Cmd Screen (Unit {0})
unlock_screen = on_part (λ s. s.scr_lock) (λ l s. record s { scr_lock = l }) spin_unlock

-- The label `newline`.
unfoldable pub newline : Screen → Screen
newline s =
    let ypos = (s.ypos + 1) % 2 ^ 16 in
    record s { xpos = 0; ypos = if leb lines ypos then 0 else ypos }

-- `*(frameBuf + offset) = b`; the buffer holds two bytes for each cell.
unfoldable pub write_byte : ℕ → ℕ → Cmd Screen (Unit {0})
write_byte offset b s =
    if ltb offset (lines * columns * 2)
    then ok tt (record s { frame_buf = store s.frame_buf offset b })
    else faulted

unfoldable pub putchar : ℕ → Cmd Screen (Unit {0})
putchar c = λ s.
    (if c == 10 || c == 13 then (λ t. ok tt (newline t)) else (do
      write_byte ((s.xpos + s.ypos * columns) * 2) (c % 2 ^ 8)
      write_byte ((s.xpos + s.ypos * columns) * 2 + 1) attribute
      λ t.
          let xpos = (t.xpos + 1) % 2 ^ 16 in
          ok tt (if leb columns xpos then newline t else record t { xpos = xpos })))
      s

-- vprintf with `_putchar`, given what it prints.
unfoldable pub put_all : Text → Cmd Screen (Unit {0})
put_all [] = pure tt
put_all (c ∷ cs) = do putchar c; put_all cs

unfoldable pub printf : Text → List Arg → Cmd Screen (Unit {0})
printf fmt args = do
  lock_screen
  elim (vprintf fmt args) [ none ↦ (λ s. faulted) | some out ↦ put_all out ]
  unlock_screen
