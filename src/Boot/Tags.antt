-- ===== src/Boot/Tags.antt =====
-- The boot loader's structure as lists: the available ranges of its memory maps and its modules.
use rtv.Base.{
  ℕ, suc, ◌+◌, ◌-◌, ◌%◌, ◌^◌, ◌≤◌, ◌<◌, ◌≡◌, ◌≢◌, refl, sym, Bool, false, ◌||◌, ltb, if◌then◌else◌,
  List, [], ◌∷◌, ◌++◌, arith,
}
use rtv.Physical.Defs.{pg_size}
use rtv.Physical.Ranges.{frame_inside, frame_meets, table_bytes, LeavesPage}
use rtv.Acpi.Madt.{Memory, u32_at}
use rtv.Boot.{u64_at, tag_length}

-- A list of ranges, by their first byte and their length.
abbrev pub Ranges : Type 0
Ranges = List (ℕ × ℕ)

-- The entries of a memory map at `[p, fin)`, at most `n` of them, and the ranges that are available.
pub data Entries (mem : Memory) (fin entry_size : ℕ) : (n p : ℕ) → Ranges → Type 0 where
  map_end : (n p : ℕ) → fin ≤ p → Entries mem fin entry_size n p []
  available :
      (n p : ℕ) (rs : Ranges)
      → p < fin
      → u32_at mem (p + 16) ≡ 1
      → Entries mem fin entry_size n (p + entry_size) rs
      → Entries mem fin entry_size (suc n) p ((u64_at mem p, u64_at mem (p + 8)) ∷ rs)
  reserved :
      (n p : ℕ) (rs : Ranges)
      → p < fin
      → ◌≢◌ {A = ℕ} (u32_at mem (p + 16)) 1
      → Entries mem fin entry_size n (p + entry_size) rs
      → Entries mem fin entry_size (suc n) p rs

abbrev pub module_range : Memory → ℕ → ℕ × ℕ
module_range mem tag =
    (u32_at mem (tag + 8), (u32_at mem (tag + 12) + 2 ^ 32 - u32_at mem (tag + 8)) % 2 ^ 32)

-- The tags from `tag` on, at most `n` of them, with the ranges that they make available and the modules.
pub data Tags (mem : Memory) : (n tag : ℕ) → (regions modules : Ranges) → Type 0 where
  tags_end : (n tag : ℕ) → u32_at mem tag ≡ 0 → Tags mem n tag [] []
  memory_map :
      (n tag : ℕ) (rs rs' ms : Ranges)
      → u32_at mem tag ≡ 6
      → Entries mem (tag + u32_at mem (tag + 4)) (u32_at mem (tag + 8)) pg_size (tag + 16) rs
      → Tags mem n (tag + tag_length (u32_at mem (tag + 4))) rs' ms
      → Tags mem (suc n) tag (rs ++ rs') ms
  boot_module :
      (n tag : ℕ) (rs ms : Ranges)
      → u32_at mem tag ≡ 3
      → Tags mem n (tag + tag_length (u32_at mem (tag + 4))) rs ms
      → Tags mem (suc n) tag rs (module_range mem tag ∷ ms)
  other_tag :
      (n tag : ℕ) (rs ms : Ranges)
      → ◌≢◌ {A = ℕ} (u32_at mem tag) 0
      → ◌≢◌ {A = ℕ} (u32_at mem tag) 3
      → ◌≢◌ {A = ℕ} (u32_at mem tag) 6
      → Tags mem n (tag + tag_length (u32_at mem (tag + 4))) rs ms
      → Tags mem (suc n) tag rs ms

-- Frame `j` lies inside a range of the list, or meets one.
unfoldable pub lies_inside : Ranges → ℕ → Bool
lies_inside [] j = false
lies_inside ((begin, length) ∷ rs) j = frame_inside begin length j || lies_inside rs j

unfoldable pub meets : Ranges → ℕ → Bool
meets [] j = false
meets ((begin, length) ∷ rs) j = frame_meets begin length j || meets rs j

-- The greatest end of a range, or `limit` where it is greater.
unfoldable pub greatest_end : Ranges → ℕ → ℕ
greatest_end [] limit = limit
greatest_end ((begin, length) ∷ rs) limit =
    greatest_end rs (if ltb limit (begin + length) then begin + length else limit)

-- Every range ends inside the table of frames; `IsLong` adds that none lies strictly inside a page.
unfoldable pub Fits : Ranges → Type 0
Fits [] = Unit {0}
Fits ((begin, length) ∷ rs) = (begin + length ≤ table_bytes) × Fits rs

unfoldable pub IsLong : Ranges → Type 0
IsLong [] = Unit {0}
IsLong ((begin, length) ∷ rs) = LeavesPage begin length × IsLong rs

pub Fits-append : (rs rs' : Ranges) → Fits (rs ++ rs') → Fits rs × Fits rs'
unfolding Fits
Fits-append [] rs' h = (tt, h)
Fits-append ((begin, length) ∷ rs) rs' (h, t) = let (a, b) = Fits-append rs rs' t in ((h, a), b)

pub IsLong-append : (rs rs' : Ranges) → IsLong (rs ++ rs') → IsLong rs × IsLong rs'
unfolding IsLong
IsLong-append [] rs' h = (tt, h)
IsLong-append ((begin, length) ∷ rs) rs' (h, t) = let (a, b) = IsLong-append rs rs' t in ((h, a), b)

or_assoc : (a b c : Bool) → ((a || b) || c) ≡ (a || (b || c))
or_assoc a b c = ground arith

pub lies_inside-append :
    (rs rs' : Ranges) (j : ℕ) → lies_inside (rs ++ rs') j ≡ (lies_inside rs j || lies_inside rs' j)
unfolding lies_inside
lies_inside-append [] rs' j = refl
lies_inside-append ((begin, length) ∷ rs) rs' j =
    rw (lies_inside-append rs rs' j)
      (sym (or_assoc (frame_inside begin length j) (lies_inside rs j) (lies_inside rs' j)))

pub greatest_end-append :
    (rs rs' : Ranges) (limit : ℕ)
    → greatest_end (rs ++ rs') limit ≡ greatest_end rs' (greatest_end rs limit)
unfolding greatest_end
greatest_end-append [] rs' limit = refl
greatest_end-append ((begin, length) ∷ rs) rs' limit =
    greatest_end-append rs rs' (if ltb limit (begin + length) then begin + length else limit)

pub greatest_end-Fits :
    (rs : Ranges) (limit : ℕ) → limit ≤ table_bytes → Fits rs → greatest_end rs limit ≤ table_bytes
unfolding greatest_end Fits
greatest_end-Fits [] limit le fits = le
greatest_end-Fits ((begin, length) ∷ rs) limit le (h, t) =
    greatest_end-Fits rs (if ltb limit (begin + length) then begin + length else limit)
      (ground arith) t
