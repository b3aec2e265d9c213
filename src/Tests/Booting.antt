-- ===== src/Tests/Booting.antt =====
-- The boot loader's structure.
use rtv.Base.{ℕ, ◌%◌, inl, ◌≡◌, refl, false, ◌==◌, if◌then◌else◌, List, [], ◌∷◌, arith}
use rtv.Word.Laws.{bit-zero}
use rtv.Bits.{bit_at}
use rtv.Physical.Defs.{initial, pg_size}
use rtv.Physical.State.{IsReady, free_at}
use rtv.Acpi.Madt.{Memory}
use rtv.Boot.{Boot, prepare_memory}
use rtv.Boot.Tags.{
  Ranges, Tags, tags_end, memory_map, boot_module, map_end, available, Fits, IsLong,
}
use rtv.Boot.Prepared.{Prepared, prepare_memory-Prepared}

-- The bytes that are not zero: a memory map of 8 MB from 1 MB on, and the module "config" of one page.
abbrev structure_bytes : List (ℕ × ℕ)
structure_bytes =
    (8, 6)
    ∷ (12, 40)
    ∷ (16, 24)
    ∷ (26, 0x10)
    ∷ (34, 0x80)
    ∷ (40, 1)
    ∷ (48, 3)
    ∷ (52, 23)
    ∷ (58, 0x20)
    ∷ (61, 0x10)
    ∷ (62, 0x20)
    ∷ (64, 99)
    ∷ (65, 111)
    ∷ (66, 110)
    ∷ (67, 102)
    ∷ (68, 105)
    ∷ (69, 103)
    ∷ []

abbrev byte_at : List (ℕ × ℕ) → Memory
byte_at [] p = 0
byte_at ((q, b) ∷ bs) p = if p == q then b else byte_at bs p

abbrev structure : Memory
structure = byte_at structure_bytes

abbrev regions : Ranges
regions = (0x100000, 0x800000) ∷ []

abbrev boot_modules : Ranges
boot_modules = (0x200000, 0x1000) ∷ []

structure-Tags : Tags structure pg_size 8 regions boot_modules
structure-Tags =
    memory_map 4095 8 regions [] boot_modules refl
      (available 4095 24 [] (omega arith) refl (map_end 4095 48 (omega arith)))
      (boot_module 4094 48 [] [] refl (tags_end 4094 72 refl))

abbrev unread : Boot
unread = record {
  phys = initial;
  mem_limit = 0;
  frame_buf = 0xB8000;
  rsdp = 0;
  config_paddr = 0;
  config_size = 0;
  num_mod = 0;
}

initial-IsReady : IsReady initial
unfolding initial
initial-IsReady = record {
  lock = omega arith;
  unlocked = refl;
  words = λ i. omega arith;
  fits = omega arith;
  limit = omega arith;
}

initial-free : (j : ℕ) → free_at initial j ≡ false
unfolding initial bit_at
initial-free j = bit-zero (j % 64)

regions-Fits : Fits regions
unfolding Fits
regions-Fits = (omega arith, tt)

regions-IsLong : IsLong regions
unfolding IsLong
regions-IsLong = (inl refl, tt)

boot_modules-Fits : Fits boot_modules
unfolding Fits
boot_modules-Fits = (omega arith, tt)

prepare_memory-Prepared_example :
    Prepared regions boot_modules 0x100000 0x20000
      (prepare_memory structure 0 0x100000 0x20000 unread)
prepare_memory-Prepared_example =
    prepare_memory-Prepared structure 0 0x100000 0x20000 regions boot_modules unread initial-IsReady
      refl initial-free structure-Tags regions-Fits regions-IsLong boot_modules-Fits (omega arith)
