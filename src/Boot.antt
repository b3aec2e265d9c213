-- ===== src/Boot.antt =====
-- arch/x86_64/boot/init.c: the part of kernel_main that finds out about memory, from the boot loader's
-- structure to the table of page frames. The structure lies in memory that a function from an address
-- to its byte stands for, and fits in a page; so a loop over it has at most `pg_size` rounds.
pub mod Tags
pub mod Regions
pub mod Modules
pub mod Prepared
use rtv.Base.{
  ℕ, zero, suc, ◌+◌, ◌-◌, ◌*◌, ◌/◌, ◌%◌, ◌^◌, not, ◌||◌, ◌==◌, ltb, if◌then◌else◌, List, [], ◌∷◌,
}
use rtv.Base.Run.{ok, out_of_fuel, Cmd, pure, ◌>>=◌, ◌>>◌, on_part}
use rtv.Word.{u64}
use rtv.Physical.Defs.{Phys, pg_size, physical_free_range, physical_set_limit, physical_take_range}
use rtv.Acpi.Madt.{Memory, u32_at}
use rtv.Utils.Strings.{Chars, strncmp}

-- The variables of kernel_main, of vm_config and the screen's `frameBuf`, with the table of frames.
pub record Boot : Type 0 where
  pub phys : Phys
  pub mem_limit : ℕ
  pub frame_buf : ℕ
  pub rsdp : ℕ
  pub config_paddr : ℕ
  pub config_size : ℕ
  pub num_mod : ℕ

abbrev pub u64_at : Memory → ℕ → ℕ
u64_at mem p = u32_at mem p + u32_at mem (p + 4) * 2 ^ 32

unfoldable pub free_range : (addr len : ℕ) → Cmd Boot (Unit {0})
free_range addr len =
    on_part (λ s. s.phys) (λ p s. record s { phys = p }) (physical_free_range addr len)

unfoldable pub take_range : (addr len : ℕ) → Cmd Boot (Unit {0})
take_range addr len =
    on_part (λ s. s.phys) (λ p s. record s { phys = p }) (physical_take_range addr len)

unfoldable pub set_limit : ℕ → Cmd Boot (Unit {0})
set_limit limit = on_part (λ s. s.phys) (λ p s. record s { phys = p }) (physical_set_limit limit)

unfoldable pub raise_limit : ℕ → Boot → Boot
raise_limit mem_end s = if ltb s.mem_limit mem_end then record s { mem_limit = mem_end } else s

-- An entry of a memory map: a range that is available is freed.
unfoldable pub free_entry : (addr len type_ : ℕ) → Cmd Boot (Unit {0})
free_entry addr len type_ =
    if type_ == 1
    then (do free_range addr len; λ s. ok tt (raise_limit (u64 (addr + len)) s))
    else pure tt

-- The offset of the next tag: `(tag->size + 7) & ~7`.
abbrev pub tag_length : ℕ → ℕ
tag_length size = (size + 7) % 2 ^ 32 / 8 * 8

-- "config"
unfoldable pub config_name : Chars
config_name i =
    if i == 0
    then 99
    else if i == 1
    then 111
    else if i == 2
    then 110
    else if i == 3
    then 102
    else if i == 4
    then 105
    else if i == 5
    then 103
    else 0

module _ (mem : Memory) where
  -- The loop over a memory map.
  unfoldable pub free_map : (fuel p fin entry_size : ℕ) → Cmd Boot (Unit {0})
  free_map zero p fin entry_size = λ s. if ltb p fin then out_of_fuel else ok tt s
  free_map (suc fuel) p fin entry_size = λ s.
      (if ltb p fin
          then (do
            free_entry (u64_at mem p) (u64_at mem (p + 8)) (u32_at mem (p + 16))
            free_map fuel (p + entry_size) fin entry_size)
          else pure tt)
        s

  -- The body of the first loop over tags.
  unfoldable pub read_tag : (tag type_ : ℕ) → Cmd Boot (Unit {0})
  read_tag tag type_ =
      if type_ == 6
      then free_map pg_size (tag + 16) (tag + u32_at mem (tag + 4)) (u32_at mem (tag + 8))
      else if type_ == 8
      then (λ s. ok tt (record s { frame_buf = u64_at mem (tag + 8) }))
      else if type_ == 14 || type_ == 15
      then (λ s. ok tt (record s { rsdp = tag + 8 }))
      else pure tt

  -- The body of the second one.
  unfoldable pub take_module : (tag type_ : ℕ) → Cmd Boot (Unit {0})
  take_module tag type_ =
      let mod_start = u32_at mem (tag + 8) in
      let size = (u32_at mem (tag + 12) + 2 ^ 32 - mod_start) % 2 ^ 32 in
      if type_ == 3
      then (do
        λ s. ok tt (
            if strncmp (λ i. mem (tag + 16 + i)) config_name 7 == 0
            then record s { config_paddr = mod_start; config_size = size }
            else record s { num_mod = (s.num_mod + 1) % 2 ^ 16 })
        take_range mod_start size)
      else pure tt

  -- A loop over the tags.
  unfoldable pub for_tags :
      ((tag type_ : ℕ) → Cmd Boot (Unit {0})) → (fuel tag : ℕ) → Cmd Boot (Unit {0})
  for_tags body zero tag = λ s. if u32_at mem tag == 0 then ok tt s else out_of_fuel
  for_tags body (suc fuel) tag = λ s.
      (if u32_at mem tag == 0 then pure tt else (do
        body tag (u32_at mem tag)
        for_tags body fuel (tag + tag_length (u32_at mem (tag + 4)))))
        s

  -- The whole part; the kernel's image takes `image_size` bytes from `boot_start` on.
  unfoldable pub prepare_memory : (mbi boot_start image_size : ℕ) → Cmd Boot (Unit {0})
  prepare_memory mbi boot_start image_size = do
    for_tags read_tag pg_size (mbi + 8)
    λ s. set_limit s.mem_limit s
    take_range 0 pg_size
    take_range boot_start image_size
    for_tags take_module pg_size (mbi + 8)
