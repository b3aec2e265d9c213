-- ===== src/Boot/Prepared.antt =====
-- The table of page frames after kernel_main has read the boot loader's structure.
use rtv.Base.{ℕ, ◌+◌, ◌/◌, ◌≤◌, ◌≡◌, ap, ◌∙◌, false, not, ◌&&◌, arith}
use rtv.Base.Run.{Run, ok, on_part-ok}
use rtv.Physical.Defs.{Phys, pg_size, physical_set_limit}
use rtv.Physical.State.{IsReady, free_at}
use rtv.Physical.Ranges.{frame_meets, table_bytes, physical_set_limit_lem}
use rtv.Acpi.Madt.{Memory}
use rtv.Boot.{Boot, set_limit, prepare_memory}
use rtv.Boot.Tags.{Ranges, Tags, lies_inside, meets, greatest_end, Fits, IsLong, greatest_end-Fits}
use rtv.Boot.Regions.{free_regions-Freed}
use rtv.Boot.Modules.{take_range-Taken, take_modules-Taken}

set_limit_lem :
    (s : Boot) (limit : ℕ)
    → IsReady s.phys
    → limit ≤ table_bytes
    → (p : Phys) × (set_limit limit s ≡ ok tt (record s { phys = p }))
      × IsReady p
      × (p.mm_limit ≡ limit / pg_size)
      × ((n : ℕ) → free_at p n ≡ free_at s.phys n)
unfolding set_limit
set_limit_lem s limit ready fits =
    let (p, e, ready', m, _, same) = physical_set_limit_lem limit ready fits in
    (
      p,
      on_part-ok (λ t. t.phys) (λ p t. record t { phys = p }) (physical_set_limit limit) s tt p e,
      ready',
      m,
      same,
    )

-- The result for ranges `rs` of available memory, modules `ms` and an image of the kernel.
pub record Prepared (rs ms : Ranges) (boot_start image_size : ℕ) (r : Run Boot (Unit {0}))
    : Type 0 where
  pub state : Boot
  pub returns : r ≡ ok tt state
  pub ready : IsReady state.phys
  pub limit : state.phys.mm_limit ≡ greatest_end rs 0 / pg_size
  pub free :
      (j : ℕ)
      → free_at state.phys j ≡ (
          lies_inside rs j
          && (not (frame_meets 0 pg_size j)
              && (not (frame_meets boot_start image_size j) && not (meets ms j))))

-- Where no frame is free at first, the structure has at most 4096 tags and each memory map as many
-- entries, every range and the kernel's image end inside the table of frames, and no available range
-- lies strictly inside a page: this part of `kernel_main` ends normally, with the allocator's invariant.
-- The limit is the greatest end of an available range, and the frames that are free are those that lie
-- inside an available range and meet neither the first page, the kernel's image nor a module.
pub prepare_memory-Prepared :
    (mem : Memory) (mbi boot_start image_size : ℕ) (rs ms : Ranges) (s : Boot)
    → IsReady s.phys
    → s.mem_limit ≡ 0
    → ((j : ℕ) → free_at s.phys j ≡ false)
    → Tags mem pg_size (mbi + 8) rs ms
    → Fits rs
    → IsLong rs
    → Fits ms
    → boot_start + image_size ≤ table_bytes
    → Prepared rs ms boot_start image_size (prepare_memory mem mbi boot_start image_size s)
unfolding prepare_memory meets
prepare_memory-Prepared mem mbi boot_start image_size rs ms s ready no_limit none tags fits long
      fits' image =
    let freed = free_regions-Freed mem pg_size (mbi + 8) rs ms s tags ready fits long in
    let end = freed.limit ∙ ap (greatest_end rs) no_limit in
    let bound = greatest_end-Fits rs 0 (omega arith) fits in
    let (p, e, ready', m, same) =
      set_limit_lem freed.state freed.state.mem_limit freed.ready (omega arith) in
    let limited : Boot = record freed.state { phys = p } in
    let low = take_range-Taken limited 0 pg_size ready' (omega arith) in
    let kernel = take_range-Taken low.state boot_start image_size low.ready image in
    let modules =
      take_modules-Taken mem pg_size (mbi + 8) rs ms kernel.state tags kernel.ready fits' in
    record {
      state = modules.state;
      returns = rw (freed.returns, e, low.returns, kernel.returns) modules.returns;
      ready = modules.ready;
      limit = modules.limit ∙ kernel.limit ∙ low.limit ∙ m ∙ ap (λ (n : ℕ). n / pg_size) end;
      free = λ j.
          ground (arith, modules.free j, kernel.free j, low.free j, same j, freed.free j, none j);
    }
