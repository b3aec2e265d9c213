-- ===== src/Boot/Modules.antt =====
-- The ranges that kernel_main takes back: a range of its own, and the modules.
use rtv.Base.{
  ℕ, suc, ◌+◌, ◌%◌, ◌^◌, ◌≤◌, ◌≡◌, ◌≢◌, refl, ◌∙◌, false, not, ◌&&◌, ◌==◌, [], ◌∷◌, arith,
  Bool-cases, inl, inr,
}
use rtv.Base.Run.{Run, ok, on_part-ok}
use rtv.Physical.Defs.{physical_take_range}
use rtv.Physical.State.{IsReady, free_at, after}
use rtv.Physical.Ranges.{table_bytes, physical_take_range_lem}
use rtv.Acpi.Madt.{Memory, u32_at}
use rtv.Utils.Strings.{strncmp}
use rtv.Boot.{Boot, take_range, tag_length, config_name, take_module, for_tags}
use rtv.Boot.Tags.{
  Ranges, module_range, Tags, tags_end, memory_map, boot_module, other_tag, meets, Fits,
}
use rtv.Boot.Regions.{for_tags-next, for_tags-end}

-- A routine has taken the frames that meet the ranges, and left the limit.
pub record Taken (s : Boot) (ms : Ranges) (r : Run Boot (Unit {0})) : Type 0 where
  pub state : Boot
  pub returns : r ≡ ok tt state
  pub ready : IsReady state.phys
  pub free : (j : ℕ) → free_at state.phys j ≡ (not (meets ms j) && free_at s.phys j)
  pub limit : state.phys.mm_limit ≡ s.phys.mm_limit

none-Taken : (s : Boot) {r : Run Boot (Unit {0})} → IsReady s.phys → r ≡ ok tt s → Taken s [] r
unfolding meets
none-Taken s ready e = record {
  state = s;
  returns = e;
  ready = ready;
  free = λ j. ground arith;
  limit = refl;
}

pub take_range-Taken :
    (s : Boot) (begin length : ℕ)
    → IsReady s.phys
    → begin + length ≤ table_bytes
    → Taken s ((begin, length) ∷ []) (take_range begin length s)
unfolding take_range meets
take_range-Taken s begin length ready fits =
    let (table, e, ready', bits) = physical_take_range_lem begin length ready fits in
    record {
      state = record s { phys = after s.phys table };
      returns =
          on_part-ok (λ t. t.phys) (λ p t. record t { phys = p }) (physical_take_range begin length)
            s tt (after s.phys table) e;
      ready = ready';
      free = λ j. ground (arith, bits j);
      limit = refl;
    }

Taken-cons :
    (s : Boot) (m : ℕ × ℕ) (ms : Ranges) {r r' : Run Boot (Unit {0})}
    → (t : Taken s (m ∷ []) r) → Taken t.state ms r'
    → Taken s (m ∷ ms) r'
unfolding meets
Taken-cons s m ms t u = record {
  state = u.state;
  returns = u.returns;
  ready = u.ready;
  free = λ j. ground (arith, u.free j, t.free j);
  limit = u.limit ∙ t.limit;
}

module _ (mem : Memory) where
  module_tag :
      (tag : ℕ) (s : Boot)
      → u32_at mem tag ≡ 3
      → IsReady s.phys
      → (module_range mem tag).0 + (module_range mem tag).1 ≤ table_bytes
      → Taken s (module_range mem tag ∷ []) (take_module mem tag (u32_at mem tag) s)
  unfolding take_module
  module_tag tag s e ready fits =
      elim (Bool-cases (strncmp (λ i. mem (tag + 16 + i)) config_name 7 == 0)) [
        | inl is_config ↦
            rw (e, is_config)
              (as_before with_config (
                take_range-Taken with_config (module_range mem tag).0 (module_range mem tag).1 ready
                  fits))
        | inr is_other ↦
            rw (e, is_other)
              (as_before (record s { num_mod = (s.num_mod + 1) % 2 ^ 16 })
                (take_range-Taken (record s { num_mod = (s.num_mod + 1) % 2 ^ 16 })
                  (module_range mem tag).0 (module_range mem tag).1 ready fits))
      ]
    where
      with_config : Boot
      with_config = record s {
        config_paddr = (module_range mem tag).0;
        config_size = (module_range mem tag).1;
      }

      as_before :
          (t : Boot) {ms : Ranges} {r : Run Boot (Unit {0})}
          → Taken (record t { phys = s.phys }) ms r
          → Taken s ms r
      as_before t u = record {
        state = u.state;
        returns = u.returns;
        ready = u.ready;
        free = u.free;
        limit = u.limit;
      }

  no_module :
      (tag : ℕ) (s : Boot)
      → ◌≢◌ {A = ℕ} (u32_at mem tag) 3
      → take_module mem tag (u32_at mem tag) s ≡ ok tt s
  unfolding take_module
  no_module tag s ne = rw test
    where
      test : (u32_at mem tag == 3) ≡ false
      test = ground arith

  pub take_modules-Taken :
      (n tag : ℕ) (rs ms : Ranges) (s : Boot)
      → Tags mem n tag rs ms
      → IsReady s.phys
      → Fits ms
      → Taken s ms (for_tags mem (take_module mem) n tag s)
  unfolding Fits
  take_modules-Taken n tag rs ms s (tags_end _ _ e) ready fits =
      none-Taken s ready (for_tags-end mem (take_module mem) n tag s e)
  take_modules-Taken (suc n) tag rs ms s (memory_map _ _ _ rs' _ e entries rest) ready fits =
      rw
        (for_tags-next mem (take_module mem) n tag s s (omega arith)
          (no_module tag s (omega arith)))
        (take_modules-Taken n (tag + tag_length (u32_at mem (tag + 4))) rs' ms s rest ready fits)
  take_modules-Taken (suc n) tag rs ms s (boot_module _ _ _ ms' e rest) ready (fit, fits) =
      let first = module_tag tag s e ready fit in
      rw (for_tags-next mem (take_module mem) n tag s first.state (omega arith) first.returns) (
        Taken-cons s (module_range mem tag) ms' first (
          take_modules-Taken n (tag + tag_length (u32_at mem (tag + 4))) rs ms' first.state rest
            first.ready fits))
  take_modules-Taken (suc n) tag rs ms s (other_tag _ _ _ _ ne0 ne3 ne6 rest) ready fits =
      rw (for_tags-next mem (take_module mem) n tag s s ne0 (no_module tag s ne3))
        (take_modules-Taken n (tag + tag_length (u32_at mem (tag + 4))) rs ms s rest ready fits)
