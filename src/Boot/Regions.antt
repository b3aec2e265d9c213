-- ===== src/Boot/Regions.antt =====
-- The loops of kernel_main over the memory maps and over the modules.
use rtv.Base.{
  ℕ, zero, suc, ◌+◌, ◌≤◌, ◌<◌, ◌≡◌, ◌≢◌, refl, sym, ap, ◌∙◌, true, false, ◌||◌, ◌==◌, ltb,
  if◌then◌else◌, [], ◌∷◌, ◌++◌, arith, Bool-cases, inl, inr,
}
use rtv.Base.Run.{Run, Cmd, ok, on_part-ok}
use rtv.Word.{u64}
use rtv.Bits.{Words}
use rtv.Physical.Defs.{pg_size, physical_free_range}
use rtv.Physical.State.{IsReady, free_at, after}
use rtv.Physical.Ranges.{table_bytes, LeavesPage, physical_free_range_lem}
use rtv.Acpi.Madt.{Memory, u32_at}
use rtv.Boot.{
  Boot, u64_at, free_range, raise_limit, free_entry, tag_length, free_map, read_tag, for_tags,
}
use rtv.Boot.Tags.{
  Ranges, Entries, map_end, available, reserved, Tags, tags_end, memory_map, boot_module, other_tag,
  lies_inside, greatest_end, Fits, IsLong, Fits-append, IsLong-append, lies_inside-append,
  greatest_end-append,
}

-- A routine has freed the frames inside the ranges and raised the limit to their ends.
pub record Freed (s : Boot) (rs : Ranges) (r : Run Boot (Unit {0})) : Type 0 where
  pub state : Boot
  pub returns : r ≡ ok tt state
  pub ready : IsReady state.phys
  pub free : (j : ℕ) → free_at state.phys j ≡ (lies_inside rs j || free_at s.phys j)
  pub limit : state.mem_limit ≡ greatest_end rs s.mem_limit

none-Freed : (s : Boot) {r : Run Boot (Unit {0})} → IsReady s.phys → r ≡ ok tt s → Freed s [] r
unfolding lies_inside greatest_end
none-Freed s ready e = record {
  state = s;
  returns = e;
  ready = ready;
  free = λ j. refl;
  limit = refl;
}

Freed-append :
    (s : Boot) (rs rs' : Ranges) {r r' : Run Boot (Unit {0})}
    → (f : Freed s rs r) → Freed f.state rs' r'
    → Freed s (rs ++ rs') r'
Freed-append s rs rs' f g = record {
  state = g.state;
  returns = g.returns;
  ready = g.ready;
  free = λ j. ground (arith, g.free j, f.free j, lies_inside-append rs rs' j);
  limit = g.limit ∙ ap (greatest_end rs') f.limit ∙ sym (greatest_end-append rs rs' s.mem_limit);
}

raise_limit_lem :
    (m : ℕ) (s : Boot)
    → raise_limit m s ≡ record s { mem_limit = if ltb s.mem_limit m then m else s.mem_limit }
unfolding raise_limit
raise_limit_lem m s = elim (Bool-cases (ltb s.mem_limit m)) [ inl e ↦ rw e | inr e ↦ rw e ]

module _ (s : Boot) (begin length : ℕ) (ready : IsReady s.phys)
    (fits : begin + length ≤ table_bytes) where
  free_entry-Freed :
      LeavesPage begin length → Freed s ((begin, length) ∷ []) (free_entry begin length 1 s)
  unfolding free_entry lies_inside greatest_end
  free_entry-Freed long =
      let (table, e, ready', bits) = physical_free_range_lem begin length ready fits long in
      let freed : Boot = record s { phys = after s.phys table } in
      record {
        state = record freed {
          mem_limit = if ltb s.mem_limit (begin + length) then begin + length else s.mem_limit;
        };
        returns = rw (run table e, whole, raise_limit_lem (begin + length) freed);
        ready = ready';
        free = λ j. ground (arith, bits j);
        limit = refl;
      }
    where
      whole : u64 (begin + length) ≡ begin + length
      whole = omega arith

      run :
          (table : Words)
          → physical_free_range begin length s.phys ≡ ok tt (after s.phys table)
          → free_range begin length s ≡ ok tt (record s { phys = after s.phys table })
      run table e =
          unfold free_range in
          on_part-ok (λ t. t.phys) (λ p t. record t { phys = p }) (physical_free_range begin length)
            s tt (after s.phys table) e

module _ (mem : Memory) where
  module _ (fin entry_size : ℕ) where
    free_map-next :
        (n p : ℕ) (s s' : Boot)
        → p < fin
        → free_entry (u64_at mem p) (u64_at mem (p + 8)) (u32_at mem (p + 16)) s ≡ ok tt s'
        → free_map mem (suc n) p fin entry_size s
          ≡ free_map mem n (p + entry_size) fin entry_size s'
    unfolding free_map
    free_map-next n p s s' lt e = rw (test, e)
      where
        test : ltb p fin ≡ true
        test = ground arith

    free_map-end : (n p : ℕ) (s : Boot) → fin ≤ p → free_map mem n p fin entry_size s ≡ ok tt s
    unfolding free_map
    free_map-end zero p s le = ground arith
    free_map-end (suc n) p s le = ground arith

    reserved_entry :
        (p : ℕ) (s : Boot)
        → ◌≢◌ {A = ℕ} (u32_at mem (p + 16)) 1
        → free_entry (u64_at mem p) (u64_at mem (p + 8)) (u32_at mem (p + 16)) s ≡ ok tt s
    unfolding free_entry
    reserved_entry p s ne = rw test
      where
        test : (u32_at mem (p + 16) == 1) ≡ false
        test = ground arith

    free_map-Freed :
        (n p : ℕ) (rs : Ranges) (s : Boot)
        → Entries mem fin entry_size n p rs
        → IsReady s.phys
        → Fits rs
        → IsLong rs
        → Freed s rs (free_map mem n p fin entry_size s)
    unfolding Fits IsLong
    free_map-Freed n p rs s (map_end _ _ le) ready fits long =
        none-Freed s ready (free_map-end n p s le)
    free_map-Freed (suc n) p rs s (available _ _ rs' lt one rest) ready fits long =
        let first = free_entry-Freed s (u64_at mem p) (u64_at mem (p + 8)) ready fits.0 long.0 in
        rw (free_map-next n p s first.state lt (rw one first.returns)) (
          Freed-append s ((u64_at mem p, u64_at mem (p + 8)) ∷ []) rs' first
            (free_map-Freed n (p + entry_size) rs' first.state rest first.ready fits.1 long.1))
    free_map-Freed (suc n) p rs s (reserved _ _ _ lt other rest) ready fits long =
        rw (free_map-next n p s s lt (reserved_entry p s other))
          (free_map-Freed n (p + entry_size) rs s rest ready fits long)

  pub for_tags-next :
      (body : (tag type_ : ℕ) → Cmd Boot (Unit {0})) (n tag : ℕ) (s s' : Boot)
      → ◌≢◌ {A = ℕ} (u32_at mem tag) 0
      → body tag (u32_at mem tag) s ≡ ok tt s'
      → for_tags mem body (suc n) tag s
        ≡ for_tags mem body n (tag + tag_length (u32_at mem (tag + 4))) s'
  unfolding for_tags
  for_tags-next body n tag s s' ne e = rw (test, e)
    where
      test : (u32_at mem tag == 0) ≡ false
      test = ground arith

  pub for_tags-end :
      (body : (tag type_ : ℕ) → Cmd Boot (Unit {0})) (n tag : ℕ) (s : Boot)
      → u32_at mem tag ≡ 0
      → for_tags mem body n tag s ≡ ok tt s
  unfolding for_tags
  for_tags-end body zero tag s e = rw e
  for_tags-end body (suc n) tag s e = rw e

  -- A tag that is no memory map may set other variables.
  plain_tag :
      (tag : ℕ) (s : Boot)
      → ◌≢◌ {A = ℕ} (u32_at mem tag) 6
      → IsReady s.phys
      → Freed s [] (read_tag mem tag (u32_at mem tag) s)
  unfolding read_tag lies_inside greatest_end
  plain_tag tag s ne ready = elim (Bool-cases (u32_at mem tag == 8)) [
    | inl e ↦ record {
      state = record s { frame_buf = u64_at mem (tag + 8) };
      returns = rw (no_map, e);
      ready = ready;
      free = λ j. refl;
      limit = refl;
    }
    | inr ne8 ↦ elim (Bool-cases (u32_at mem tag == 14 || u32_at mem tag == 15)) [
      | inl e ↦ record {
        state = record s { rsdp = tag + 8 };
        returns = rw (no_map, ne8, e);
        ready = ready;
        free = λ j. refl;
        limit = refl;
      }
      | inr e ↦ none-Freed s ready (rw (no_map, ne8, e))
    ]
  ]
    where
      no_map : (u32_at mem tag == 6) ≡ false
      no_map = ground arith

  map_tag :
      (tag : ℕ) (s : Boot)
      → u32_at mem tag ≡ 6
      → read_tag mem tag (u32_at mem tag) s
        ≡ free_map mem pg_size (tag + 16) (tag + u32_at mem (tag + 4)) (u32_at mem (tag + 8)) s
  unfolding read_tag
  map_tag tag s e = rw e

  pub free_regions-Freed :
      (n tag : ℕ) (rs ms : Ranges) (s : Boot)
      → Tags mem n tag rs ms
      → IsReady s.phys
      → Fits rs
      → IsLong rs
      → Freed s rs (for_tags mem (read_tag mem) n tag s)
  free_regions-Freed n tag rs ms s (tags_end _ _ e) ready fits long =
      none-Freed s ready (for_tags-end (read_tag mem) n tag s e)
  free_regions-Freed (suc n) tag rs ms s (memory_map _ _ rs1 rs2 _ e entries rest) ready fits long =
      let (f1, f2) = Fits-append rs1 rs2 fits in
      let (l1, l2) = IsLong-append rs1 rs2 long in
      let first =
        free_map-Freed (tag + u32_at mem (tag + 4)) (u32_at mem (tag + 8)) pg_size (tag + 16) rs1 s
          entries ready f1 l1 in
      rw
        (for_tags-next (read_tag mem) n tag s first.state (omega arith)
          (map_tag tag s e ∙ first.returns))
        (Freed-append s rs1 rs2 first (
          free_regions-Freed n (tag + tag_length (u32_at mem (tag + 4))) rs2 ms first.state rest
            first.ready f2 l2))
  free_regions-Freed (suc n) tag rs ms s (boot_module _ _ _ ms' e rest) ready fits long =
      let first = plain_tag tag s (omega arith) ready in
      rw (for_tags-next (read_tag mem) n tag s first.state (omega arith) first.returns) (
        Freed-append s [] rs first (
          free_regions-Freed n (tag + tag_length (u32_at mem (tag + 4))) rs ms' first.state rest
            first.ready fits long))
  free_regions-Freed (suc n) tag rs ms s (other_tag _ _ _ _ ne0 ne3 ne6 rest) ready fits long =
      let first = plain_tag tag s ne6 ready in
      rw (for_tags-next (read_tag mem) n tag s first.state ne0 first.returns) (
        Freed-append s [] rs first (
          free_regions-Freed n (tag + tag_length (u32_at mem (tag + 4))) rs ms first.state rest
            first.ready fits long))
