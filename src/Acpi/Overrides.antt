-- ===== src/Acpi/Overrides.antt =====
-- What acpi_parse_apic records of the table, as acpi_irq_to_gsi finds it.
use rtv.Base.{
  ℕ, zero, suc, ◌+◌, ◌%◌, ◌^◌, ◌≤◌, ◌<◌, ◌≡◌, refl, bit_and, true, false, not, ◌&&◌, ◌==◌, ltb,
  if◌then◌else◌, List, [], ◌∷◌, arith, Bool-cases, inl, inr,
}
use rtv.Base.Run.{ok}
use rtv.Word.Laws.{bit_and_mask}
use rtv.Bits.{store}
use rtv.Acpi.Madt.{
  Override, Acpi, Memory, max_cpus, max_irq_overrides, acpi_add_cpu, Entry, lapic, ioapic,
  interrupt_override, unsupported, entry_at, put_override, handle,
}

-- The interrupt of the first override for `irq` and its flags, or `d` where there is none.
unfoldable pub gsi_of : List Entry → (irq : ℕ) → ℕ × ℕ → ℕ × ℕ
gsi_of [] irq d = d
gsi_of (interrupt_override bus q gsi flags ∷ es) irq d =
    if q == irq then (gsi, flags) else gsi_of es irq d
gsi_of (lapic apic_id flags ∷ es) irq d = gsi_of es irq d
gsi_of (ioapic address gsi_base ∷ es) irq d = gsi_of es irq d
gsi_of (unsupported ∷ es) irq d = gsi_of es irq d

-- The entries that the routine finds at `[p, fin)`, none of length 0.
pub data Found (mem : Memory) (fin : ℕ) : ℕ → List Entry → Type 0 where
  done : (p : ℕ) → fin ≤ p → Found mem fin p []
  next :
      (p : ℕ) (es : List Entry)
      → p < fin
      → 0 < mem (p + 1)
      → Found mem fin (p + mem (p + 1)) es
      → Found mem fin p (entry_at mem p ∷ es)

-- The kernel has room for the structures: 16 processors, one I/O APIC and 32 overrides of bus 0. A
-- processor that is disabled, and the one that runs, with the identifier `boot`, take no room.
unfoldable pub Fits : (boot cpus ioapics overrides : ℕ) → List Entry → Type 0
Fits boot c i o [] = (c ≤ max_cpus) × (i ≤ 1) × (o ≤ max_irq_overrides)
Fits boot c i o (lapic apic_id flags ∷ es) =
    Fits boot (if (flags % 2 == 1) && not (apic_id == boot) then c + 1 else c) i o es
Fits boot c i o (ioapic address gsi_base ∷ es) = Fits boot c (i + 1) o es
Fits boot c i o (interrupt_override bus irq gsi flags ∷ es) = (bus ≡ 0) × Fits boot c i (o + 1) es
Fits boot c i o (unsupported ∷ es) = Fits boot c i o es

-- The number of processors with those that take room, and the last I/O APIC, after `cpus` processors and
-- the I/O APIC at `address` with its interrupts from `base` on.
unfoldable pub tally : (boot cpus address base : ℕ) → List Entry → ℕ × (ℕ × ℕ)
tally boot c a g [] = (c, (a, g))
tally boot c a g (lapic apic_id flags ∷ es) =
    tally boot (if (flags % 2 == 1) && not (apic_id == boot) then c + 1 else c) a g es
tally boot c a g (ioapic address base ∷ es) = tally boot c address base es
tally boot c a g (interrupt_override bus irq gsi flags ∷ es) = tally boot c a g es
tally boot c a g (unsupported ∷ es) = tally boot c a g es

-- The tally of a state before some entries.
abbrev pub tally_from : Acpi → List Entry → ℕ × (ℕ × ℕ)
tally_from s = tally (s.lapic_phys_ids s.pcpu_id) s.g_cpus s.ioapic_addr s.gsi_base

-- The entries that are used so far are at most as many as the counts say.
pub Fits-bound :
    (es : List Entry) (boot c i o : ℕ)
    → Fits boot c i o es
    → (c ≤ max_cpus) × (i ≤ 1) × (o ≤ max_irq_overrides)
unfolding Fits
Fits-bound [] boot c i o h = h
Fits-bound (lapic apic_id flags ∷ es) boot c i o h =
    let b =
      Fits-bound es boot (if (flags % 2 == 1) && not (apic_id == boot) then c + 1 else c) i o h in
    (ground arith, omega arith, omega arith)
Fits-bound (ioapic address base ∷ es) boot c i o h =
    let b = Fits-bound es boot c (i + 1) o h in (omega arith, omega arith, omega arith)
Fits-bound (interrupt_override bus irq gsi flags ∷ es) boot c i o (z, h) =
    let b = Fits-bound es boot c i (o + 1) h in (omega arith, omega arith, omega arith)
Fits-bound (unsupported ∷ es) boot c i o h = Fits-bound es boot c i o h

-- The first of `left` overrides from `i` on for `irq`, or `d`.
unfoldable pub search : (ℕ → Override) → (left i irq : ℕ) → ℕ × ℕ → ℕ × ℕ
search map zero i irq d = d
search map (suc left) i irq d =
    if (map i).irq == irq then ((map i).gsi, (map i).flags) else search map left (i + 1) irq d

-- A new last override answers where the others do not.
search-put_override :
    (map : ℕ → Override) (o : Override) (left i n irq : ℕ) (d : ℕ × ℕ)
    → n ≡ i + left
    → search (put_override map n o) (suc left) i irq d
      ≡ search map left i irq (if o.irq == irq then (o.gsi, o.flags) else d)
unfolding search put_override
search-put_override map o zero i n irq d e = rw last
  where
    last : (n == i) ≡ true
    last = ground arith
search-put_override map o (suc left) i n irq d e =
    rw (other, search-put_override map o left (i + 1) n irq d (omega arith))
  where
    other : (n == i) ≡ false
    other = ground arith

-- The override table of the state is that of `s` with the override of `e`, if it is one, and its tally
-- goes on behind `e`.
pub record Handled (s : Acpi) (e : Entry) (es : List Entry) : Type 0 where
  pub state : Acpi
  pub returns : handle e s ≡ ok tt state
  pub room :
      Fits (state.lapic_phys_ids state.pcpu_id) state.g_cpus state.num_ioapic state.num_overrides es
  pub answers :
      (irq : ℕ) (d : ℕ × ℕ)
      → search state.irq_map state.num_overrides 0 irq d
        ≡ search s.irq_map s.num_overrides 0 irq (gsi_of (e ∷ []) irq d)
  pub counted : tally_from state es ≡ tally_from s (e ∷ es)

module _ (s : Acpi) (es : List Entry) where
  abbrev boot : ℕ
  boot = s.lapic_phys_ids s.pcpu_id

  add_cpu-Handled :
      (apic_id flags : ℕ)
      → Fits boot
          (if (flags % 2 == 1) && not (apic_id == boot) then s.g_cpus + 1 else s.g_cpus)
          s.num_ioapic
          s.num_overrides
          es
      → Handled s (lapic apic_id flags) es
  unfolding handle acpi_add_cpu gsi_of tally
  add_cpu-Handled apic_id flags fits = elim (Bool-cases (flags % 2 == 1)) [
    | inr off ↦ record {
      state = s;
      returns = rw (disabled off);
      room = rw off at fits;
      answers = λ irq d. refl;
      counted = rw off;
    }
    | inl on ↦ elim (Bool-cases (apic_id == boot)) [
      | inl same ↦ record {
        state = s;
        returns = rw (enabled on, same);
        room = rw (on, same) at fits;
        answers = λ irq d. refl;
        counted = rw (on, same);
      }
      | inr other ↦
          let fits' : Fits boot (s.g_cpus + 1) s.num_ioapic s.num_overrides es =
            rw (on, other) at fits in
          record {
            state = record s {
              lapic_ids = store s.lapic_ids s.g_cpus apic_id;
              g_cpus = s.g_cpus + 1;
            };
            returns = rw (enabled on, other, below fits', small fits', none fits');
            room = fits';
            answers = λ irq d. refl;
            counted = rw (on, other);
          }
    ]
  ]
    where
      disabled : (flags % 2 == 1) ≡ false → (bit_and flags 1 == 0) ≡ true
      disabled off = let m = bit_and_mask 1 flags in ground arith

      enabled : (flags % 2 == 1) ≡ true → (bit_and flags 1 == 0) ≡ false
      enabled on = let m = bit_and_mask 1 flags in ground arith

      room_for : Fits boot (s.g_cpus + 1) s.num_ioapic s.num_overrides es → s.g_cpus + 1 ≤ max_cpus
      room_for f = (Fits-bound es boot (s.g_cpus + 1) s.num_ioapic s.num_overrides f).0

      below :
          Fits boot (s.g_cpus + 1) s.num_ioapic s.num_overrides es → ltb s.g_cpus max_cpus ≡ true
      below f = let b = room_for f in ground arith

      small :
          Fits boot (s.g_cpus + 1) s.num_ioapic s.num_overrides es
          → (s.g_cpus + 1) % 2 ^ 16 ≡ s.g_cpus + 1
      small f = let b = room_for f in omega arith

      none :
          Fits boot (s.g_cpus + 1) s.num_ioapic s.num_overrides es
          → ltb max_cpus (s.g_cpus + 1) ≡ false
      none f = let b = room_for f in ground arith

  ioapic-Handled :
      (address base : ℕ)
      → Fits (s.lapic_phys_ids s.pcpu_id) s.g_cpus (s.num_ioapic + 1) s.num_overrides es
      → Handled s (ioapic address base) es
  unfolding handle gsi_of tally
  ioapic-Handled address base fits = record {
    state = record s { ioapic_addr = address; gsi_base = base; num_ioapic = s.num_ioapic + 1 };
    returns = rw (small, none);
    room = fits;
    answers = λ irq d. refl;
    counted = refl;
  }
    where
      small : (s.num_ioapic + 1) % 2 ^ 16 ≡ s.num_ioapic + 1
      small =
          let b =
            Fits-bound es (s.lapic_phys_ids s.pcpu_id) s.g_cpus (s.num_ioapic + 1) s.num_overrides
              fits in
          omega arith

      none : ltb 1 (s.num_ioapic + 1) ≡ false
      none =
          let b =
            Fits-bound es (s.lapic_phys_ids s.pcpu_id) s.g_cpus (s.num_ioapic + 1) s.num_overrides
              fits in
          ground arith

  override-Handled :
      (bus irq gsi flags : ℕ)
      → bus ≡ 0
      → Fits (s.lapic_phys_ids s.pcpu_id) s.g_cpus s.num_ioapic (s.num_overrides + 1) es
      → Handled s (interrupt_override bus irq gsi flags) es
  unfolding handle gsi_of tally
  override-Handled bus irq gsi flags zero_bus fits = record {
    state = record s {
      irq_map = put_override s.irq_map s.num_overrides o;
      num_overrides = s.num_overrides + 1;
    };
    returns = rw (on_bus, below, small, none);
    room = fits;
    answers = λ q d.
        rw one_more
          (search-put_override s.irq_map o s.num_overrides 0 s.num_overrides q d (omega arith));
    counted = refl;
  }
    where
      o : Override
      o = record { irq = irq; flags = flags; gsi = gsi }

      on_bus : (bus == 0) ≡ true
      on_bus = ground arith

      below : ltb s.num_overrides max_irq_overrides ≡ true
      below =
          let b =
            Fits-bound es (s.lapic_phys_ids s.pcpu_id) s.g_cpus s.num_ioapic (s.num_overrides + 1)
              fits in
          ground arith

      small : (s.num_overrides + 1) % 2 ^ 8 ≡ s.num_overrides + 1
      small =
          let b =
            Fits-bound es (s.lapic_phys_ids s.pcpu_id) s.g_cpus s.num_ioapic (s.num_overrides + 1)
              fits in
          omega arith

      none : ltb max_irq_overrides (s.num_overrides + 1) ≡ false
      none =
          let b =
            Fits-bound es (s.lapic_phys_ids s.pcpu_id) s.g_cpus s.num_ioapic (s.num_overrides + 1)
              fits in
          ground arith

      one_more : s.num_overrides + 1 ≡ suc s.num_overrides
      one_more = omega arith

pub handle-Handled :
    (s : Acpi) (e : Entry) (es : List Entry)
    → Fits (s.lapic_phys_ids s.pcpu_id) s.g_cpus s.num_ioapic s.num_overrides (e ∷ es)
    → Handled s e es
unfolding Fits
handle-Handled s (lapic apic_id flags) es fits = add_cpu-Handled s es apic_id flags fits
handle-Handled s (ioapic address base) es fits = ioapic-Handled s es address base fits
handle-Handled s (interrupt_override bus irq gsi flags) es (z, fits) =
    override-Handled s es bus irq gsi flags z fits
handle-Handled s unsupported es fits = record {
  state = s;
  returns = unfold handle in refl;
  room = fits;
  answers = λ irq d. unfold gsi_of in refl;
  counted = unfold tally in refl;
}
