-- ===== src/Acpi/Parse.antt =====
-- acpi_parse_apic, and acpi_irq_to_gsi after it.
use rtv.Base.{
  ℕ, zero, suc, ◌+◌, ◌-◌, ◌≤◌, ◌<◌, ◌≡◌, refl, sym, ap, ◌∙◌, true, false, ltb, ◌==◌, List, [], ◌∷◌,
  arith, Bool-cases, inl, inr, if◌then◌else◌,
}
use rtv.Base.Run.{Run, ok}
use rtv.Acpi.Madt.{
  Acpi, Memory, max_irq_overrides, u32_at, Entry, lapic, ioapic, interrupt_override, unsupported,
  entry_at, handle, parse_entries, acpi_parse_apic, read_override, find_override, acpi_irq_to_gsi,
}
use rtv.Acpi.Layout.{
  Structure, Written, override_for, other_processors, io_apics, last_io_apic, source_overrides,
  AllOnIsa,
}
use rtv.Acpi.Decoded.{
  entries_for, Written-Found, override_for-gsi_of, tally-entries_for, entries_for-Fits,
}
use rtv.Acpi.Overrides.{
  gsi_of, Found, done, next, Fits, Fits-bound, tally, tally_from, search, handle-Handled,
}

gsi_of-cons :
    (e : Entry) (es : List Entry) (irq : ℕ) (d : ℕ × ℕ)
    → gsi_of (e ∷ es) irq d ≡ gsi_of (e ∷ []) irq (gsi_of es irq d)
unfolding gsi_of
gsi_of-cons (lapic apic_id flags) es irq d = refl
gsi_of-cons (ioapic address base) es irq d = refl
gsi_of-cons (interrupt_override bus q gsi flags) es irq d = refl
gsi_of-cons unsupported es irq d = refl

-- The loop ends normally, with the overrides of the entries behind those that were there.
record Parsed (s : Acpi) (es : List Entry) (r : Run Acpi (Unit {0})) : Type 0 where
  pub state : Acpi
  pub returns : r ≡ ok tt state
  pub room : state.num_overrides ≤ max_irq_overrides
  pub answers :
      (irq : ℕ) (d : ℕ × ℕ)
      → search state.irq_map state.num_overrides 0 irq d
        ≡ search s.irq_map s.num_overrides 0 irq (gsi_of es irq d)
  pub counted : (state.g_cpus, (state.ioapic_addr, state.gsi_base)) ≡ tally_from s es

module _ (mem : Memory) (fin : ℕ) where
  parse_entries-end : (fuel p : ℕ) (s : Acpi) → fin ≤ p → parse_entries mem fuel p fin s ≡ ok tt s
  unfolding parse_entries
  parse_entries-end zero p s le = rw test
    where
      test : ltb p fin ≡ false
      test = ground arith
  parse_entries-end (suc fuel) p s le = rw test
    where
      test : ltb p fin ≡ false
      test = ground arith

  parse_entries-next :
      (fuel p : ℕ) (s s' : Acpi)
      → p < fin
      → handle (entry_at mem p) s ≡ ok tt s'
      → parse_entries mem (suc fuel) p fin s ≡ parse_entries mem fuel (p + mem (p + 1)) fin s'
  unfolding parse_entries
  parse_entries-next fuel p s s' lt e = rw (test, e)
    where
      test : ltb p fin ≡ true
      test = ground arith

  parse_entries-Parsed :
      (fuel p : ℕ) (es : List Entry) (s : Acpi)
      → fin - p ≤ fuel
      → Found mem fin p es
      → Fits (s.lapic_phys_ids s.pcpu_id) s.g_cpus s.num_ioapic s.num_overrides es
      → Parsed s es (parse_entries mem fuel p fin s)
  parse_entries-Parsed fuel p es s enough (done _ le) fits = record {
    state = s;
    returns = parse_entries-end fuel p s le;
    room =
        let (a, b, c) =
          Fits-bound [] (s.lapic_phys_ids s.pcpu_id) s.g_cpus s.num_ioapic s.num_overrides fits in
        c;
    answers = λ irq d. unfold gsi_of in refl;
    counted = unfold tally in refl;
  }
  parse_entries-Parsed zero p es s enough (next _ es' lt some rest) fits = absurd (omega arith)
  parse_entries-Parsed (suc fuel) p es s enough (next _ es' lt some rest) fits =
      let h = handle-Handled s (entry_at mem p) es' fits in
      let later =
        parse_entries-Parsed fuel (p + mem (p + 1)) es' h.state (omega arith) rest h.room in
      record {
        state = later.state;
        returns = parse_entries-next fuel p s h.state lt h.returns ∙ later.returns;
        room = later.room;
        counted = later.counted ∙ h.counted;
        answers = λ irq d.
            later.answers irq d
            ∙ h.answers irq (gsi_of es' irq d)
            ∙ ap (search s.irq_map s.num_overrides 0 irq)
                (sym (gsi_of-cons (entry_at mem p) es' irq d));
      }

find_override-next :
    (s : Acpi) (left i irq : ℕ)
    → i < max_irq_overrides
    → find_override (suc left) i irq s ≡ (
        if (s.irq_map i).irq == irq
        then ok ((s.irq_map i).gsi, (s.irq_map i).flags) s
        else find_override left (i + 1) irq s)
unfolding find_override read_override
find_override-next s left i irq lt = elim (Bool-cases ((s.irq_map i).irq == irq)) [
  | inl e ↦ rw (inside, e)
  | inr e ↦ rw (inside, e)
]
  where
    inside : ltb i max_irq_overrides ≡ true
    inside = ground arith

pub find_override_lem :
    (s : Acpi) (left i irq : ℕ)
    → i + left ≤ max_irq_overrides
    → find_override left i irq s ≡ ok (search s.irq_map left i irq (irq, 0)) s
unfolding search
find_override_lem s zero i irq room = unfold find_override in refl
find_override_lem s (suc left) i irq room = elim (Bool-cases ((s.irq_map i).irq == irq)) [
  | inl e ↦ find_override-next s left i irq (omega arith) ∙ rw e
  | inr e ↦
      find_override-next s left i irq (omega arith)
      ∙ rw e (find_override_lem s left (i + 1) irq (omega arith))
]

-- For a MADT that holds structures as the ACPI specification lays out their bytes, with no override
-- recorded before, all overrides of bus 0, and room for the structures: no more than 16 processors with
-- those counted before, where one that is disabled and the one that runs do not count, one I/O APIC and
-- 32 overrides. `acpi_parse_apic` ends normally, with these processors counted and the address and first
-- interrupt of the table's I/O APIC recorded, if it has one. Then `acpi_irq_to_gsi` returns the interrupt
-- and the flags of the first override of the table for its argument, or the argument with flags 0 where
-- there is none.
pub acpi_irq_to_gsi-acpi_parse_apic :
    (mem : Memory) (madt : ℕ) (sts : List Structure) (s : Acpi)
    → Written mem (madt + u32_at mem (madt + 4)) (madt + 44) sts
    → s.num_overrides ≡ 0
    → AllOnIsa sts
    → s.g_cpus + other_processors (s.lapic_phys_ids s.pcpu_id) sts ≤ 16
    → s.num_ioapic + io_apics sts ≤ 1
    → source_overrides sts ≤ 32
    → (s' : Acpi) × (acpi_parse_apic mem madt s ≡ ok tt s')
      × (s'.g_cpus ≡ s.g_cpus + other_processors (s.lapic_phys_ids s.pcpu_id) sts)
      × ((s'.ioapic_addr, s'.gsi_base) ≡ last_io_apic sts (s.ioapic_addr, s.gsi_base))
      × ((irq : ℕ) → acpi_irq_to_gsi irq s' ≡ ok (override_for sts irq (irq, 0)) s')
unfolding acpi_parse_apic acpi_irq_to_gsi search
acpi_irq_to_gsi-acpi_parse_apic mem madt sts s written none isa cpus ioapics overrides =
    let begun : Acpi = record s { lapic_addr = u32_at mem (madt + 36) } in
    let p =
      parse_entries-Parsed mem (madt + u32_at mem (madt + 4)) (u32_at mem (madt + 4)) (madt + 44)
        (entries_for sts) begun (omega arith)
        (Written-Found mem (madt + u32_at mem (madt + 4)) (madt + 44) sts written)
        (rw none (
          entries_for-Fits sts (s.lapic_phys_ids s.pcpu_id) s.g_cpus s.num_ioapic 0 cpus ioapics
            (omega arith) isa)) in
    let room = p.room in
    let recorded =
      tally-entries_for sts (s.lapic_phys_ids s.pcpu_id) s.g_cpus s.ioapic_addr s.gsi_base in
    (
      p.state,
      p.returns,
      ap (λ (t : ℕ × (ℕ × ℕ)). t.0) (p.counted ∙ recorded),
      ap (λ (t : ℕ × (ℕ × ℕ)). t.1) (p.counted ∙ recorded),
      λ irq.
          find_override_lem p.state p.state.num_overrides 0 irq (omega arith)
          ∙ ap (λ (r : ℕ × ℕ). ok r p.state)
              (p.answers irq (irq, 0) ∙ rw none (override_for-gsi_of sts irq (irq, 0))),
    )
