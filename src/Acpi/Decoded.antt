-- ===== src/Acpi/Decoded.antt =====
-- What acpi_parse_apic makes of the bytes of a MADT.
use rtv.Base.{
  ℕ, ◌+◌, ◌/◌, ◌%◌, ◌^◌, ◌≤◌, ◌<◌, ◌≡◌, refl, sym, ap, ◌∙◌, false, not, ◌&&◌, ◌==◌, if◌then◌else◌,
  List, [], ◌∷◌, arith,
}
use rtv.Acpi.Madt.{
  Memory, u16_at, u32_at, max_cpus, max_irq_overrides, Entry, lapic, ioapic, interrupt_override,
  unsupported, entry_at,
}
use rtv.Acpi.Overrides.{gsi_of, Found, done, next, Fits, tally}
use rtv.Acpi.Layout.{
  Structure, local_apic, io_apic, source_override, other, two_bytes, four_bytes, size_of, bytes,
  IsSound, Holds, Written, no_more, one_more, override_for, other_processors, io_apics,
  last_io_apic, source_overrides, AllOnIsa,
}

-- What the routine makes of a structure.
unfoldable pub entry_for : Structure → Entry
entry_for (local_apic processor_id apic_id flags) = lapic apic_id flags
entry_for (io_apic io_apic_id address gsi_base) = ioapic address gsi_base
entry_for (source_override bus source gsi flags) = interrupt_override bus source gsi flags
entry_for (other type_ content) = unsupported

unfoldable pub entries_for : List Structure → List Entry
entries_for [] = []
entries_for (st ∷ sts) = entry_for st ∷ entries_for sts

module _ (mem : Memory) where
  -- Numbers of two and of four bytes, and bytes, read back.
  one_at : (q r b : ℕ) → q ≡ r → mem q ≡ b → mem r ≡ b
  one_at q r b same e = rw (sym same) e

  two_at :
      (q r n : ℕ)
      → q ≡ r
      → n < 2 ^ 16
      → mem q ≡ n % 2 ^ 8
      → mem (q + 1) ≡ n / 2 ^ 8 % 2 ^ 8
      → u16_at mem r ≡ n
  two_at q r n same fits e0 e1 = rw (sym same, e0, e1) (omega arith)

  four_at :
      (q r n : ℕ)
      → q ≡ r
      → n < 2 ^ 32
      → mem q ≡ n % 2 ^ 8
      → mem (q + 1) ≡ n / 2 ^ 8 % 2 ^ 8
      → mem (q + 1 + 1) ≡ n / 2 ^ 16 % 2 ^ 8
      → mem (q + 1 + 1 + 1) ≡ n / 2 ^ 24 % 2 ^ 8
      → u32_at mem r ≡ n
  four_at q r n same fits e0 e1 e2 e3 = rw (sym same, e0, e1, third, fourth) (omega arith)
    where
      third : mem (q + 2) ≡ n / 2 ^ 16 % 2 ^ 8
      third = one_at (q + 1 + 1) (q + 2) (n / 2 ^ 16 % 2 ^ 8) (omega arith) e2

      fourth : mem (q + 2 + 1) ≡ n / 2 ^ 24 % 2 ^ 8
      fourth = one_at (q + 1 + 1 + 1) (q + 2 + 1) (n / 2 ^ 24 % 2 ^ 8) (omega arith) e3

  entry_at-Holds :
      (p : ℕ) (st : Structure)
      → IsSound st
      → Holds mem p (bytes st)
      → (entry_at mem p ≡ entry_for st) × (mem (p + 1) ≡ size_of (bytes st))
  unfolding entry_at entry_for bytes four_bytes two_bytes IsSound
  entry_at-Holds p (local_apic processor_id apic_id flags) small
        (t, (l, (b2, (b3, (f0, (f1, (f2, (f3, _)))))))) =
      (
        rw
            (
              t,
              one_at (p + 1 + 1 + 1) (p + 3) apic_id (omega arith) b3,
              four_at (p + 1 + 1 + 1 + 1) (p + 4) flags (omega arith) small f0 f1 f2 f3,
            )
            refl,
        l,
      )
  entry_at-Holds p (io_apic io_apic_id address gsi_base) (small, small')
        (t, (l, (b2, (b3, (a0, (a1, (a2, (a3, (g0, (g1, (g2, (g3, _)))))))))))) =
      (
        rw
            (
              t,
              four_at (p + 1 + 1 + 1 + 1) (p + 4) address (omega arith) small a0 a1 a2 a3,
              four_at (p + 1 + 1 + 1 + 1 + 1 + 1 + 1 + 1) (p + 8) gsi_base (omega arith) small' g0
                  g1 g2 g3,
            )
            refl,
        l,
      )
  entry_at-Holds p (source_override bus source gsi flags) (small, small')
        (t, (l, (b2, (b3, (g0, (g1, (g2, (g3, (f0, (f1, _)))))))))) =
      (
        rw
            (
              t,
              one_at (p + 1 + 1) (p + 2) bus (omega arith) b2,
              one_at (p + 1 + 1 + 1) (p + 3) source (omega arith) b3,
              four_at (p + 1 + 1 + 1 + 1) (p + 4) gsi (omega arith) small g0 g1 g2 g3,
              two_at (p + 1 + 1 + 1 + 1 + 1 + 1 + 1 + 1) (p + 8) flags (omega arith) small' f0 f1,
            )
            refl,
        l,
      )
  entry_at-Holds p (other type_ content) big (t, (l, _)) =
      (rw (t, not_0, not_1, not_2) refl, omega arith)
    where
      not_0 : (type_ == 0) ≡ false
      not_0 = ground arith

      not_1 : (type_ == 1) ≡ false
      not_1 = ground arith

      not_2 : (type_ == 2) ≡ false
      not_2 = ground arith

  bytes-nonempty : (st : Structure) → 0 < size_of (bytes st)
  unfolding bytes
  bytes-nonempty (local_apic processor_id apic_id flags) = omega arith
  bytes-nonempty (io_apic io_apic_id address gsi_base) = omega arith
  bytes-nonempty (source_override bus source gsi flags) = omega arith
  bytes-nonempty (other type_ content) = omega arith

  -- The routine finds the entries of the structures.
  pub Written-Found :
      (fin p : ℕ) (sts : List Structure) → Written mem fin p sts → Found mem fin p (entries_for sts)
  unfolding entries_for
  Written-Found fin p sts (no_more _ le) = done p le
  Written-Found fin p sts (one_more _ st rest lt sound here more) =
      let (e, l) = entry_at-Holds p st sound here in
      let n = bytes-nonempty st in
      rw (sym e) (
        next p (entries_for rest) lt (omega arith)
          (rw l (Written-Found fin (p + size_of (bytes st)) rest more)))

pub override_for-gsi_of :
    (sts : List Structure) (irq : ℕ) (d : ℕ × ℕ)
    → gsi_of (entries_for sts) irq d ≡ override_for sts irq d
unfolding gsi_of entries_for entry_for override_for
override_for-gsi_of [] irq d = refl
override_for-gsi_of (local_apic processor_id apic_id flags ∷ sts) irq d =
    override_for-gsi_of sts irq d
override_for-gsi_of (io_apic io_apic_id address gsi_base ∷ sts) irq d =
    override_for-gsi_of sts irq d
override_for-gsi_of (source_override bus source gsi flags ∷ sts) irq d =
    rw (override_for-gsi_of sts irq d) refl
override_for-gsi_of (other type_ content ∷ sts) irq d = override_for-gsi_of sts irq d

-- The processors and the I/O APIC that the routine records.
pub tally-entries_for :
    (sts : List Structure) (boot c a g : ℕ)
    → tally boot c a g (entries_for sts) ≡ (c + other_processors boot sts, last_io_apic sts (a, g))
unfolding tally entries_for entry_for other_processors last_io_apic
tally-entries_for [] boot c a g = ap (λ (n : ℕ). (n, (a, g))) (omega arith)
tally-entries_for (local_apic processor_id apic_id flags ∷ sts) boot c a g =
    tally-entries_for sts boot (if (flags % 2 == 1) && not (apic_id == boot) then c + 1 else c) a g
    ∙ ap (λ (n : ℕ). (n, last_io_apic sts (a, g))) (ground arith)
tally-entries_for (io_apic io_apic_id address gsi_base ∷ sts) boot c a g =
    tally-entries_for sts boot c address gsi_base
tally-entries_for (source_override bus source gsi flags ∷ sts) boot c a g =
    tally-entries_for sts boot c a g
tally-entries_for (other type_ content ∷ sts) boot c a g = tally-entries_for sts boot c a g

-- The counts say that the routine has room.
pub entries_for-Fits :
    (sts : List Structure) (boot c i o : ℕ)
    → c + other_processors boot sts ≤ max_cpus
    → i + io_apics sts ≤ 1
    → o + source_overrides sts ≤ max_irq_overrides
    → AllOnIsa sts
    → Fits boot c i o (entries_for sts)
unfolding Fits entries_for entry_for other_processors io_apics source_overrides AllOnIsa
entries_for-Fits [] boot c i o a b d isa = (omega arith, omega arith, omega arith)
entries_for-Fits (local_apic processor_id apic_id flags ∷ sts) boot c i o a b d isa =
    entries_for-Fits sts boot (if (flags % 2 == 1) && not (apic_id == boot) then c + 1 else c) i o
      (ground arith) b d isa
entries_for-Fits (io_apic io_apic_id address gsi_base ∷ sts) boot c i o a b d isa =
    entries_for-Fits sts boot c (i + 1) o a (omega arith) d isa
entries_for-Fits (source_override bus source gsi flags ∷ sts) boot c i o a b d (z, isa) =
    (z, entries_for-Fits sts boot c i (o + 1) a b (omega arith) isa)
entries_for-Fits (other type_ content ∷ sts) boot c i o a b d isa =
    entries_for-Fits sts boot c i o a b d isa
