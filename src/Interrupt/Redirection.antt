-- ===== src/Interrupt/Redirection.antt =====
-- The redirection entries of the I/O APIC under ioapic_map_gsi and the loop of ioapic_init.
use native.Mathlib.Decide.{dec_lt, ℕ_discrete}
use rtv.Base.{
  ℕ, zero, suc, ◌+◌, ◌-◌, ◌*◌, ◌%◌, ◌^◌, ◌≤◌, ◌<◌, ◌≡◌, ◌≢◌, ◌⊎◌, inl, inr, refl, ◌∙◌, true, false,
  ◌||◌, ltb, leb, bit_or, List, [], ◌∷◌, ◌++◌, arith, Bool, Bool-cases,
}
use rtv.Base.Run.{Run, ok, panicked}
use rtv.Bits.{Words, store}
use rtv.Interrupt.IoApic.{
  IoApic, Controller, ioapic_write64, ioapic_redtbl, ioapic_map_gsi, mask_entries,
}
use rtv.Interrupt.Device.{IsMapped, masked, half_written, rewritten, ioapic_write64_lem}

-- Redirection entry `n`, of two registers.
abbrev pub entry_of : Words → ℕ → ℕ
entry_of r n = r (0x10 + 2 * n) + r (0x11 + 2 * n) * 2 ^ 32

-- Entry `n` is whole, the old one or the new one, or it is masked.
abbrev pub Untorn : (n old new : ℕ) → Words → Type 0
Untorn n old new r = (entry_of r n ≡ old) ⊎ ((r (0x10 + 2 * n) ≡ 0x10000) ⊎ (entry_of r n ≡ new))

unfoldable pub All : (Words → Type 0) → List Words → Type 0
All P [] = Unit {0}
All P (r ∷ rs) = P r × All P rs

-- Entry `n` is written: the device's other registers are as they were, and at no write before was the
-- entry made of halves of the old and the new one without being masked.
pub record Redirected (s : Controller) (n word : ℕ) (r : Run Controller (Unit {0})) : Type 0 where
  pub device : IoApic
  pub returns : r ≡ ok tt (record s { ioapic = device })
  pub entry : entry_of device.registers n ≡ word % 2 ^ 64
  pub others :
      (k : ℕ)
      → ◌≢◌ {A = ℕ} k (0x10 + 2 * n)
      → ◌≢◌ {A = ℕ} k (0x11 + 2 * n)
      → device.registers k ≡ s.ioapic.registers k
  pub during : List Words
  pub log : device.history ≡ during ++ s.ioapic.history
  pub untorn : All (Untorn n (entry_of s.ioapic.registers n) (word % 2 ^ 64)) during

module _ (s : Controller) (mapped : IsMapped s) where
  ioapic_write64-Redirected :
      (n word : ℕ) → n < 120 → Redirected s n word (ioapic_write64 (ioapic_redtbl n) word s)
  ioapic_write64-Redirected n word lt = record {
    device = rewritten (0x10 + 2 * n) word s.ioapic;
    returns = rw register (ioapic_write64_lem s mapped (0x10 + 2 * n) word (omega arith));
    entry = unfold store in ground arith;
    others = λ k ne ne'. unfold store in ground arith;
    during =
        half_written (0x10 + 2 * n) word s.ioapic.registers
        ∷ (masked (0x10 + 2 * n) s.ioapic.registers ∷ (s.ioapic.registers ∷ []));
    log = refl;
    untorn = unfold All in (inr (inl half), (inr (inl cleared), (inl refl, tt)));
  }
    where
      register : ioapic_redtbl n ≡ 0x10 + 2 * n
      register = omega arith

      cleared : masked (0x10 + 2 * n) s.ioapic.registers (0x10 + 2 * n) ≡ 0x10000
      cleared = unfold store in ground arith

      half : half_written (0x10 + 2 * n) word s.ioapic.registers (0x10 + 2 * n) ≡ 0x10000
      half = unfold store in ground arith

  -- The condition of the panic.
  abbrev guard : ℕ → Bool
  guard gsi = ltb gsi s.acpi.gsi_base || leb ((s.acpi.gsi_base + s.num_gsi) % 2 ^ 32) gsi

  -- For a device that shows at its addresses and has at most 120 entries, with interrupt numbers below
  -- 2 ^ 32: `ioapic_map_gsi` of an interrupt that the device has writes its entry and no other register,
  -- and at every moment the entry is the old one, masked or the new one; of any other it panics.
  pub ioapic_map_gsi-Redirected :
      (gsi vector flags : ℕ)
      → s.num_gsi ≤ 120
      → s.acpi.gsi_base + s.num_gsi < 2 ^ 32
      → ((s.acpi.gsi_base ≤ gsi)
          × (gsi < s.acpi.gsi_base + s.num_gsi)
          × Redirected s
              (gsi - s.acpi.gsi_base)
              (bit_or flags vector)
              (ioapic_map_gsi gsi vector flags s))
        ⊎ (((gsi < s.acpi.gsi_base) ⊎ (s.acpi.gsi_base + s.num_gsi ≤ gsi))
            × (ioapic_map_gsi gsi vector flags s ≡ panicked))
  unfolding ioapic_map_gsi
  ioapic_map_gsi-Redirected gsi vector flags few small = elim (Bool-cases (guard gsi)) [
    | inl out ↦ inr (outside out, rw out)
    | inr inside ↦ inl (
      above inside,
      below inside,
      rw inside
          (ioapic_write64-Redirected (gsi - s.acpi.gsi_base) (bit_or flags vector) (near inside)),
    )
  ]
    where
      outside : guard gsi ≡ true → (gsi < s.acpi.gsi_base) ⊎ (s.acpi.gsi_base + s.num_gsi ≤ gsi)
      outside e = elim (dec_lt gsi s.acpi.gsi_base) [ yes lt ↦ inl lt | no ge ↦ inr (ground arith) ]

      above : guard gsi ≡ false → s.acpi.gsi_base ≤ gsi
      above e = ground arith

      below : guard gsi ≡ false → gsi < s.acpi.gsi_base + s.num_gsi
      below e = ground arith

      near : guard gsi ≡ false → gsi - s.acpi.gsi_base < 120
      near e = let h = above e in let h' = below e in omega arith

-- The entries from `i` to `i + left` are masked, and the other registers are as they were.
pub record Masked (s : Controller) (i left : ℕ) (r : Run Controller (Unit {0})) : Type 0 where
  pub device : IoApic
  pub returns : r ≡ ok tt (record s { ioapic = device })
  pub entries : (n : ℕ) → i ≤ n → n < i + left → entry_of device.registers n ≡ 0x10000
  pub others :
      (k : ℕ)
      → (k < 0x10 + 2 * i) ⊎ (0x10 + 2 * (i + left) ≤ k)
      → device.registers k ≡ s.ioapic.registers k

mask_entries-next :
    (s : Controller) (left i : ℕ) (d : IoApic)
    → ioapic_write64 (ioapic_redtbl i) 0x10000 s ≡ ok tt (record s { ioapic = d })
    → mask_entries (suc left) i s ≡ mask_entries left (i + 1) (record s { ioapic = d })
unfolding mask_entries
mask_entries-next s left i d e = rw e

pub mask_entries-Masked :
    (left i : ℕ) (s : Controller)
    → IsMapped s
    → i + left ≤ 120
    → Masked s i left (mask_entries left i s)
mask_entries-Masked zero i s mapped few = record {
  device = s.ioapic;
  returns = unfold mask_entries in refl;
  entries = λ n le lt. absurd (omega arith);
  others = λ k out. refl;
}
mask_entries-Masked (suc left) i s mapped few =
    let r = ioapic_write64-Redirected s mapped i 0x10000 (omega arith) in
    let later =
      mask_entries-Masked left (i + 1) (record s { ioapic = r.device }) mapped (omega arith) in
    record {
      device = later.device;
      returns = mask_entries-next s left i r.device r.returns ∙ later.returns;
      entries = λ n le lt. elim (ℕ_discrete n i) [
        | yes same ↦
            rw
              (
                same,
                later.others (0x10 + 2 * i) (inl (omega arith)),
                later.others (0x11 + 2 * i) (inl (omega arith)),
              )
              r.entry
        | no other ↦ later.entries n (omega arith) (omega arith)
      ];
      others = λ k out. later.others k (ground arith) ∙ r.others k (ground arith) (ground arith);
    }
