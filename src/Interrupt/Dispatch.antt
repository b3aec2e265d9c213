-- ===== src/Interrupt/Dispatch.antt =====
-- Where the processor goes on an interrupt after interrupt_init.
use native.Mathlib.Decide.{ℕ_discrete}
use rtv.Base.{
  ℕ, zero, suc, ◌+◌, ◌-◌, ◌*◌, ◌/◌, ◌%◌, ◌^◌, ◌≤◌, ◌<◌, ◌≡◌, ◌⊎◌, inl, refl, ◌∙◌, true, false, ◌&&◌,
  ◌==◌, ltb, leb, if◌then◌else◌, List, [], ◌∷◌, Option, none, some, arith,
}
use rtv.Base.Run.{Run, ok}
use rtv.Word.{shr}
use rtv.Bits.{Words, store}
use rtv.Interrupt.Gates.{
  idt_entry_nr, interrupt_gate_type, entry_word, gate, Interrupts, idt_set_entry, set_entries,
  idt_init, out_byte, pit_init, pic_init, interrupt_init,
}

-- The processor's reading of an entry: the selector and the address of an interrupt gate that is
-- present, for privilege level 0 and without a stack of its own.
abbrev pub gate_target : ℕ → Option (ℕ × ℕ)
gate_target w =
    if (shr w 47 % 2 == 1)
      && ((shr w 45 % 4 == 0) && ((shr w 40 % 32 == 14) && (shr w 32 % 8 == 0)))
    then some (shr w 16 % 2 ^ 16, w % 2 ^ 16 + shr w 48 % 2 ^ 48 * 2 ^ 16)
    else none

-- What memory holds at address `a`, as far as the table says: its entries stand behind each other from
-- its address `idt_ptr` on.
unfoldable pub entry_in_memory : (idt_ptr : ℕ) → Interrupts → ℕ → Option ℕ
entry_in_memory idt_ptr s a =
    if leb idt_ptr a && (ltb (a - idt_ptr) (256 * 16) && ((a - idt_ptr) % 16 == 0))
    then some (s.idt ((a - idt_ptr) / 16))
    else none

-- The target of vector `v`: the processor reads the 16 bytes at `v * 16` from the base address that
-- `lidt` loaded, if they lie within the limit that it loaded.
unfoldable pub dispatch : (idt_ptr : ℕ) → Interrupts → ℕ → Option (ℕ × ℕ)
dispatch idt_ptr s v =
    if leb (v * 16 + 15) s.loaded.limit
    then elim (entry_in_memory idt_ptr s (s.loaded.base + v * 16)) [
      | none ↦ none
      | some w ↦ gate_target w
    ]
    else none

gate_target_lem :
    (handler : ℕ)
    → handler < 2 ^ 64
    → gate_target (entry_word (gate interrupt_gate_type handler)) ≡ some (8, handler)
unfolding entry_word gate
gate_target_lem handler lt = ground arith

-- The initialisation word 2 that an interrupt controller got last, the first byte for its data port
-- behind its last initialisation: the vector of its first interrupt. `found` is the byte seen so far.
unfoldable pub first_vector : (command data_port : ℕ) → Option ℕ → List (ℕ × ℕ) → Option ℕ
first_vector command data_port found [] = none
first_vector command data_port found ((port, val) ∷ ports) =
    let here = first_vector command data_port (some val) ports in
    let rest = first_vector command data_port found ports in
    if port == command && (shr val 4 % 2 == 1)
    then found
    else if port == data_port
    then here
    else rest

-- The entries from `i` to `i + left` are gates to the handlers, and the others are as they were.
record Filled (int_table : ℕ → ℕ) (s : Interrupts) (i left : ℕ) (r : Run Interrupts (Unit {0}))
    : Type 0 where
  table : Words
  returns : r ≡ ok tt (record s { idt = table })
  entries :
      (v : ℕ) → i ≤ v → v < i + left → table v ≡ entry_word (gate interrupt_gate_type (int_table v))
  others : (v : ℕ) → (v < i) ⊎ (i + left ≤ v) → table v ≡ s.idt v

module _ (int_table : ℕ → ℕ) where
  set_entries-next :
      (left i : ℕ) (s : Interrupts)
      → i < idt_entry_nr
      → set_entries int_table (suc left) i s
        ≡ set_entries int_table left
            (i + 1)
            (record s { idt = store s.idt i (entry_word (gate interrupt_gate_type (int_table i))) })
  unfolding set_entries idt_set_entry
  set_entries-next left i s lt = rw test
    where
      test : ltb i idt_entry_nr ≡ true
      test = ground arith

  set_entries-Filled :
      (left i : ℕ) (s : Interrupts)
      → i + left ≤ idt_entry_nr
      → Filled int_table s i left (set_entries int_table left i s)
  set_entries-Filled zero i s fits = record {
    table = s.idt;
    returns = unfold set_entries in refl;
    entries = λ v le lt. absurd (omega arith);
    others = λ v out. refl;
  }
  set_entries-Filled (suc left) i s fits =
      let word = entry_word (gate interrupt_gate_type (int_table i)) in
      let later =
        set_entries-Filled left (i + 1) (record s { idt = store s.idt i word }) (omega arith) in
      record {
        table = later.table;
        returns = set_entries-next left i s (omega arith) ∙ later.returns;
        entries = λ v le lt. elim (ℕ_discrete v i) [
          | yes same ↦ rw same (later.others i (inl (omega arith)) ∙ unfold store in ground arith)
          | no other ↦ later.entries v (omega arith) (omega arith)
        ];
        others = λ v out. later.others v (ground arith) ∙ unfold store in ground arith;
      }

  -- The state at the end, with the table that the loop has made.
  abbrev programmed : (idt_ptr : ℕ) → Interrupts → Words → Interrupts
  programmed idt_ptr s table = record {
    idt = table;
    idtr = record { limit = 4095; base = idt_ptr };
    loaded = record { limit = 4095; base = idt_ptr };
    ports =
        (0x40, 46)
        ∷ (0x40, 155)
        ∷ (0x43, 0x34)
        ∷ (0xA1, 0x09)
        ∷ (0xA1, 0x02)
        ∷ (0xA1, 0x28)
        ∷ (0xA0, 0x11)
        ∷ (0x21, 0x0D)
        ∷ (0x21, 0x04)
        ∷ (0x21, 0x20)
        ∷ (0x20, 0x11)
        ∷ s.ports;
  }

  -- For handlers at 64-bit addresses: `interrupt_init` ends normally; then the processor's reading of
  -- memory at the base that `lidt` loaded, where the table stands at `idt_ptr`, gives the kernel's code
  -- selector and the handler of the vector for each of the 256 vectors, and nothing for any other number,
  -- and the interrupts of the two controllers begin at vectors 0x20 and 0x28.
  pub interrupt_init-dispatch :
      (idt_ptr : ℕ) (s : Interrupts)
      → ((v : ℕ) → int_table v < 2 ^ 64)
      → (s' : Interrupts) × (interrupt_init int_table idt_ptr s ≡ ok tt s')
        × ((v : ℕ) → v < 256 → dispatch idt_ptr s' v ≡ some (8, int_table v))
        × ((v : ℕ) → 256 ≤ v → dispatch idt_ptr s' v ≡ none)
        × (first_vector 0x20 0x21 none s'.ports ≡ some 0x20)
        × (first_vector 0xA0 0xA1 none s'.ports ≡ some 0x28)
  unfolding interrupt_init idt_init pic_init pit_init out_byte dispatch entry_in_memory first_vector
  interrupt_init-dispatch idt_ptr s fits =
      let f = set_entries-Filled idt_entry_nr 0 s (omega arith) in
      (
        programmed idt_ptr s f.table,
        rw f.returns refl,
        λ v lt.
            rw (inside v lt, there v lt, place v, f.entries v (omega arith) (omega arith))
              (gate_target_lem (int_table v) (fits v)),
        λ v le. rw (outside v le),
        refl,
        refl,
      )
    where
      inside : (v : ℕ) → v < 256 → leb (v * 16 + 15) 4095 ≡ true
      inside v lt = ground arith

      there :
          (v : ℕ)
          → v < 256
          → (leb idt_ptr (idt_ptr + v * 16)
              && (ltb (idt_ptr + v * 16 - idt_ptr) 4096
                  && ((idt_ptr + v * 16 - idt_ptr) % 16 == 0)))
            ≡ true
      there v lt = ground arith

      place : (v : ℕ) → (idt_ptr + v * 16 - idt_ptr) / 16 ≡ v
      place v = omega arith

      outside : (v : ℕ) → 256 ≤ v → leb (v * 16 + 15) 4095 ≡ false
      outside v le = ground arith
