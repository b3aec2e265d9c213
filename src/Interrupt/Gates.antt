-- ===== src/Interrupt/Gates.antt =====
-- arch/x86_64/interrupt/interrupt.c: idt_set_entry, idt_init, pic_init, pit_init and interrupt_init, with
-- the layouts of arch/x86_64/include/cpu.h. An entry of the IDT is a word of 16 bytes.
use rtv.Base.{ℕ, zero, suc, ◌+◌, ◌-◌, ◌*◌, ◌/◌, ◌%◌, ◌^◌, ltb, if◌then◌else◌, List, ◌∷◌}
use rtv.Base.Run.{ok, faulted, Cmd, pure, ◌>>◌}
use rtv.Word.{shr}
use rtv.Bits.{Words, store}

abbrev pub idt_entry_nr : ℕ
idt_entry_nr = 256

abbrev pub interrupt_gate_type : ℕ
interrupt_gate_type = 0xE

pub record IdtEntry : Type 0 where
  pub offset0 : ℕ
  pub selector : ℕ
  pub ist : ℕ
  pub zero0 : ℕ
  pub type_ : ℕ
  pub zero1 : ℕ
  pub dpl : ℕ
  pub p : ℕ
  pub offset1 : ℕ
  pub offset2 : ℕ
  pub reserved : ℕ

unfoldable pub entry_word : IdtEntry → ℕ
entry_word e =
    e.offset0
    + e.selector * 2 ^ 16
    + e.ist * 2 ^ 32
    + e.zero0 * 2 ^ 35
    + e.type_ * 2 ^ 40
    + e.zero1 * 2 ^ 44
    + e.dpl * 2 ^ 45
    + e.p * 2 ^ 47
    + e.offset1 * 2 ^ 48
    + e.offset2 * 2 ^ 64
    + e.reserved * 2 ^ 96

pub record IdtDesc : Type 0 where
  pub limit : ℕ
  pub base : ℕ

-- The table, the variable `idtr`, what `lidt` loaded, and the writes to ports, the last one first.
pub record Interrupts : Type 0 where
  pub idt : Words
  pub idtr : IdtDesc
  pub loaded : IdtDesc
  pub ports : List (ℕ × ℕ)

unfoldable pub gate : (type_ base : ℕ) → IdtEntry
gate type_ base = record {
  offset0 = base % 2 ^ 16;
  selector = 8;
  ist = 0;
  zero0 = 0;
  type_ = type_ % 2 ^ 4;
  zero1 = 0;
  dpl = 0;
  p = 1;
  offset1 = shr base 16 % 2 ^ 16;
  offset2 = shr base 32 % 2 ^ 32;
  reserved = 0;
}

unfoldable pub idt_set_entry : (index type_ handler : ℕ) → Cmd Interrupts (Unit {0})
idt_set_entry index type_ handler s =
    if ltb index idt_entry_nr
    then ok tt (record s { idt = store s.idt index (entry_word (gate type_ handler)) })
    else faulted

-- The loop of idt_init, with `left` entries to go.
unfoldable pub set_entries : (int_table : ℕ → ℕ) → (left i : ℕ) → Cmd Interrupts (Unit {0})
set_entries int_table zero i = pure tt
set_entries int_table (suc left) i = do
  idt_set_entry i interrupt_gate_type (int_table i)
  set_entries int_table left (i + 1)

unfoldable pub idt_init : (int_table : ℕ → ℕ) → (idt_ptr : ℕ) → Cmd Interrupts (Unit {0})
idt_init int_table idt_ptr = do
  set_entries int_table idt_entry_nr 0
  λ s. ok tt (record s { idtr = record { limit = idt_entry_nr * 16 - 1; base = idt_ptr } })
  λ s. ok tt (record s { loaded = s.idtr })

unfoldable pub out_byte : (port val : ℕ) → Cmd Interrupts (Unit {0})
out_byte port val s = ok tt (record s { ports = (port, val) ∷ s.ports })

-- PIT_FREQ / HZ
abbrev pub pit_divisor : ℕ
pit_divisor = 1193182 / 100

unfoldable pub pit_init : Cmd Interrupts (Unit {0})
pit_init = do
  out_byte 0x43 0x34
  out_byte 0x40 (pit_divisor % 2 ^ 8)
  out_byte 0x40 (pit_divisor / 2 ^ 8 % 2 ^ 8)

unfoldable pub pic_init : Cmd Interrupts (Unit {0})
pic_init = do
  out_byte 0x20 0x11
  out_byte 0x21 0x20
  out_byte 0x21 0x04
  out_byte 0x21 0x0D
  out_byte 0xA0 0x11
  out_byte 0xA1 0x28
  out_byte 0xA1 0x02
  out_byte 0xA1 0x09

unfoldable pub interrupt_init : (int_table : ℕ → ℕ) → (idt_ptr : ℕ) → Cmd Interrupts (Unit {0})
interrupt_init int_table idt_ptr = do idt_init int_table idt_ptr; pic_init; pit_init
