-- ===== src/Lib.antt =====
-- RTV, a light-weight real-time hypervisor for x86-64: the memory management of its kernel, with the
-- bit, lock and paging routines that it stands on.
--
-- The program. arch/x86_64/boot/init.c brings one processor up: it frees the ranges of physical
-- memory that the boot loader reports as usable (physical_free_range), sets the limit
-- (physical_set_limit), takes back the first page, the kernel and the boot modules
-- (physical_take_range), and sets up the kernel's windows of virtual memory (vm_init). From then on
-- page frames are handed out by physical.c and mapped into the kernel's address space by vm.c,
-- whose callers are the ACPI, APIC, SMP and virtual-machine code. Both components keep their state
-- under a ticket lock of their own.
--
-- The files, with the code that each is about:
--   Base       library names, Boolean tests, `lt_wf`, and `Run`, the outcome of a routine. A routine
--              of C becomes `Cmd S A`: it takes the state `S` and gives its result with the next
--              state, or `panicked` (a call of panic), `faulted` (an access outside the array that
--              the code means to access, which C leaves undefined), `spinning` (a wait that nothing
--              ends) or `out_of_fuel`.
--   Word       `uint64_t`, a natural number below 2 ^ 64: the operators of C with their wrap-around
--              written out, and the laws of their binary digits.
--   Bits       utils/bits.c and include/utils/bits.h. `uint64_t *map` is a function from the index of
--              a word to the word. `sweep` is the loop that bitmap64_set_range and
--              bitmap64_clear_range share; `Bits.Range` says which bits it changes.
--   Spinlock   include/utils/spinlock.h. `Spinlock` holds both halves of the lock's 32-bit word;
--              `word_of` and `of_word` are the union's other view. Spinlock.antt has the operations for one
--              processor at a time, Spinlock/Contended the steps of many that interleave; Spinlock/Queue,
--              Serving and Exclusion hold the proofs on these.
--   Physical   kernel/mm/physical.c. `Phys` holds mm_table, mm_limit, entry_end and phy_lock. The
--              functions of single frames and of ranges are in Physical/Defs, the two searches for
--              a block of frames in Physical/Blocks, physical_next_free_range in Physical/Next.
--              Physical/Frame, Cycle and Ranges and the files of Physical/Blocks and Physical/Next
--              hold the proofs, Physical/State the invariant `IsReady`.
--   Vm         arch/x86_64/mm/vm.c and arch/x86_64/include/vm.h. `Paging` holds the entries of the
--              tables, by the virtual address at which a table shows, pg_lock, and the operands of
--              invlpg. Vm/Pages has the functions for 4 KB pages (vm_map_page, vm_map_pages,
--              vm_unmap_page, vm_unmap_pages) and those for 2 MB pages. A loop that the source
--              writes out for both sizes stands once, with the bounds as arguments. Vm/Single, Runs,
--              Unmap, UnmapRuns and Skipped hold the proofs, Vm/State the invariant `IsIdle`.
--              Vm/Tables has the functions that may add upper tables (vm_map_page_unrestricted,
--              vm_map_large_page_unrestricted, vm_init). There the tables lie in physical memory, and
--              an access to one is translated by `walk`, the processor's own walk of four levels as
--              the manuals of x86-64 describe it. Vm/Walk, Entries and Unrestricted hold the proofs.
--   Acpi       kernel/acpi.c and include/acpi.h: acpi_add_cpu, acpi_parse_apic, acpi_irq_to_gsi. `Acpi`
--              holds the variables that they set, and lapic_phys_ids of interrupt/apic.c, which they
--              read. The memory that a table lies in is a function from an address to its byte.
--              `Entry` is a structure of the MADT by its type. Acpi/Layout has the structures byte by
--              byte as the ACPI specification lays them out, and Acpi/Decoded the proof that the routine
--              reads these fields.
--   Segments   arch/x86_64/cpu/mmu.c (alloc_tss_desc, get_gdt_tss_base) and the descriptor layouts of
--              arch/x86_64/include/cpu.h. `Gdt` holds the entries of 8 bytes and gdt_lock.
--   Boot       arch/x86_64/boot/init.c: the part of kernel_main that reads the boot loader's structure,
--              frees what it reports and takes back what is in use. Boot/Tags has the structure as lists,
--              Boot/Regions and Boot/Modules the two loops, Boot/Prepared the whole on Physical.
--   Interrupt  arch/x86_64/interrupt/apic.c: the I/O APIC. The device is as its manual describes it, and an
--              access needs the walk of Vm/Tables to lead to it. Interrupt/Device and Redirection hold
--              the proofs on its entries, Interrupt/Initial ioapic_init with Vm and Acpi together, by every
--              outcome of vm_map_page_unrestricted, which allocates the tables that are missing.
--              Interrupt/LocalApic has the messages between processors. Interrupt/Gates is
--              arch/x86_64/interrupt/interrupt.c, the IDT and the programming of the PICs and the PIT,
--              and Interrupt/Dispatch where the processor then goes.
--   Smp        the barrier around mtrr_config, which arch/x86_64/smp/smp.c (ap_main) and
--              arch/x86_64/boot/init.c (kernel_main) pass through: a step relation over all processors,
--              its invariant in Smp/Ordered, a state without a step in Smp/Deadlock.
--   Screen     utils/screen.c. Screen/Format is vprintf, the text that it prints as a list of
--              characters; Screen/Cursor is _putchar and printf on the frame buffer. Screen/Digits and
--              Numeral hold the proofs on numerals, Screen/Printing the abstract page of text.
--   Utils      utils/string.c (strlen, strncmp) and include/utils/math.h (ceiling64). A string is the
--              function from an offset to the byte there; a loop over it that has no bound of its
--              own takes fuel, and the theorem says how much is enough.
--   Heap       kernel/mm/malloc.c with include/utils/list.h: malloc_init, malloc and free, a buddy system.
--              `Heap` holds the bytes of the memory by their addresses, the counts and sizes of bsystem,
--              mem_base and mm_lock; the links of a list lie in the memory. Heap/Links and Rings say what
--              the list functions do to circular lists, Heap/Layout what blocks there are (`Kinds`),
--              Heap/State how both and the tags fit together (`IsHeap`), Heap/Stock adds the counts
--              (`IsStock`). Heap/Halving, Searching, Taking and Allocation are the parts of malloc,
--              Heap/Buddy, Tagged, Merging, Coalescing, Climbing and Freeing those of buddy_try_merge and
--              Heap/Release free; Heap/Initial and Starting malloc_init, which calls Physical and Vm.
--   Tests      runs on small inputs, and each theorem at an input that meets its hypotheses.
--
-- Bounds and fuel. MM_PHYSICAL_MAX is 64 (GB), its value in default_config.mk, so mm_table has
-- 262144 words. A search for a block of frames has one round for each bit of the table and one more
-- (`scan_fuel`), and its position grows in every round. The shifting loop that finds the lowest bit
-- has 64 rounds, which empty any word. A range function has one round more than its length, each of
-- which takes at least one bit off. map_run has 513 rounds, one more than a table has entries, and
-- goes on by one entry at least. parse_entries has as many rounds as the table has bytes; a
-- structure of length 0 would keep it in place for ever, so its theorem asks that there is none. The
-- loops of kernel_main over the boot loader's structure have 4096 rounds, as the structure fits in a
-- page. The loop of next_power2 has 28 rounds, after which its number has become 0 and stays so; the
-- search of malloc has one round for each bucket. Apart from strlen, whose fuel is an argument, no
-- theorem assumes that fuel suffices: each gives the result.
--
-- Not modelled here. physical_check_table, vm_check_mapping and check_buddy_table, which only print, and
-- the message of free. The rest of ACPI, lapic_init, the interrupt handlers, the rest of the start of
-- the other processors and the virtual-machine code are outside this library, as are assembly files and
-- the headers of hardware and boot-loader layouts. Apart from the barrier and the ticket lock, the
-- routines are modelled for one processor at a time.
pub mod Acpi
pub mod Base
pub mod Bits
pub mod Boot
pub mod Heap
pub mod Interrupt
pub mod Physical
pub mod Screen
pub mod Segments
pub mod Smp
pub mod Spinlock
pub mod Tests
pub mod Utils
pub mod Vm
pub mod Word
