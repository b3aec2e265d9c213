-- ===== src/Heap.antt =====
-- kernel/mm/malloc.c and include/utils/list.h: the kernel's heap, a buddy system whose free blocks
-- stand in circular lists, one for each size. The memory is a function from an address to its byte;
-- the links of a free block are its first 16 bytes, its last byte is its tag.
pub mod Links
pub mod Rings
pub mod Removing
pub mod Adding
pub mod Layout
pub mod State
pub mod Storing
pub mod Kinds
pub mod Unlinking
pub mod Linking
pub mod Counting
pub mod Marking
pub mod Halving
pub mod Stock
pub mod Searching
pub mod Taking
pub mod Allocation
pub mod Buddy
pub mod Releasing
pub mod Tagged
pub mod Merging
pub mod Coalescing
pub mod Climbing
pub mod Freeing
pub mod Release
pub mod Initial
pub mod Starting
use rtv.Base.{
  ℕ, zero, suc, ◌+◌, ◌-◌, ◌*◌, ◌/◌, ◌%◌, ◌^◌, bit_xor, ◌==◌, ltb, leb, if◌then◌else◌, not,
}
use rtv.Base.Run.{ok, panicked, faulted, spinning, Cmd, pure, ◌>>=◌, ◌>>◌, on_part}
use rtv.Word.{u64, sub64}
use rtv.Bits.{Words, store}
use rtv.Spinlock.{Spinlock, spin_lock, spin_unlock}

abbrev pub malloc_base : ℕ
malloc_base = 0x600000

abbrev pub buddy_min_order : ℕ
buddy_min_order = 5

abbrev pub buddy_max_order : ℕ
buddy_max_order = 22

abbrev pub buddy_entries : ℕ
buddy_entries = 18

abbrev pub used_tag : ℕ
used_tag = 0xFF

-- The bytes of the memory, by their addresses.
abbrev pub Bytes : Type 0
Bytes = ℕ → ℕ

unfoldable pub read64 : Bytes → ℕ → ℕ
read64 m p =
    m p
    + m (p + 1) * 2 ^ 8
    + m (p + 2) * 2 ^ 16
    + m (p + 3) * 2 ^ 24
    + m (p + 4) * 2 ^ 32
    + m (p + 5) * 2 ^ 40
    + m (p + 6) * 2 ^ 48
    + m (p + 7) * 2 ^ 56

unfoldable pub write64 : Bytes → ℕ → ℕ → Bytes
write64 m p v q =
    if q == p
    then v % 2 ^ 8
    else if q == p + 1
    then v / 2 ^ 8 % 2 ^ 8
    else if q == p + 2
    then v / 2 ^ 16 % 2 ^ 8
    else if q == p + 3
    then v / 2 ^ 24 % 2 ^ 8
    else if q == p + 4
    then v / 2 ^ 32 % 2 ^ 8
    else if q == p + 5
    then v / 2 ^ 40 % 2 ^ 8
    else if q == p + 6
    then v / 2 ^ 48 % 2 ^ 8
    else if q == p + 7
    then v / 2 ^ 56 % 2 ^ 8
    else m q

-- `p->next` and `p->prev`
abbrev pub next_of : Bytes → ℕ → ℕ
next_of m p = read64 m p

abbrev pub prev_of : Bytes → ℕ → ℕ
prev_of m p = read64 m (p + 8)

unfoldable pub init_list_head : Bytes → ℕ → Bytes
init_list_head m list = write64 (write64 m list list) (list + 8) list

unfoldable pub unlink : Bytes → (prev next : ℕ) → Bytes
unlink m prev next = write64 (write64 m (next + 8) prev) prev next

unfoldable pub list_del : Bytes → ℕ → Bytes
list_del m entry = unlink m (prev_of m entry) (next_of m entry)

unfoldable pub link : Bytes → (new prev next : ℕ) → Bytes
link m new prev next =
    write64 (write64 (write64 (write64 m (next + 8) new) new next) (new + 8) prev) prev new

unfoldable pub list_add : Bytes → (new head : ℕ) → Bytes
list_add m new head = link m new head (next_of m head)

pub record Heap : Type 0 where
  pub memory : Bytes
  pub count : Words
  pub size : Words
  pub mem_base : ℕ
  pub mm_lock : Spinlock

unfoldable pub lock_heap : Cmd Heap (Unit {0})
lock_heap = on_part (λ s. s.mm_lock) (λ l s. record s { mm_lock = l }) spin_lock

unfoldable pub unlock_heap : Cmd Heap (Unit {0})
unlock_heap = on_part (λ s. s.mm_lock) (λ l s. record s { mm_lock = l }) spin_unlock

-- The loop of next_power2, for an order that is below 32; `p` becomes 0 behind it, and stays so.
unfoldable pub double_up : (fuel p cnt v : ℕ) → Cmd Heap ℕ
double_up zero p cnt v = λ s. spinning
double_up (suc fuel) p cnt v =
    λ s. (if ltb p v then double_up fuel (p * 2 % 2 ^ 32) (cnt + 1) v else pure cnt) s

unfoldable pub next_power2 : ℕ → Cmd Heap ℕ
next_power2 v = λ s.
    (if ltb v (2 ^ buddy_min_order)
        then pure buddy_min_order
        else double_up 28 (2 ^ buddy_min_order) buddy_min_order v)
      s

-- Changes of `bsystem[entry].count`, a `uint32_t`.
unfoldable pub add_count : Words → (entry n : ℕ) → Words
add_count count entry n = store count entry ((count entry + n) % 2 ^ 32)

unfoldable pub drop_count : Words → ℕ → Words
drop_count count entry = store count entry ((count entry + 2 ^ 32 - 1) % 2 ^ 32)

-- `bsystem` is the address of the array of buckets, of 24 bytes each.
module _ (bsystem : ℕ) where
  -- `&bsystem[entry].ptr`
  abbrev pub bucket : ℕ → ℕ
  bucket entry = bsystem + entry * 24

  -- buddy_split for the bucket of `entry`.
  unfoldable pub buddy_split : ℕ → Cmd Heap (Unit {0})
  buddy_split zero s = faulted
  buddy_split (suc entry) s =
      if leb buddy_entries (suc entry)
      then faulted
      else (let blt = next_of s.memory (bucket (suc entry)) in
          let new_blt = blt + s.size entry in
          let unlinked = list_del s.memory blt in
          let linked = list_add (list_add unlinked new_blt (bucket entry)) blt (bucket entry) in
          let post = new_blt - 1 in
          ok tt (record s {
            memory = store (store linked post entry) (post + s.size entry) entry;
            count = add_count (drop_count s.count (suc entry)) entry 2;
          }))

  -- The loop of malloc that looks for a block to split: the entry that it ends at.
  unfoldable pub climb : (fuel entry : ℕ) → Cmd Heap ℕ
  climb zero entry = λ s. faulted
  climb (suc fuel) entry = λ s.
      (if leb buddy_entries entry
          then (λ s. faulted)
          else if s.count entry == 0
          then (if leb buddy_entries (entry + 1) then (λ s. panicked) else climb fuel (entry + 1))
          else pure entry)
        s

  -- `while (split_count--) { buddy_split(&bsystem[entry]); entry--; }`
  unfoldable pub split_down : (split_count entry : ℕ) → Cmd Heap (Unit {0})
  split_down zero entry = pure tt
  split_down (suc split_count) entry = do buddy_split entry; split_down split_count (entry - 1)

  -- The first block of the bucket is taken.
  unfoldable pub take_first : ℕ → Cmd Heap ℕ
  take_first entry s =
      let blt = next_of s.memory (bucket entry) in
      let unlinked = list_del s.memory blt in
      ok (blt + 8) (record s {
        memory = store (store unlinked blt entry) (blt + s.size entry - 1) used_tag;
        count = drop_count s.count entry;
      })

  unfoldable pub malloc : ℕ → Cmd Heap ℕ
  malloc size = do
    order ← next_power2 ((size + 9) % 2 ^ 32)
    lock_heap
    entry ← climb (buddy_entries + 1) (order - buddy_min_order)
    split_down (entry - (order - buddy_min_order)) entry
    ptr ← take_first (order - buddy_min_order)
    unlock_heap
    pure ptr

  -- One merge of `blt` and its buddy in the loop of buddy_try_merge.
  unfoldable pub merge : (merge_count blt buddy entry : ℕ) → Heap → Heap
  merge merge_count blt buddy entry s =
      let first = not (ltb 0 merge_count) in
      let m0 = if first then s.memory else list_del s.memory blt in
      let c0 = if first then s.count else drop_count s.count entry in
      let m1 = list_del m0 buddy in
      let c1 = drop_count c0 entry in
      let merged = if ltb blt buddy then blt else buddy in
      let m2 = store m1 (merged + s.size (entry + 1) - 1) (entry + 1) in
      let m3 = list_add m2 merged (bucket (entry + 1)) in
      record s { memory = m3; count = add_count c1 (entry + 1) 1 }

  -- `buddy_addr`
  abbrev pub buddy_of : Heap → (blt entry : ℕ) → ℕ
  buddy_of s blt entry = u64 (bit_xor (sub64 blt s.mem_base) (s.size entry) + s.mem_base)

  -- The loop, with `left` buckets above that of `entry`: the value of `merge_count` at the end.
  unfoldable pub merge_up : (left merge_count blt entry : ℕ) → Cmd Heap ℕ
  merge_up zero merge_count blt entry = pure merge_count
  merge_up (suc left) merge_count blt entry = λ s.
      let buddy = buddy_of s blt entry in
      let up =
        merge_up left (merge_count + 1) (if ltb blt buddy then blt else buddy) (entry + 1)
          (merge merge_count blt buddy entry s) in
      if s.memory (buddy + s.size entry - 1) == entry then up else ok merge_count s

  unfoldable pub buddy_try_merge : (blt entry : ℕ) → Cmd Heap ℕ
  buddy_try_merge blt entry = λ s.
      (if s.count entry == 0 then pure 0 else merge_up (buddy_entries - 1 - entry) 0 blt entry) s

  -- The block goes back to its list.
  unfoldable pub put_back : (addr entry : ℕ) → Cmd Heap (Unit {0})
  put_back addr entry s =
      let tagged = store s.memory (addr + s.size entry - 1) entry in
      ok tt (record s {
        memory = list_add tagged addr (bucket entry);
        count = add_count s.count entry 1;
      })

  -- What follows when the pointer's block has tag USED.
  unfoldable pub release_block : (addr entry : ℕ) → Cmd Heap (Unit {0})
  release_block addr entry = do
    merges ← buddy_try_merge addr entry
    if merges == 0 then put_back addr entry else pure tt
    unlock_heap

  -- A pointer whose block has another tag than USED is left alone.
  unfoldable pub free : ℕ → Cmd Heap (Unit {0})
  free ptr = do
    lock_heap
    λ s.
        let addr = sub64 ptr 8 in
        let entry = s.memory addr in
        (if leb buddy_entries entry
            then (λ s. faulted)
            else if s.memory (addr + s.size entry - 1) == used_tag
            then release_block addr entry
            else unlock_heap)
          s
