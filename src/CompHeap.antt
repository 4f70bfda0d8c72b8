-- ===== src/CompHeap.antt =====
-- The allocator of core/comp_heap.cpp. Addresses are offsets from `core->heap.memory`, in bytes; a
-- slot is 16 bytes. Of the memory itself the model has the number at the start of each slot, by
-- which free blocks are linked; a bitmap is a function from slots to bits.
pub mod Blocks
pub mod Freed
pub mod SmallBlocks
pub mod FreeList
pub mod Pop
pub mod Remainder
pub mod AtEnd
pub mod Allocation
pub mod Header
pub mod Sizes
pub mod Taken
use toy_language.Base.{
  ltb, leb, ◌==◌, if◌then◌else◌, Run, returns, undefined, ◌>>=◌, ◌>>◌, undefined_if, get_or, set, ℕ,
  zero, suc, ◌+◌, ◌-◌, ◌*◌, ◌/◌, ◌%◌, ◌^◌, bit_and, bit_or, Bool, true, false, ◌&&◌, not, Option,
  none, some, List,
}
use toy_language.Math.{align_to}

abbrev pub comp_heap_min_allocation_size : ℕ
comp_heap_min_allocation_size = 16

abbrev pub comp_heap_max_freelist_size_log2 : ℕ
comp_heap_max_freelist_size_log2 = 18

-- `array_count(core->heap.freelists)`.
abbrev pub freelist_count : ℕ
freelist_count = 14

pub record CompHeap : Type 0 where
  pub used : ℕ
  pub commit : ℕ
  pub reserve : ℕ
  pub commit_increment : ℕ
  pub begin_bitmap : ℕ → Bool
  pub header_bitmap : ℕ → Bool
  pub leak_bitmap : ℕ → Bool
  pub freelists : List ℕ
  pub links : ℕ → ℕ

-- `static_cast<u32>((curr - core->heap.memory) / COMP_HEAP_MIN_ALLOCATION_SIZE)`.
abbrev pub slot_at : ℕ → ℕ
slot_at curr = curr / 16 % 2 ^ 32

abbrev pub with_link : (ℕ → ℕ) → ℕ → ℕ → ℕ → ℕ
with_link links slot next s = if s == slot then next else links s

-- The block at `curr` becomes the head of a free list.
unfoldable pub push_block : CompHeap → ℕ → ℕ → CompHeap
push_block heap index curr = record heap {
  links = with_link heap.links (curr / 16) (get_or heap.freelists index 0);
  freelists = set heap.freelists index (slot_at curr);
}

-- What a loop has left.
pub record Rest : Type 0 where
  pub heap : CompHeap
  pub curr : ℕ
  pub size : ℕ

-- The first loop of `comp_heap_add_to_freelist`, with `rounds` lists to go.
unfoldable pub small_loop : ℕ → ℕ → ℕ → Rest → Rest
unfolding push_block
small_loop zero index mask rest = rest
small_loop (suc rounds) index mask rest =
    let pushed = small_loop rounds (index + 1) (mask * 2) (record {
      heap = push_block rest.heap index rest.curr;
      curr = rest.curr + mask;
      size = rest.size - mask;
    }) in
    let passed = small_loop rounds (index + 1) (mask * 2) rest in
    if rest.size == 0 then rest else if bit_and rest.size mask == 0 then passed else pushed

-- The second loop, whose `size` falls by 2 ^ 18. Its fuel is more than its rounds.
unfoldable pub large_loop : ℕ → Rest → Run CompHeap
unfolding push_block
large_loop zero rest = undefined
large_loop (suc fuel) rest =
    let further = large_loop fuel (record {
      heap = push_block rest.heap (freelist_count - 1) rest.curr;
      curr = rest.curr + 2 ^ 18;
      size = rest.size - 2 ^ 18;
    }) in
    if rest.size == 0 then returns rest.heap else undefined_if (ltb rest.size (2 ^ 18)) >> further

-- The memory from `begin` to `end`.
unfoldable pub comp_heap_add_to_freelist : CompHeap → ℕ → ℕ → Run CompHeap
comp_heap_add_to_freelist heap begin end =
    undefined_if (ltb heap.used end)
    >> undefined_if (not (begin % 16 == 0))
    >> undefined_if (ltb (end - begin) 16)
    >> large_loop (end - begin + 1)
        (small_loop freelist_count 0 16 (record { heap = heap; curr = begin; size = end - begin }))

-- What `minos::mem_commit` answers for an offset and a size, in the heap and in each bitmap.
pub record Commits : Type 0 where
  pub heap_commit : ℕ → ℕ → Bool
  pub bitmap_commit : ℕ → ℕ → ℕ → Bool

-- What is known of a call that may commit memory: whether it succeeds, and the heap.
unfoldable pub comp_heap_ensure_commit : Commits → CompHeap → ℕ → Run (Bool × CompHeap)
comp_heap_ensure_commit os heap required =
    let new_commit = align_to required heap.commit_increment in
    let old_bitmap = heap.commit / 128 in
    let new_bitmap = new_commit / 128 in
    if leb required heap.commit
    then returns (true, heap)
    else if ltb heap.reserve required
    then returns (false, heap)
    else undefined_if (ltb heap.reserve new_commit)
      >> (if not (os.heap_commit heap.commit (new_commit - heap.commit))
          then returns (false, heap)
          else undefined_if (new_bitmap == old_bitmap)
            >> (if not (
                  os.bitmap_commit 0 old_bitmap (new_bitmap - old_bitmap)
                  && (os.bitmap_commit 1 old_bitmap (new_bitmap - old_bitmap)
                      && os.bitmap_commit 2 old_bitmap (new_bitmap - old_bitmap)))
                then returns (false, heap)
                else returns (true, record heap { commit = new_commit })))

abbrev pub with_bit : (ℕ → Bool) → ℕ → ℕ → Bool
with_bit bitmap slot s = if s == slot then true else bitmap s

-- `comp_heap_mark_bitmap_bit` of the bitmap of beginnings.
unfoldable pub comp_heap_mark_begin : CompHeap → ℕ → Run CompHeap
comp_heap_mark_begin heap address =
    undefined_if (heap.begin_bitmap (address / 16))
    >> returns (record heap { begin_bitmap = with_bit heap.begin_bitmap (address / 16) })

-- The number of binary digits, which is 64 less the count of leading zeros.
unfoldable pub bit_length : ℕ → ℕ → ℕ
bit_length zero n = 0
bit_length (suc fuel) n = let rest = bit_length fuel (n / 2) in if n == 0 then 0 else 1 + rest

-- `log2_ceil` of infra/math.hpp, in `u64`.
unfoldable pub log2_ceil : ℕ → ℕ
log2_ceil n = bit_length 64 (bit_or n 1)

-- What an allocation returns: its address, if there is one.
abbrev pub Allocated : Type 0
Allocated = Option ℕ × CompHeap

abbrev pub freelist_index : ℕ → ℕ
freelist_index allocation_size =
    let size_log2_ceil = log2_ceil allocation_size in
    if ltb size_log2_ceil 4 then 0 else size_log2_ceil - 4

-- The head of a free list is taken. What it has too much goes back to the lists.
unfoldable pub alloc_from_freelist : CompHeap → ℕ → ℕ → ℕ → Run Allocated
alloc_from_freelist heap index header_size allocation_size =
    let head = get_or heap.freelists index 0 in
    let entry_begin = head * 16 in
    let entry_size = 2 ^ log2_ceil allocation_size in
    let popped : CompHeap = record heap {
      freelists = set heap.freelists index (heap.links head);
    } in
    (if leb 16 (entry_size - allocation_size)
      then comp_heap_add_to_freelist popped (entry_begin + allocation_size)
          (entry_begin + entry_size)
      else returns popped)
    >>= λ rest. comp_heap_mark_begin rest entry_begin >>= λ marked.
        returns (some (entry_begin + header_size), marked)

-- The end of the used part is moved up.
unfoldable pub alloc_at_end : Commits → CompHeap → ℕ → ℕ → ℕ → Run Allocated
alloc_at_end os heap size align header_size =
    let unaligned_begin = (heap.used + header_size) % 2 ^ 64 in
    let aligned_begin = align_to unaligned_begin align in
    let new_used = align_to ((aligned_begin + size) % 2 ^ 64) 16 in
    comp_heap_ensure_commit os heap new_used >>= λ attempt.
    let grown : CompHeap = record (attempt.1) { used = new_used } in
    if not attempt.0
    then returns (none, heap)
    else (if unaligned_begin == aligned_begin
        then returns grown
        else comp_heap_add_to_freelist grown unaligned_begin aligned_begin)
      >>= λ padded. comp_heap_mark_begin padded (aligned_begin - header_size) >>= λ marked.
          returns (some aligned_begin, marked)

unfoldable pub comp_heap_alloc_internal : Commits → CompHeap → ℕ → ℕ → Bool → Run Allocated
comp_heap_alloc_internal os heap size align needs_header =
    let header_size = if needs_header then 16 else 0 in
    let actual = if size == 0 && not needs_header then 1 else size in
    let allocation_size = (actual + header_size) % 2 ^ 64 in
    let index = freelist_index allocation_size in
    if leb align 16
      && (leb allocation_size comp_heap_max_freelist_size_log2
          && not (get_or heap.freelists index 0 == 0))
    then alloc_from_freelist heap index header_size allocation_size
    else alloc_at_end os heap actual align header_size

unfoldable pub comp_heap_alloc : Commits → CompHeap → ℕ → ℕ → Run Allocated
comp_heap_alloc os heap size align = comp_heap_alloc_internal os heap size align false

-- An offset past the end of the used part is an error of the caller, as are one in no allocation
-- and one in a global or leaked allocation.
unfoldable pub comp_heap_dealloc : CompHeap → ℕ → ℕ → Run CompHeap
comp_heap_dealloc heap begin end =
    let last = if begin == end then end + 1 else end in
    let slot = begin / 16 in
    let cleared : CompHeap = record heap {
      begin_bitmap = λ s. if s == slot then false else heap.begin_bitmap s;
    } in
    undefined_if (begin == 0)
    >> undefined_if (ltb heap.used last)
    >> undefined_if (not (heap.begin_bitmap slot))
    >> undefined_if (heap.header_bitmap slot)
    >> undefined_if (heap.leak_bitmap slot)
    >> (if ltb (heap.used - last) 16
        then returns (record cleared { used = begin })
        else comp_heap_add_to_freelist cleared begin last)
