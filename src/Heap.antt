-- ===== src/Heap.antt =====
-- kernel/memory.c: `sys_malloc` and `sys_free`. Of the memory that is given out only the `struct arena`
-- at the start of a page is kept, by the address of the page; a free list is the sequence of its
-- blocks, which LinkedList shows a list to be. The functions run while the caller holds the lock of
-- the pool (Sync); `pf` says whether a kernel thread or a process runs, and the descriptors are its
-- own.
pub mod Blocks
pub mod Return
mod Tests
use os_zhenxiang.Prelude.{
  ℕ, zero, suc, ◌+◌, ◌-◌, ◌*◌, ◌/◌, ◌^◌, Bool, true, false, not, ◌&&◌, Option, none, some, List, [],
  ◌∷◌, ◌++◌, Outcome, ok, panic, ◌>>=◌, ◌>>◌, assert, ltb, leb, ◌==◌, if◌then◌else◌, u32, update,
  has,
}
use os_zhenxiang.Thread.{pg_size}
use os_zhenxiang.Memory.{PoolFlags, pf_kernel, pf_user, MemState, pool_of, malloc_page, mfree_page}
use os_zhenxiang.Memory.Setup.{MemBlockDesc, arena_size}

-- `struct arena`; the pointer to a descriptor is its index, NULL is `none`.
pub record Arena : Type 0 where
  pub desc : Option ℕ
  pub cnt : ℕ
  pub large : Bool

-- `struct mem_block_desc` with its list
pub record BlockDesc : Type 0 where
  pub sizes : MemBlockDesc
  pub free_list : List ℕ

pub record HeapState : Type 0 where
  pub mem : MemState
  pub descs : ℕ → BlockDesc
  pub arenas : ℕ → Arena

-- `DESC_CNT`
abbrev pub desc_cnt : ℕ
desc_cnt = 7

-- `K_HEAP_START`
abbrev pub k_heap_start : ℕ
k_heap_start = 0xc0100000

abbrev pub arena2block : (a idx block_size : ℕ) → ℕ
arena2block a idx block_size = u32 (a + arena_size + idx * block_size)

abbrev pub block2arena : (b : ℕ) → ℕ
block2arena b = b / pg_size * pg_size

-- `memset(a, 0, page_cnt * PG_SIZE)`
abbrev pub cleared : (a page_cnt : ℕ) → (ℕ → Arena) → ℕ → Arena
cleared a page_cnt arenas p =
    if leb a p && ltb p (a + page_cnt * pg_size)
    then record { desc = none; cnt = 0; large = false }
    else arenas p

-- `list_remove` of an element that stands in the list
unfoldable pub remove_elem : (b : ℕ) → List ℕ → List ℕ
remove_elem b [] = []
remove_elem b (x ∷ xs) = let rest = x ∷ remove_elem b xs in if x == b then xs else rest

-- The first descriptor with blocks that are large enough
unfoldable pub find_desc : (left desc_idx size : ℕ) → (ℕ → BlockDesc) → ℕ
find_desc zero desc_idx size descs = desc_idx
find_desc (suc left) desc_idx size descs =
    let rest = find_desc left (desc_idx + 1) size descs in
    if leb size (descs desc_idx).sizes.block_size then desc_idx else rest

-- The loop that splits an arena into blocks
unfoldable pub split_arena : (left block_idx a block_size : ℕ) → List ℕ → Outcome (List ℕ)
split_arena zero block_idx a block_size free_list = ok free_list
split_arena (suc left) block_idx a block_size free_list =
    let b = arena2block a block_idx block_size in
    do
      assert (not (has b free_list))
      split_arena left (block_idx + 1) a block_size (free_list ++ b ∷ [])

-- The loop of `sys_free` that takes the blocks of an arena out of the list
unfoldable pub merge_arena : (left block_idx a block_size : ℕ) → List ℕ → Outcome (List ℕ)
merge_arena zero block_idx a block_size free_list = ok free_list
merge_arena (suc left) block_idx a block_size free_list =
    let b = arena2block a block_idx block_size in
    do
      assert (has b free_list)
      merge_arena left (block_idx + 1) a block_size (remove_elem b free_list)

abbrev pub set_list : (desc_idx : ℕ) → List ℕ → HeapState → HeapState
set_list desc_idx free_list h = record h {
  descs = update h.descs desc_idx (record (h.descs desc_idx) { free_list = free_list });
}

abbrev pub set_arena : (a : ℕ) → Arena → HeapState → HeapState
set_arena a arena h = record h { arenas = update h.arenas a arena }

-- A page becomes an arena of free blocks.
pub new_arena : (desc_idx a : ℕ) → HeapState → Outcome HeapState
new_arena desc_idx a h =
    let d = h.descs desc_idx in
    let arena : Arena = record {
      desc = some desc_idx;
      cnt = d.sizes.blocks_per_arena;
      large = false;
    } in
    do
      free_list ← split_arena d.sizes.blocks_per_arena 0 a d.sizes.block_size d.free_list
      ok (
          set_list desc_idx free_list
            (set_arena a arena (record h { arenas = cleared a 1 h.arenas })))

-- The first block of the list; `list_pop` of an empty list, which is not asked for, would be a NULL
-- pointer followed.
pub take_block : (desc_idx : ℕ) → List ℕ → HeapState → Outcome (Option ℕ × HeapState)
take_block desc_idx [] h = panic
take_block desc_idx (b ∷ free_list) h =
    let a = block2arena b in
    let arena = h.arenas a in
    ok (
      some b,
      set_arena a (record arena { cnt = u32 (arena.cnt + 2 ^ 32 - 1) })
          (set_list desc_idx free_list h),
    )

-- After `malloc_page`
with_arena : (desc_idx : ℕ) → Option ℕ → HeapState → Outcome (Option ℕ × HeapState)
unfolding new_arena take_block
with_arena desc_idx none h = ok (none, h)
with_arena desc_idx (some a) h = do
  h' ← new_arena desc_idx a h
  take_block desc_idx (h'.descs desc_idx).free_list h'

-- At most 1024 bytes: a block of the list, or of a new arena if that is empty
pub malloc_small : PoolFlags → (desc_idx : ℕ) → List ℕ → HeapState → Outcome (Option ℕ × HeapState)
unfolding with_arena take_block
malloc_small pf desc_idx [] h = do
  (a, m) ← malloc_page pf 1 h.mem
  with_arena desc_idx a (record h { mem = m })
malloc_small pf desc_idx (b ∷ free_list) h = take_block desc_idx (b ∷ free_list) h

-- Pages of their own
pub malloc_large : PoolFlags → (size : ℕ) → HeapState → Outcome (Option ℕ × HeapState)
malloc_large pf size h =
    let page_cnt = u32 (size + arena_size + pg_size - 1) / pg_size in
    do (a, m) ← malloc_page pf page_cnt h.mem; give page_cnt a (record h { mem = m })
  where
    give : (page_cnt : ℕ) → Option ℕ → HeapState → Outcome (Option ℕ × HeapState)
    give page_cnt none h' = ok (none, h')
    give page_cnt (some a) h' =
        let arena : Arena = record { desc = none; cnt = page_cnt; large = true } in
        ok (
          some (u32 (a + arena_size)),
          set_arena a arena (record h' { arenas = cleared a page_cnt h'.arenas }),
        )

pub sys_malloc : PoolFlags → (size : ℕ) → HeapState → Outcome (Option ℕ × HeapState)
unfolding malloc_small malloc_large
sys_malloc pf size h =
    let desc_idx = find_desc desc_cnt 0 size h.descs in
    let small = malloc_small pf desc_idx (h.descs desc_idx).free_list h in
    let large = malloc_large pf size h in
    if ltb 0 size && ltb size (pool_of pf h.mem).pool_size
    then (if ltb 1024 size then large else small)
    else ok (none, h)

-- A block put back into its list, with the arena given back when all its blocks are free
pub free_small : PoolFlags → (desc_idx a ptr : ℕ) → HeapState → Outcome HeapState
free_small pf desc_idx a ptr h =
    let d = h.descs desc_idx in
    let arena = h.arenas a in
    let cnt = u32 (arena.cnt + 1) in
    let free_list = d.free_list ++ ptr ∷ [] in
    let counted = set_arena a (record arena { cnt = cnt }) h in
    let whole = do
      rest ← merge_arena d.sizes.blocks_per_arena 0 a d.sizes.block_size free_list
      m ← mfree_page pf a 1 h.mem
      ok (set_list desc_idx rest (record counted { mem = m }))
    in if cnt == d.sizes.blocks_per_arena then whole else ok (set_list desc_idx free_list counted)

-- By what the arena says; a NULL descriptor of small blocks would be followed.
pub free_in :
    PoolFlags → (a ptr : ℕ) → (desc : Option ℕ) → (large : Bool) → HeapState → Outcome HeapState
unfolding free_small
free_in pf a ptr none false h = panic
free_in pf a ptr none true h = do
  m ← mfree_page pf a (h.arenas a).cnt h.mem
  ok (record h { mem = m })
free_in pf a ptr (some desc_idx) large h = free_small pf desc_idx a ptr h

-- `ptr >= K_HEAP_START` for a kernel thread
abbrev pub in_heap : PoolFlags → (ptr : ℕ) → Bool
in_heap pf_kernel ptr = leb k_heap_start ptr
in_heap pf_user ptr = true

pub sys_free : PoolFlags → (ptr : ℕ) → HeapState → Outcome HeapState
unfolding free_in
sys_free pf ptr h =
    let a = block2arena ptr in
    do
      assert (not (ptr == 0))
      assert (in_heap pf ptr)
      free_in pf a ptr (h.arenas a).desc (h.arenas a).large h
