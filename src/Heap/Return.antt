-- ===== src/Heap/Return.antt =====
-- A block from `sys_malloc`, given back by `sys_free` (kernel/memory.c).
use os_zhenxiang.Prelude.{
  ℕ, suc, ◌+◌, ◌-◌, ◌*◌, ◌%◌, ◌^◌, ◌<◌, ◌≤◌, ◌≡◌, refl, sym, ◌∙◌, ap, true, false, some, List, [],
  ◌∷◌, ◌++◌, ok, ltb, ◌==◌, u32, arith, Bool-cases, inl, inr,
}
use os_zhenxiang.Memory.{PoolFlags, pf_kernel, pf_user, MemState, pool_of, malloc_page, mfree_page}
use os_zhenxiang.Memory.Setup.{MemBlockDesc}
use os_zhenxiang.Heap.{
  Arena, BlockDesc, HeapState, desc_cnt, k_heap_start, arena2block, block2arena, find_desc,
  set_list, set_arena, cleared, merge_arena, new_arena, take_block, with_arena, malloc_small,
  sys_malloc, free_small, free_in, in_heap, sys_free,
}
use os_zhenxiang.Heap.Blocks.{
  blocks, Fits, block_at, merge_arena-first, split_arena-empty, block2arena-arena2block,
}

-- `n + 1` blocks of a positive size fit into an arena.
pub record DescIsValid (n : ℕ) (d : BlockDesc) : Type 0 where
  pub count : d.sizes.blocks_per_arena ≡ suc n
  pub positive : 0 < d.sizes.block_size
  pub inside : suc n * d.sizes.block_size ≤ 4084
  pub few : suc n < 2 ^ 32

-- where an arena may lie
pub record PageIsValid (a : ℕ) : Type 0 where
  pub whole : a % 4096 ≡ 0
  pub below : a + 4096 < 2 ^ 32
  pub above : k_heap_start ≤ a

Fits-desc :
    (n a : ℕ) (d : BlockDesc)
    → DescIsValid n d
    → PageIsValid a
    → Fits (suc n) 0 a d.sizes.block_size
Fits-desc n a d v p = record {
  positive = v.positive;
  inside = omega (arith, v.inside);
  page = p.below;
}

-- The first block of a new arena is out.
record FirstOut (k n a : ℕ) (m : MemState) (h h' : HeapState) : Type 0 where
  mem : h'.mem ≡ m
  sizes : (h'.descs k).sizes ≡ (h.descs k).sizes
  list : (h'.descs k).free_list ≡ blocks n 1 a (h.descs k).sizes.block_size
  arena : h'.arenas a ≡ record { desc = some k; cnt = n; large = false }
  others : (j : ℕ) → (j == k) ≡ false → h'.descs j ≡ h.descs j

-- the heap after `new_arena`
abbrev opened : (k n a : ℕ) → HeapState → HeapState
opened k n a h = set_list k (blocks (suc n) 0 a (h.descs k).sizes.block_size) (
    set_arena a (record { desc = some k; cnt = suc n; large = false })
      (record h { arenas = cleared a 1 h.arenas }))

new_arena_lem :
    (k n a : ℕ) (h : HeapState)
    → DescIsValid n (h.descs k)
    → PageIsValid a
    → (h.descs k).free_list ≡ []
    → new_arena k a h ≡ ok (opened k n a h)
unfolding new_arena
new_arena_lem k n a h v p empty =
    rw
      (
        v.count,
        empty,
        split_arena-empty (suc n) a (h.descs k).sizes.block_size (Fits-desc n a (h.descs k) v p),
      )
      refl

-- the heap after `take_block` of a block of the arena `a`
abbrev taken : (k a : ℕ) → List ℕ → HeapState → HeapState
taken k a rest h =
    set_arena a (record (h.arenas a) { cnt = u32 ((h.arenas a).cnt + 2 ^ 32 - 1) })
      (set_list k rest h)

take_block_lem :
    (k a b : ℕ) (rest : List ℕ) (h : HeapState)
    → block2arena b ≡ a
    → take_block k (b ∷ rest) h ≡ ok (some b, taken k a rest h)
unfolding take_block
take_block_lem k a b rest h page = rw page refl

with_arena-FirstOut :
    (k n a : ℕ) (h : HeapState)
    → DescIsValid n (h.descs k)
    → PageIsValid a
    → (h.descs k).free_list ≡ []
    → (h' : HeapState) × (with_arena k (some a) h
        ≡ ok (some (arena2block a 0 (h.descs k).sizes.block_size), h'))
      × FirstOut k n a h.mem h h'
unfolding with_arena blocks
with_arena-FirstOut k n a h v p empty =
    let f = Fits-desc n a (h.descs k) v p in
    let bs = (h.descs k).sizes.block_size in
    let page : block2arena (arena2block a 0 bs) ≡ a = block2arena-arena2block f p.whole in
    let same : (k == k) ≡ true = ground arith in
    let same' : (a == a) ≡ true = ground arith in
    let list : ((opened k n a h).descs k).free_list ≡ arena2block a 0 bs ∷ blocks n 1 a bs =
      rw same refl in
    let fewer : u32 (suc n + 2 ^ 32 - 1) ≡ n = omega (arith, v.few) in
    (
      taken k a (blocks n 1 a bs) (opened k n a h),
      rw (new_arena_lem k n a h v p empty) (
          ap (λ l. take_block k l (opened k n a h)) list
          ∙ take_block_lem k a (arena2block a 0 bs) (blocks n 1 a bs) (opened k n a h) page),
      record {
        mem = refl;
        sizes = rw same refl;
        list = rw same refl;
        arena = rw (same', fewer) refl;
        others = λ j ne. rw ne refl;
      },
    )

-- An arena with all its blocks free goes back.
free_small_whole :
    (pf : PoolFlags) (k a ptr : ℕ) (rest : List ℕ) (m' : MemState) (h : HeapState)
    → u32 ((h.arenas a).cnt + 1) ≡ (h.descs k).sizes.blocks_per_arena
    → merge_arena
        (h.descs k).sizes.blocks_per_arena
        0
        a
        (h.descs k).sizes.block_size
        ((h.descs k).free_list ++ ptr ∷ [])
      ≡ ok rest
    → mfree_page pf a 1 h.mem ≡ ok m'
    → (h'' : HeapState) × (free_small pf k a ptr h ≡ ok h'')
      × (h''.mem ≡ m')
      × ((h''.descs k).free_list ≡ rest)
      × ((j : ℕ) → (j == k) ≡ false → h''.descs j ≡ h.descs j)
unfolding free_small
free_small_whole pf k a ptr rest m' h cnt merged freed =
    let whole : (u32 ((h.arenas a).cnt + 1) == (h.descs k).sizes.blocks_per_arena) ≡ true =
      ground (arith, cnt) in
    let same : (k == k) ≡ true = ground arith in
    let counted = record (h.arenas a) { cnt = u32 ((h.arenas a).cnt + 1) } in
    (
      set_list k rest (record (set_arena a counted h) { mem = m' }),
      rw (whole, merged, freed) refl,
      refl,
      rw same refl,
      λ j ne. rw ne refl,
    )

free_in-FirstOut :
    (pf : PoolFlags) (k n a : ℕ) (m m' : MemState) (h h' : HeapState)
    → DescIsValid n (h.descs k)
    → PageIsValid a
    → FirstOut k n a m h h'
    → mfree_page pf a 1 m ≡ ok m'
    → (h'' : HeapState) × (free_in pf a
          (arena2block a 0 (h.descs k).sizes.block_size)
          (h'.arenas a).desc
          (h'.arenas a).large
          h'
        ≡ ok h'')
      × (h''.mem ≡ m')
      × ((h''.descs k).free_list ≡ [])
      × ((j : ℕ) → (j == k) ≡ false → h''.descs j ≡ h.descs j)
unfolding free_in
free_in-FirstOut pf k n a m m' h h' v p o freed =
    let bs = (h.descs k).sizes.block_size in
    let merged = merge_arena-first n a bs (Fits-desc n a (h.descs k) v p) in
    let again : u32 (n + 1) ≡ suc n = omega (arith, v.few) in
    let count : (h'.descs k).sizes.blocks_per_arena ≡ suc n =
      ap (λ (s : MemBlockDesc). s.blocks_per_arena) o.sizes ∙ v.count in
    let cnt = ap (λ (x : Arena). u32 (x.cnt + 1)) o.arena ∙ again ∙ sym count in
    let (h'', e, mem, list, others) =
      free_small_whole pf k a (arena2block a 0 bs) [] m' h' cnt
        (rw (o.sizes, v.count, o.list) merged) (ap (mfree_page pf a 1) o.mem ∙ freed) in
    (
      h'',
      ap (λ (x : Arena). free_in pf a (arena2block a 0 bs) x.desc x.large h') o.arena ∙ e,
      mem,
      list,
      λ j ne. others j ne ∙ o.others j ne,
    )

sys_malloc_first :
    (pf : PoolFlags) (size k n a : ℕ) (m : MemState) (h : HeapState)
    → 0 < size
    → size ≤ 1024
    → size < (pool_of pf h.mem).pool_size
    → find_desc desc_cnt 0 size h.descs ≡ k
    → DescIsValid n (h.descs k)
    → PageIsValid a
    → (h.descs k).free_list ≡ []
    → malloc_page pf 1 h.mem ≡ ok (some a, m)
    → (h' : HeapState) × (sys_malloc pf size h
        ≡ ok (some (arena2block a 0 (h.descs k).sizes.block_size), h'))
      × FirstOut k n a m h h'
unfolding sys_malloc malloc_small
sys_malloc_first pf size k n a m h positive small fits found v p empty page =
    let t : ltb 0 size ≡ true = ground (arith, positive) in
    let t' : ltb size (pool_of pf h.mem).pool_size ≡ true = ground (arith, fits) in
    let f : ltb 1024 size ≡ false = ground (arith, small) in
    let (h', e, o) = with_arena-FirstOut k n a (record h { mem = m }) v p empty in
    (
      h',
      rw (t, t', f, found, empty, page) e,
      record { mem = o.mem; sizes = o.sizes; list = o.list; arena = o.arena; others = o.others },
    )

sys_free_in :
    (pf : PoolFlags) (a : ℕ) (h : HeapState)
    → PageIsValid a
    → sys_free pf (a + 12) h ≡ free_in pf a (a + 12) (h.arenas a).desc (h.arenas a).large h
unfolding sys_free
sys_free_in pf a h p =
    let page : block2arena (a + 12) ≡ a = omega (arith, p.whole) in
    let there : (a + 12 == 0) ≡ false = ground arith in
    let inside : in_heap pf (a + 12) ≡ true = in_kernel pf in rw (there, inside, page) refl
  where
    in_kernel : (pf : PoolFlags) → in_heap pf (a + 12) ≡ true
    in_kernel pf_kernel = ground (arith, p.above)
    in_kernel pf_user = refl

-- When the free list of the first descriptor that is large enough is empty and `malloc_page`
-- gives a page, `sys_malloc` of 1 to 1024 bytes, less than the pool has, returns the first block
-- of the page; and `sys_free` of it returns, gives the page back by `mfree_page`, and leaves
-- every free list as it was before `sys_malloc`. The descriptor must be of the kind that
-- `block_desc_init` makes, the page whole and in the kernel's half of the addresses, and
-- `mfree_page` of it must return.
pub sys_free-sys_malloc :
    (pf : PoolFlags) (size k n a : ℕ) (m m' : MemState) (h : HeapState)
    → 0 < size
    → size ≤ 1024
    → size < (pool_of pf h.mem).pool_size
    → find_desc desc_cnt 0 size h.descs ≡ k
    → DescIsValid n (h.descs k)
    → PageIsValid a
    → (h.descs k).free_list ≡ []
    → malloc_page pf 1 h.mem ≡ ok (some a, m)
    → mfree_page pf a 1 m ≡ ok m'
    → (h' : HeapState) × (h'' : HeapState) × (sys_malloc pf size h ≡ ok (some (a + 12), h'))
      × (h'.mem ≡ m)
      × (sys_free pf (a + 12) h' ≡ ok h'')
      × (h''.mem ≡ m')
      × ((j : ℕ) → (h''.descs j).free_list ≡ (h.descs j).free_list)
sys_free-sys_malloc pf size k n a m m' h positive small fits found v p empty page freed =
    let bs = (h.descs k).sizes.block_size in
    let (h', out, o) =
      sys_malloc_first pf size k n a m h positive small fits found v p empty page in
    let (h'', e, mem, list, others) = free_in-FirstOut pf k n a m m' h h' v p o freed in
    let first : arena2block a 0 bs ≡ a + 12 =
      omega (arith, block_at (Fits-desc n a (h.descs k) v p)) in
    (
      h',
      h'',
      out ∙ ap (λ b. ok (some b, h')) first,
      o.mem,
      sys_free_in pf a h' p
          ∙ ap (λ b. free_in pf a b (h'.arenas a).desc (h'.arenas a).large h') (sym first)
          ∙ e,
      mem,
      λ j. elim (Bool-cases (j == k)) [
        | inl same ↦ let j_k : j ≡ k = ground (arith, same) in rw (j_k) (list ∙ sym empty)
        | inr other ↦ ap (λ (d : BlockDesc). d.free_list) (others j other)
      ],
    )
