-- ===== src/Heap/Tests.antt =====
-- A block from a heap that is new.
use os_zhenxiang.Prelude.{ℕ, ◌≡◌, refl, false, none, some, [], ok, arith, get_or}
use os_zhenxiang.Memory.{pf_kernel}
use os_zhenxiang.Memory.Setup.{block_descs, block_desc_init}
use os_zhenxiang.Memory.Samples.{
  small_memory, with_page, page_back, malloc_page-small_memory, mfree_page-with_page,
}
use os_zhenxiang.Heap.{HeapState, find_desc, sys_malloc, sys_free}
use os_zhenxiang.Heap.Return.{DescIsValid, sys_free-sys_malloc}

abbrev new_heap : HeapState
new_heap = record {
  mem = small_memory;
  descs = λ j. record {
    sizes = get_or block_desc_init j (record { block_size = 0; blocks_per_arena = 0 });
    free_list = [];
  };
  arenas = λ _. record { desc = none; cnt = 0; large = false };
}

-- 100 bytes are a block of 128, the fourth size.
size_128 : DescIsValid 30 (new_heap.descs 3)
unfolding block_desc_init block_descs
size_128 = record { count = refl; positive = omega arith; inside = omega arith; few = omega arith }

fourth_size : find_desc 7 0 100 new_heap.descs ≡ 3
unfolding find_desc block_desc_init block_descs
fourth_size = refl

sys_free-sys_malloc_example :
    (h' : HeapState) × (h'' : HeapState) × (sys_malloc pf_kernel 100 new_heap
      ≡ ok (some 0xc010300c, h'))
    × (h'.mem ≡ with_page)
    × (sys_free pf_kernel 0xc010300c h' ≡ ok h'')
    × (h''.mem ≡ page_back)
    × ((j : ℕ) → (h''.descs j).free_list ≡ [])
sys_free-sys_malloc_example =
    sys_free-sys_malloc pf_kernel 100 3 30 0xc0103000 with_page page_back new_heap (omega arith)
      (omega arith) (omega arith) fourth_size size_128
      (record { whole = refl; below = omega arith; above = omega arith }) refl
      malloc_page-small_memory mfree_page-with_page
