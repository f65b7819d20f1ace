-- ===== src/Memory/Samples.antt =====
-- A small memory, a page of which is given out and taken back.
use os_zhenxiang.Prelude.{
  false, ◌+◌, ◌-◌, ◌*◌, ◌||◌, ◌&&◌, leb, ltb, test_bit, ℕ, ◌≡◌, refl, Option, some, Outcome, ok,
  panic, ◌==◌, if◌then◌else◌,
}
use os_zhenxiang.Bitmap.{
  Bitmap, skip_full, first_zero, scan_run, bitmap_scan, bitmap_scan_test, bitmap_set,
}
use os_zhenxiang.Memory.{
  Entry, pf_kernel, MemState, set_bits, vaddr_take, vaddr_get, page_take, palloc, page_table_add,
  set_pte, map_page, map_pages, malloc_page, addr_v2p, pfree, page_table_pte_remove, vaddr_remove,
  free_pages, mfree_page,
}

-- Of 16 pages or addresses the first three are taken.
abbrev three_taken : Bitmap
three_taken = record { btmp_bytes_len = 2; bits = λ i. if i == 0 then 7 else 0 }

-- The directory at 0x100000 that `setup_page` of boot/loader.S makes: 0 and 768 name one table.
abbrev boot_directory : ℕ → Entry
boot_directory i = record {
  frame =
      if i == 1023 then 0x100000 else if leb 769 i then 0x102000 + (i - 769) * 4096 else 0x101000;
  present = (i == 0) || (leb 768 i && ltb i 1024);
}

-- Its first table maps 1 MB and one page of the kernel.
abbrev first_table : ℕ → Entry
first_table i = record {
  frame = if i == 0x102 then 0x202000 else i * 4096;
  present = ltb i 256 || (i == 0x102);
}

abbrev pub boot_tables : ℕ → ℕ → Entry
boot_tables table i =
    if table == 0x100000
    then boot_directory i
    else if table == 0x101000
    then first_table i
    else record { frame = 0; present = false }

abbrev pub small_memory : MemState
small_memory = record {
  kernel_pool = record { pool_bitmap = three_taken; phy_addr_start = 0x200000; pool_size = 65536 };
  user_pool = record { pool_bitmap = three_taken; phy_addr_start = 0x210000; pool_size = 65536 };
  kernel_vaddr = record { vaddr_bitmap = three_taken; vaddr_start = 0xc0100000 };
  user_vaddr = record { vaddr_bitmap = three_taken; vaddr_start = 0x8048000 };
  page_dir = 0x100000;
  tables = boot_tables;
}

abbrev given : Outcome (Option ℕ × MemState) → MemState
given (ok r) = r.1
given panic = small_memory

abbrev kept : Outcome MemState → MemState
kept (ok m) = m
kept panic = small_memory

abbrev pub with_page : MemState
with_page = given (malloc_page pf_kernel 1 small_memory)

abbrev pub page_back : MemState
page_back = kept (mfree_page pf_kernel 0xc0103000 1 with_page)

pub malloc_page-small_memory :
    malloc_page pf_kernel 1 small_memory ≡ ok (some 0xc0103000, with_page)
unfolding malloc_page vaddr_get vaddr_take set_bits map_pages map_page palloc page_take
    page_table_add set_pte bitmap_scan skip_full first_zero scan_run bitmap_scan_test bitmap_set
    test_bit
malloc_page-small_memory = refl

pub mfree_page-with_page : mfree_page pf_kernel 0xc0103000 1 with_page ≡ ok page_back
unfolding malloc_page vaddr_get vaddr_take set_bits map_pages map_page palloc page_take
    page_table_add set_pte bitmap_scan skip_full first_zero scan_run bitmap_scan_test bitmap_set
    test_bit mfree_page free_pages addr_v2p pfree page_table_pte_remove vaddr_remove
mfree_page-with_page = refl
