-- ===== src/Memory/Tests.antt =====
-- A small memory, and the theorems at it.
use os_zhenxiang.Prelude.{
  test_bit, ℕ, ◌+◌, ◌*◌, ◌≡◌, refl, true, false, some, ok, arith, ◌==◌, if◌then◌else◌,
}
use os_zhenxiang.Thread.{pg_size}
use os_zhenxiang.Bitmap.{skip_full, first_zero, scan_run, Bitmap, bitmap_scan, bitmap_scan_test}
use os_zhenxiang.Bitmap.Laws.{IsValid}
use os_zhenxiang.Bitmap.FirstFit.{FirstFree}
use os_zhenxiang.Memory.{
  pf_kernel, pf_user, VirtualAddr, Pool, MemState, set_pool, set_vaddr, vaddr_get, vaddr_remove,
  palloc, pfree, page_table_add, mfree_page, addr_v2p,
}
use os_zhenxiang.Memory.Bits.{in_run}
use os_zhenxiang.Memory.Pools.{PoolIsValid, PoolsValid, page_used, palloc_lem, pfree-palloc}
use os_zhenxiang.Memory.Vaddrs.{VaddrIsValid, vaddr_used, vaddr_remove-vaddr_get}
use os_zhenxiang.Memory.Samples.{boot_tables}
use os_zhenxiang.Memory.Entries.{mapped, shares, TablesValid}
use os_zhenxiang.Memory.Tables.{Maps, page_table_add_lem}
use os_zhenxiang.Memory.Release.{mfree_page_one}
use os_zhenxiang.Memory.Setup.{mem_pool_init, mem_pool_init-PoolsValid}

-- Of 16 pages or addresses the first three are taken.
abbrev some_taken : Bitmap
some_taken = record { btmp_bytes_len = 2; bits = λ i. if i == 0 then 7 else 0 }

some_taken-IsValid : IsValid some_taken
some_taken-IsValid = record { bytes = λ i. ground arith; small = omega arith }

abbrev pool : ℕ → Pool
pool start = record { pool_bitmap = some_taken; phy_addr_start = start; pool_size = 65536 }

abbrev vaddrs : ℕ → VirtualAddr
vaddrs start = record { vaddr_bitmap = some_taken; vaddr_start = start }

-- The kernel's third address is mapped to its third page.
abbrev memory : MemState
memory = record {
  kernel_pool = pool 0x200000;
  user_pool = pool 0x210000;
  kernel_vaddr = vaddrs 0xc0100000;
  user_vaddr = vaddrs 0x8048000;
  page_dir = 0x100000;
  tables = boot_tables;
}

memory-PoolsValid : PoolsValid memory
memory-PoolsValid = record {
  kernel_valid = record { valid = some_taken-IsValid; aligned = refl; top = omega arith };
  user_valid = record { valid = some_taken-IsValid; aligned = refl; top = omega arith };
  split = omega arith;
}

memory-TablesValid : TablesValid memory
memory-TablesValid = record {
  own = refl;
  own_present = refl;
  apart = λ i lt here e. ground arith;
  unused = λ i j here lt free e. ground arith;
}

kernel-VaddrIsValid : VaddrIsValid (vaddrs 0xc0100000)
kernel-VaddrIsValid = record { valid = some_taken-IsValid; top = omega arith }

fourth_free : bitmap_scan_test some_taken 3 ≡ false
unfolding bitmap_scan_test test_bit
fourth_free = refl

palloc_lem_example :
    (s : ℕ) × (p' : Pool) × (palloc (pool 0x200000) ≡ ok (some (0x200000 + s * pg_size), p'))
    × FirstFree some_taken s
    × PoolIsValid p'
    × (p'.phy_addr_start ≡ 0x200000)
    × (p'.pool_bitmap.btmp_bytes_len ≡ 2)
    × ((j : ℕ) → page_used p' j ≡ (if s == j then true else page_used (pool 0x200000) j))
palloc_lem_example =
    palloc_lem (pool 0x200000) 3 memory-PoolsValid.kernel_valid (omega arith) fourth_free

pfree-palloc_example :
    (addr : ℕ) × (p : Pool) × (p' : Pool) × (palloc (pool 0x210000) ≡ ok (some addr, p))
    × (pfree addr (set_pool pf_user p memory) ≡ ok (set_pool pf_user p' memory))
    × ((j : ℕ) → page_used p' j ≡ page_used (pool 0x210000) j)
pfree-palloc_example = pfree-palloc pf_user memory 3 memory-PoolsValid (omega arith) fourth_free

scan_two : bitmap_scan some_taken 2 ≡ ok (some 3)
unfolding bitmap_scan bitmap_scan_test skip_full first_zero scan_run test_bit
scan_two = refl

vaddr_remove-vaddr_get_example :
    (v : VirtualAddr) × (v' : VirtualAddr) × (vaddr_get pf_kernel 2 memory
      ≡ ok (some 0xc0103000, set_vaddr pf_kernel v memory))
    × ((j : ℕ) → in_run 3 2 j ≡ true → bitmap_scan_test some_taken j ≡ false)
    × ((j : ℕ) → vaddr_used v j ≡ (if in_run 3 2 j then true else bitmap_scan_test some_taken j))
    × (vaddr_remove pf_kernel 0xc0103000 2 (set_vaddr pf_kernel v memory)
        ≡ ok (set_vaddr pf_kernel v' memory))
    × ((j : ℕ) → vaddr_used v' j ≡ bitmap_scan_test some_taken j)
vaddr_remove-vaddr_get_example =
    vaddr_remove-vaddr_get pf_kernel memory 2 3 3 kernel-VaddrIsValid (omega arith) (omega arith)
      (omega arith) fourth_free scan_two refl

page_table_add_lem_example :
    (m' : MemState) × (page_table_add 0x8048000 0x213000 memory ≡ ok m')
    × Maps 0x8048000 0x213000 memory m'
    × TablesValid m'
page_table_add_lem_example =
    page_table_add_lem 0x8048000 0x213000 3 memory (omega arith) refl refl memory-TablesValid
      memory-PoolsValid.kernel_valid (omega arith) fourth_free

mfree_page_one_example :
    (m' : MemState) × (mfree_page pf_kernel 0xc0102000 1 memory ≡ ok m')
    × ((j : ℕ)
        → page_used m'.kernel_pool j ≡ (if 2 == j then false else bitmap_scan_test some_taken j))
    × ((j : ℕ)
        → vaddr_used m'.kernel_vaddr j ≡ (if 2 == j then false else bitmap_scan_test some_taken j))
    × ((a : ℕ)
        → (mapped m' a ≡ (if shares memory 0xc0102000 a then false else mapped memory a))
          × (addr_v2p a m' ≡ addr_v2p a memory))
    × (m'.user_pool ≡ pool 0x210000)
    × (m'.user_vaddr ≡ vaddrs 0x8048000)
unfolding addr_v2p
mfree_page_one_example =
    mfree_page_one pf_kernel memory 2 2 memory-PoolsValid kernel-VaddrIsValid memory-TablesValid
      (omega arith) refl (omega arith) (omega arith) (omega arith) refl refl

-- 32 MB of memory
mem_pool_init-PoolsValid_example :
    PoolsValid (mem_pool_init 0x2000000 (λ _. 0) (λ _. 0) (λ _. 0) memory)
mem_pool_init-PoolsValid_example =
    mem_pool_init-PoolsValid 0x2000000 (λ _. 0) (λ _. 0) (λ _. 0) memory (λ i. omega arith)
      (λ i. omega arith)
