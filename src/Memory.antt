-- ===== src/Memory.antt =====
-- kernel/memory.c and memory.h: the pools of physical pages, the virtual addresses given out, and the
-- page tables. The functions here run while the caller holds the lock of the pool (Sync).
pub mod Bits
pub mod Pools
pub mod Vaddrs
pub mod Entries
pub mod Tables
pub mod Release
pub mod Setup
pub mod Samples
mod Tests
use os_zhenxiang.Prelude.{
  ℕ, zero, suc, ◌+◌, ◌-◌, ◌*◌, ◌/◌, ◌%◌, ◌^◌, Bool, true, false, not, ◌&&◌, Option, none, some,
  Outcome, ok, panic, ◌>>=◌, ◌>>◌, assert, ltb, leb, ◌==◌, if◌then◌else◌, u32,
}
use os_zhenxiang.Thread.{pg_size}
use os_zhenxiang.Bitmap.{Bitmap, bitmap_scan, bitmap_set}

-- `enum pool_flags`
pub data PoolFlags : Type 0 where
  pf_kernel pf_user : PoolFlags

-- `struct virtual_addr`
pub record VirtualAddr : Type 0 where
  pub vaddr_bitmap : Bitmap
  pub vaddr_start : ℕ

-- `struct pool`, less its lock
pub record Pool : Type 0 where
  pub pool_bitmap : Bitmap
  pub phy_addr_start : ℕ
  pub pool_size : ℕ

-- An entry of the page directory or of a page table: the page that its upper 20 bits name, and its
-- P bit. The code gives all entries the same other bits.
pub record Entry : Type 0 where
  pub frame : ℕ
  pub present : Bool

-- The pools, the virtual addresses of the kernel and of the running process, the address of the page
-- directory, and the entries of all page tables, the directory included, by the address of the table
-- and the number of the entry. Two directory entries may name one table, as 0 and 768 do, and the
-- last one names the directory.
pub record MemState : Type 0 where
  pub kernel_pool : Pool
  pub user_pool : Pool
  pub kernel_vaddr : VirtualAddr
  pub user_vaddr : VirtualAddr
  pub page_dir : ℕ
  pub tables : ℕ → ℕ → Entry

-- `*pde_ptr(vaddr)`: the last directory entry makes 0xfffff000 the directory.
abbrev pub pde : MemState → (vaddr : ℕ) → Entry
pde m vaddr = m.tables m.page_dir (vaddr / 2 ^ 22)

-- `*pte_ptr(vaddr)`: an entry of the table that the directory entry names
abbrev pub pte : MemState → (vaddr : ℕ) → Entry
pte m vaddr = m.tables (pde m vaddr).frame (vaddr / pg_size % 1024)

-- `*pte_ptr(vaddr) = e`
abbrev pub put_pte : (vaddr : ℕ) → Entry → MemState → MemState
put_pte vaddr e m = record m {
  tables = λ table i.
      if (table == (pde m vaddr).frame) && (i == vaddr / pg_size % 1024)
      then e
      else m.tables table i;
}

abbrev pub vaddr_of : PoolFlags → MemState → VirtualAddr
vaddr_of pf_kernel m = m.kernel_vaddr
vaddr_of pf_user m = m.user_vaddr

abbrev pub set_vaddr : PoolFlags → VirtualAddr → MemState → MemState
set_vaddr pf_kernel v m = record m { kernel_vaddr = v }
set_vaddr pf_user v m = record m { user_vaddr = v }

-- `pf & PF_KERNEL ? &kernel_pool : &user_pool`
abbrev pub pool_of : PoolFlags → MemState → Pool
pool_of pf_kernel m = m.kernel_pool
pool_of pf_user m = m.user_pool

abbrev pub set_pool : PoolFlags → Pool → MemState → MemState
set_pool pf_kernel p m = record m { kernel_pool = p }
set_pool pf_user p m = record m { user_pool = p }

-- `while (cnt < pg_cnt) bitmap_set(btmp, bit_idx_start + cnt++, value)`
pub set_bits : (pg_cnt bit_idx value : ℕ) → Bitmap → Outcome Bitmap
set_bits zero bit_idx value b = ok b
set_bits (suc pg_cnt) bit_idx value b = do
  b' ← bitmap_set b bit_idx value
  set_bits pg_cnt (bit_idx + 1) value b'

-- The addresses below the stack of a process, the page of which is given out already
abbrev pub vaddr_fits : PoolFlags → ℕ → Bool
vaddr_fits pf_kernel vaddr_start = true
vaddr_fits pf_user vaddr_start = ltb vaddr_start (0xc0000000 - pg_size)

-- `vaddr_get` behind its scan
pub vaddr_take : PoolFlags → ℕ → Option ℕ → MemState → Outcome (Option ℕ × MemState)
vaddr_take pf pg_cnt none m = ok (none, m)
vaddr_take pf pg_cnt (some bit_idx_start) m =
    let v = vaddr_of pf m in
    do
      b ← set_bits pg_cnt bit_idx_start 1 v.vaddr_bitmap
      let vaddr_start = u32 (v.vaddr_start + bit_idx_start * pg_size)
      assert (vaddr_fits pf vaddr_start)
      ok (some vaddr_start, set_vaddr pf (record v { vaddr_bitmap = b }) m)

pub vaddr_get : PoolFlags → ℕ → MemState → Outcome (Option ℕ × MemState)
vaddr_get pf pg_cnt m = do
  found ← bitmap_scan (vaddr_of pf m).vaddr_bitmap pg_cnt
  vaddr_take pf pg_cnt found m

-- `palloc` behind its scan
pub page_take : Option ℕ → Pool → Outcome (Option ℕ × Pool)
page_take none m_pool = ok (none, m_pool)
page_take (some bit_idx) m_pool = do
  b ← bitmap_set m_pool.pool_bitmap bit_idx 1
  ok (some (u32 (bit_idx * pg_size + m_pool.phy_addr_start)), record m_pool { pool_bitmap = b })

pub palloc : Pool → Outcome (Option ℕ × Pool)
palloc m_pool = do found ← bitmap_scan m_pool.pool_bitmap 1; page_take found m_pool

-- `addr | PG_US_U | PG_RW_W | PG_P_1`
abbrev pub entry_of : ℕ → Entry
entry_of addr = record { frame = addr / pg_size * pg_size; present = true }

abbrev pub no_entry : Entry
no_entry = record { frame = 0; present = false }

-- NULL is the address 0.
abbrev or_null : Option ℕ → ℕ
or_null none = 0
or_null (some addr) = addr

-- `*pde_ptr(vaddr) = e`
abbrev pub put_pde : (vaddr : ℕ) → Entry → MemState → MemState
put_pde vaddr e m = record m {
  tables =
      λ table i. if (table == m.page_dir) && (i == vaddr / 2 ^ 22) then e else m.tables table i;
}

-- The `memset` of the page table of `vaddr` to 0
abbrev clear_table : (vaddr : ℕ) → MemState → MemState
clear_table vaddr m = record m {
  tables = λ table i. if table == (pde m vaddr).frame then no_entry else m.tables table i;
}

-- A page table of zeros becomes the one of `vaddr`.
pub add_table : ℕ → ℕ → MemState → MemState
add_table vaddr pde_phyaddr m = clear_table vaddr (put_pde vaddr (entry_of pde_phyaddr) m)

pub set_pte : ℕ → ℕ → MemState → Outcome MemState
set_pte vaddr page_phyaddr m = do
  assert (not (pte m vaddr).present)
  ok (put_pte vaddr (entry_of page_phyaddr) m)

pub page_table_add : (vaddr page_phyaddr : ℕ) → MemState → Outcome MemState
page_table_add vaddr page_phyaddr m =
    if (pde m vaddr).present then set_pte vaddr page_phyaddr m else (do
      (pde_phyaddr, pool) ← palloc m.kernel_pool
      set_pte vaddr page_phyaddr
          (add_table vaddr (or_null pde_phyaddr) (record m { kernel_pool = pool })))

-- One round of the loop of `malloc_page` behind `palloc`; `rest` is the rounds that follow.
pub map_page :
    Option ℕ
    → ℕ
    → MemState
    → (rest : MemState → Outcome (Bool × MemState)) → Outcome (Bool × MemState)
map_page none vaddr m rest = ok (false, m)
map_page (some page_phyaddr) vaddr m rest = page_table_add vaddr page_phyaddr m >>= rest

-- `while (cnt-- > 0)` of `malloc_page`: false if the pool has run out.
pub map_pages : PoolFlags → (cnt vaddr : ℕ) → MemState → Outcome (Bool × MemState)
map_pages pf zero vaddr m = ok (true, m)
map_pages pf (suc cnt) vaddr m = do
  (page_phyaddr, pool) ← palloc (pool_of pf m)
  map_page page_phyaddr vaddr (set_pool pf pool m) (map_pages pf cnt (u32 (vaddr + pg_size)))

pub malloc_page : PoolFlags → ℕ → MemState → Outcome (Option ℕ × MemState)
malloc_page pf pg_cnt m = do
  assert (ltb 0 pg_cnt && ltb pg_cnt 3840)
  (vaddr_start, m') ← vaddr_get pf pg_cnt m
  map_all vaddr_start m'
  where
    map_all : Option ℕ → MemState → Outcome (Option ℕ × MemState)
    map_all none m = ok (none, m)
    map_all (some vaddr_start) m = do
      (mapped, m') ← map_pages pf pg_cnt vaddr_start m
      ok (if mapped then some vaddr_start else none, m')

pub addr_v2p : ℕ → MemState → ℕ
addr_v2p vaddr m = (pte m vaddr).frame + vaddr % pg_size

pub pfree : ℕ → MemState → Outcome MemState
pfree pg_phy_addr m =
    if leb m.user_pool.phy_addr_start pg_phy_addr
    then (do
      b ←
          bitmap_set m.user_pool.pool_bitmap ((pg_phy_addr - m.user_pool.phy_addr_start) / pg_size)
            0
      ok (record m { user_pool = record m.user_pool { pool_bitmap = b } }))
    else (do
      b ←
          bitmap_set m.kernel_pool.pool_bitmap
            (u32 (pg_phy_addr + 2 ^ 32 - m.kernel_pool.phy_addr_start) / pg_size) 0
      ok (record m { kernel_pool = record m.kernel_pool { pool_bitmap = b } }))

pub page_table_pte_remove : ℕ → MemState → MemState
page_table_pte_remove vaddr m = put_pte vaddr (record (pte m vaddr) { present = false }) m

pub vaddr_remove : PoolFlags → (vaddr pg_cnt : ℕ) → MemState → Outcome MemState
vaddr_remove pf vaddr pg_cnt m =
    let v = vaddr_of pf m in
    do
      b ← set_bits pg_cnt (u32 (vaddr + 2 ^ 32 - v.vaddr_start) / pg_size) 0 v.vaddr_bitmap
      ok (set_vaddr pf (record v { vaddr_bitmap = b }) m)

-- The two loops of `mfree_page`; `inside` is the bounds of the pool that their ASSERTs check.
pub free_pages : (ℕ → Bool) → (pg_cnt vaddr : ℕ) → MemState → Outcome MemState
free_pages inside zero vaddr m = ok m
free_pages inside (suc pg_cnt) vaddr m =
    let pg_phy_addr = addr_v2p vaddr m in
    do
      assert ((pg_phy_addr % pg_size == 0) && inside pg_phy_addr)
      m' ← pfree pg_phy_addr m
      free_pages inside pg_cnt (u32 (vaddr + pg_size)) (page_table_pte_remove vaddr m')

pub mfree_page : PoolFlags → (vaddr pg_cnt : ℕ) → MemState → Outcome MemState
mfree_page pf vaddr pg_cnt m =
    let pg_phy_addr = addr_v2p vaddr m in
    let user_start = m.user_pool.phy_addr_start in
    do
      assert (leb 1 pg_cnt && (vaddr % pg_size == 0))
      assert ((pg_phy_addr % pg_size == 0) && leb 0x102000 pg_phy_addr)
      m' ←
          (if leb user_start pg_phy_addr
            then free_pages (leb user_start) pg_cnt vaddr m
            else free_pages (λ a. leb m.kernel_pool.phy_addr_start a && ltb a user_start) pg_cnt
                vaddr m)
      vaddr_remove pf vaddr pg_cnt m'
