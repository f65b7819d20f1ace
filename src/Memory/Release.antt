-- ===== src/Memory/Release.antt =====
-- A page given back by `mfree_page` (kernel/memory.c).
use os_zhenxiang.Prelude.{
  ◌≢◌, ℕ, ◌+◌, ◌-◌, ◌*◌, ◌/◌, ◌%◌, ◌<◌, ◌≤◌, ◌^◌, ◌≡◌, refl, Bool, true, false, ◌&&◌, ok, arith,
  ltb, leb, ◌==◌, if◌then◌else◌, u32,
}
use os_zhenxiang.Thread.{pg_size}
use os_zhenxiang.Bitmap.Laws.{total_bits}
use os_zhenxiang.Memory.{
  PoolFlags, pf_kernel, pf_user, Pool, pde, VirtualAddr, MemState, pool_of, set_pool, vaddr_of,
  set_vaddr, addr_v2p, page_table_pte_remove, free_pages, vaddr_remove, mfree_page,
}
use os_zhenxiang.Memory.Bits.{set_bits_lem}
use os_zhenxiang.Memory.Pools.{PoolsValid, page_used, pfree_lem}
use os_zhenxiang.Memory.Vaddrs.{VaddrIsValid, vaddr_used}
use os_zhenxiang.Memory.Entries.{mapped, shares, TablesValid}

-- `vaddr_remove` of one page
vaddr_remove_one :
    (pf : PoolFlags) (m : MemState) (i : ℕ)
    → VaddrIsValid (vaddr_of pf m)
    → i < total_bits (vaddr_of pf m).vaddr_bitmap
    → (v : VirtualAddr) × (vaddr_remove pf ((vaddr_of pf m).vaddr_start + i * pg_size) 1 m
        ≡ ok (set_vaddr pf v m))
      × ((j : ℕ) → vaddr_used v j ≡ (if i == j then false else vaddr_used (vaddr_of pf m) j))
unfolding vaddr_remove
vaddr_remove_one pf m i valid lt =
    let v = vaddr_of pf m in
    let (b, set, _, _, bits) = set_bits_lem {b = v.vaddr_bitmap} 1 i 0 valid.valid (omega arith) in
    let bit : u32 (v.vaddr_start + i * pg_size + 2 ^ 32 - v.vaddr_start) / pg_size ≡ i =
      omega (arith, valid.top) in
    (record v { vaddr_bitmap = b }, rw (bit, set) refl, λ j. ground (arith, bits j))

-- what `mfree_page` leaves behind its loop
abbrev unmapped : PoolFlags → Pool → ℕ → MemState → MemState
unmapped pf p vaddr m = page_table_pte_remove vaddr (set_pool pf p m)

-- The loop for one page of either pool
free_one :
    (pf : PoolFlags) (m : MemState) (s vaddr : ℕ) (inside : ℕ → Bool)
    → PoolsValid m
    → s < total_bits (pool_of pf m).pool_bitmap
    → addr_v2p vaddr m ≡ (pool_of pf m).phy_addr_start + s * pg_size
    → ((pool_of pf m).phy_addr_start + s * pg_size) % pg_size ≡ 0
    → inside ((pool_of pf m).phy_addr_start + s * pg_size) ≡ true
    → (p : Pool) × (free_pages inside 1 vaddr m ≡ ok (unmapped pf p vaddr m))
      × ((j : ℕ) → page_used p j ≡ (if s == j then false else page_used (pool_of pf m) j))
unfolding free_pages
free_one pf m s vaddr inside v lt at whole fits =
    let (p, freed, bits) = pfree_lem pf m s v lt in
    let z : (((pool_of pf m).phy_addr_start + s * pg_size) % pg_size == 0) ≡ true = ground arith in
    (p, rw (at, z, fits, freed) refl, bits)

-- the pool or the range that a call with the flag leaves alone
abbrev pub other : PoolFlags → PoolFlags
other pf_kernel = pf_user
other pf_user = pf_kernel

-- What the removal of an entry of a table other than the directory does
page_table_pte_remove_lem :
    (vaddr : ℕ) (m : MemState)
    → (pde m vaddr).frame ≢ m.page_dir
    → (a : ℕ)
    → (mapped (page_table_pte_remove vaddr m) a ≡ (if shares m vaddr a then false else mapped m a))
      × (addr_v2p a (page_table_pte_remove vaddr m) ≡ addr_v2p a m)
unfolding page_table_pte_remove addr_v2p
page_table_pte_remove_lem vaddr m apart a =
    let differ : (m.page_dir == (pde m vaddr).frame) ≡ false = ground (arith, apart) in
    (ground (arith, differ), ground (arith, differ))

-- The page behind a mapped address of a range that starts on a page boundary, if it is a page of the
-- pool that goes with the range, and that pool does not start below 0x102000, goes back: with both pools, the range and the page tables in
-- order, and the address below the part where the tables are seen, `mfree_page` returns, the page is
-- free, the address is free too, and each address that the same entry of the same table translates is
-- not mapped. No other page of that pool, address of that range, or mapping changes, no entry names
-- another page, and the other pool and the other range are as they were.
pub mfree_page_one :
    (pf : PoolFlags) (m : MemState) (s i : ℕ)
    → PoolsValid m
    → VaddrIsValid (vaddr_of pf m)
    → TablesValid m
    → 0x102000 ≤ (pool_of pf m).phy_addr_start
    → (vaddr_of pf m).vaddr_start % pg_size ≡ 0
    → s < total_bits (pool_of pf m).pool_bitmap
    → i < total_bits (vaddr_of pf m).vaddr_bitmap
    → ((vaddr_of pf m).vaddr_start + i * pg_size) / 2 ^ 22 < 1023
    → mapped m ((vaddr_of pf m).vaddr_start + i * pg_size) ≡ true
    → addr_v2p ((vaddr_of pf m).vaddr_start + i * pg_size) m
      ≡ (pool_of pf m).phy_addr_start + s * pg_size
    → (m' : MemState) × (mfree_page pf ((vaddr_of pf m).vaddr_start + i * pg_size) 1 m ≡ ok m')
      × ((j : ℕ)
          → page_used (pool_of pf m') j ≡ (if s == j then false else page_used (pool_of pf m) j))
      × ((j : ℕ)
          → vaddr_used (vaddr_of pf m') j
            ≡ (if i == j then false else vaddr_used (vaddr_of pf m) j))
      × ((a : ℕ)
          → (mapped m' a ≡ (
              if shares m ((vaddr_of pf m).vaddr_start + i * pg_size) a then false else mapped m a))
            × (addr_v2p a m' ≡ addr_v2p a m))
      × (pool_of (other pf) m' ≡ pool_of (other pf) m)
      × (vaddr_of (other pf) m' ≡ vaddr_of (other pf) m)
unfolding mfree_page addr_v2p page_table_pte_remove
mfree_page_one pf_kernel m s i v va tv low aligned lt lt' small mp at =
    let start = m.kernel_pool.phy_addr_start in
    let vaddr = m.kernel_vaddr.vaddr_start + i * pg_size in
    let apart : (pde m vaddr).frame ≢ m.page_dir =
      tv.apart (vaddr / 2 ^ 22) small (ground (arith, mp)) in
    let whole : (start + s * pg_size) % pg_size ≡ 0 = omega (arith, v.kernel_valid.aligned) in
    let z : (vaddr % pg_size == 0) ≡ true = ground arith in
    let fits : leb 0x102000 (start + s * pg_size) ≡ true = ground arith in
    let below : leb m.user_pool.phy_addr_start (start + s * pg_size) ≡ false =
      ground (arith, v.split) in
    let z' : ((start + s * pg_size) % pg_size == 0) ≡ true = ground arith in
    let inside : (leb start (start + s * pg_size)
          && ltb (start + s * pg_size) m.user_pool.phy_addr_start)
        ≡ true =
      ground (arith, v.split) in
    let (p, freed, bits) =
      free_one pf_kernel m s vaddr (λ a. leb start a && ltb a m.user_pool.phy_addr_start) v lt at
        whole inside in
    let (w, removed, bits') = vaddr_remove_one pf_kernel (unmapped pf_kernel p vaddr m) i va lt' in
    (
      set_vaddr pf_kernel w (unmapped pf_kernel p vaddr m),
      rw (z, at, z', fits, below, freed) removed,
      bits,
      bits',
      page_table_pte_remove_lem vaddr m apart,
      refl,
      refl,
    )
mfree_page_one pf_user m s i v va tv low aligned lt lt' small mp at =
    let start = m.user_pool.phy_addr_start in
    let vaddr = m.user_vaddr.vaddr_start + i * pg_size in
    let apart : (pde m vaddr).frame ≢ m.page_dir =
      tv.apart (vaddr / 2 ^ 22) small (ground (arith, mp)) in
    let whole : (start + s * pg_size) % pg_size ≡ 0 = omega (arith, v.user_valid.aligned) in
    let z : (vaddr % pg_size == 0) ≡ true = ground arith in
    let fits : leb 0x102000 (start + s * pg_size) ≡ true = ground arith in
    let above : leb start (start + s * pg_size) ≡ true = ground arith in
    let z' : ((start + s * pg_size) % pg_size == 0) ≡ true = ground arith in
    let (p, freed, bits) = free_one pf_user m s vaddr (leb start) v lt at whole above in
    let (w, removed, bits') = vaddr_remove_one pf_user (unmapped pf_user p vaddr m) i va lt' in
    (
      set_vaddr pf_user w (unmapped pf_user p vaddr m),
      rw (z, at, z', fits, above, freed) removed,
      bits,
      bits',
      page_table_pte_remove_lem vaddr m apart,
      refl,
      refl,
    )
