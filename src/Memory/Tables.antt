-- ===== src/Memory/Tables.antt =====
-- The page tables (kernel/memory.c): what `page_table_add` maps, `addr_v2p` finds.
use os_zhenxiang.Prelude.{
  sym, ap, ℕ, ◌+◌, ◌*◌, ◌/◌, ◌%◌, ◌<◌, ◌^◌, ◌≡◌, ◌≢◌, refl, ◌∙◌, true, false, ok, arith, Bool-cases,
  inl, inr, ◌==◌,
}
use os_zhenxiang.Thread.{pg_size}
use os_zhenxiang.Bitmap.Laws.{total_bits}
use os_zhenxiang.Memory.{
  MemState, pde, pte, put_pte, entry_of, add_table, set_pte, page_table_add, addr_v2p,
}
use os_zhenxiang.Memory.Pools.{PoolIsValid, page_used, palloc_lem}
use os_zhenxiang.Memory.Entries.{
  has_table, mapped, shares, TablesValid, put_pte-TablesValid, add_table-pde_new, add_table-pte_new,
  add_table-apart, add_table-kept, add_table-dir, add_table-TablesValid,
}

-- what an operation that maps `vaddr` to `phy` does
abbrev pub Maps : (vaddr phy : ℕ) → MemState → MemState → Type 0
Maps vaddr phy m m' =
    (shares m' vaddr vaddr ≡ true)
    × ((a : ℕ)
        → shares m' vaddr a ≡ true
        → (mapped m' a ≡ true) × (addr_v2p a m' ≡ phy + a % pg_size))
    × ((a : ℕ)
        → a / 2 ^ 22 < 1023
        → shares m' vaddr a ≡ false
        → (mapped m' a ≡ mapped m a) × (mapped m a ≡ true → addr_v2p a m' ≡ addr_v2p a m))

set_pte_lem :
    (vaddr phy : ℕ) (m : MemState)
    → has_table m vaddr ≡ true
    → (pde m vaddr).frame ≢ m.page_dir
    → (pte m vaddr).present ≡ false
    → phy % pg_size ≡ 0
    → (m' : MemState) × (set_pte vaddr phy m ≡ ok m')
      × Maps vaddr phy m m'
      × (TablesValid m → TablesValid m')
unfolding set_pte addr_v2p
set_pte_lem vaddr phy m table apart clear aligned =
    let whole : phy / pg_size * pg_size ≡ phy = omega arith in
    let differ : (m.page_dir == (pde m vaddr).frame) ≡ false = ground (arith, apart) in
    (
      put_pte vaddr (entry_of phy) m,
      rw clear refl,
      (
        ground (arith, differ, table),
        λ a same. (ground (arith, differ, same), ground (arith, differ, same, whole)),
        λ a small other. (ground (arith, differ, other), λ h. ground (arith, differ, other, h)),
      ),
      put_pte-TablesValid vaddr (entry_of phy) m apart,
    )

-- An address of a page that is not mapped, below the part where the tables themselves are seen, is
-- mapped by `page_table_add` to the page given, which starts on a page boundary, while the tables are
-- in order and a kernel page is free for a page table: the call returns, after it `addr_v2p`
-- translates each address that is translated by the same entry of the same table to the page given;
-- the other addresses below that part are mapped if they were before, and to what they were; and the
-- tables are in order again.
pub page_table_add_lem :
    (vaddr phy k : ℕ) (m : MemState)
    → vaddr / 2 ^ 22 < 1023
    → mapped m vaddr ≡ false
    → phy % pg_size ≡ 0
    → TablesValid m
    → PoolIsValid m.kernel_pool
    → k < total_bits m.kernel_pool.pool_bitmap
    → page_used m.kernel_pool k ≡ false
    → (m' : MemState) × (page_table_add vaddr phy m ≡ ok m') × Maps vaddr phy m m' × TablesValid m'
unfolding page_table_add addr_v2p
page_table_add_lem vaddr phy k m small out aligned tv v lt free =
    elim (Bool-cases (has_table m vaddr)) [
      | inl table ↦
          let apart = tv.apart (vaddr / 2 ^ 22) small table in
          let (m', e, maps, keeps) = set_pte_lem vaddr phy m table apart (ground arith) aligned in
          (m', rw table e, maps, keeps tv)
      | inr no_table ↦
          let (s, p, taken, first, _, start, len, bits) = palloc_lem m.kernel_pool k v lt free in
          let t = m.kernel_pool.phy_addr_start + s * pg_size in
          let fresh : (i : ℕ)
              → (m.tables m.page_dir i).present ≡ true
              → (m.tables m.page_dir i).frame ≢ t =
            λ i h. tv.unused i s h first.within first.free in
          let not_dir : t ≢ m.page_dir = λ e. fresh 1023 tv.own_present (tv.own ∙ sym e) in
          let whole : t % pg_size ≡ 0 = omega (arith, v.aligned) in
          let n = record m { kernel_pool = p } in
          let dir = add_table-pde_new vaddr t n no_table whole not_dir tv.apart fresh in
          let entry =
            add_table-pte_new vaddr t n no_table whole not_dir tv.apart fresh vaddr refl in
          let apart = add_table-apart vaddr t n no_table whole not_dir tv.apart fresh in
          let same = add_table-kept vaddr t n no_table whole not_dir tv.apart fresh in
          let (m', e, (self, here, there), keeps) =
            set_pte_lem vaddr phy (add_table vaddr t n) (ap (λ d. d.present) dir) apart
              (ap (λ d. d.present) entry) aligned in
          (
            m',
            rw (no_table, taken) e,
            (
              self,
              here,
              λ a low other.
                  let (kept, found) = there a low other in
                  let (kept', found') = same a low in
                  (kept ∙ kept', λ h. found (kept' ∙ h) ∙ found' h),
            ),
            keeps (
                add_table-TablesValid vaddr s p m small tv v not_dir start len bits
                  (add_table-dir vaddr t n no_table whole not_dir tv.apart fresh)),
          )
    ]
