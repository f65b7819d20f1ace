-- ===== src/Memory/Entries.antt =====
-- The entries of the page tables (kernel/memory.c): what a new page table and a write to an entry change.
use os_zhenxiang.Prelude.{
  sym, ap, ℕ, ◌+◌, ◌*◌, ◌/◌, ◌%◌, ◌<◌, ◌^◌, ◌≡◌, ◌≢◌, refl, ◌∙◌, Bool, true, false, ◌&&◌, arith,
  Bool-cases, inl, inr, ◌==◌, if◌then◌else◌,
}
use os_zhenxiang.Thread.{pg_size}
use os_zhenxiang.Bitmap.Laws.{total_bits}
use os_zhenxiang.Memory.{
  Pool, MemState, Entry, pde, pte, put_pte, put_pde, no_entry, entry_of, add_table, addr_v2p,
}
use os_zhenxiang.Memory.Pools.{PoolIsValid, page_used}

-- whether an address has a page table, and whether its page is mapped
abbrev pub has_table : MemState → ℕ → Bool
has_table m vaddr = (pde m vaddr).present

abbrev pub mapped : MemState → ℕ → Bool
mapped m vaddr = has_table m vaddr && (pte m vaddr).present

-- whether an address is translated by the entry that translates `vaddr`
abbrev pub shares : MemState → (vaddr a : ℕ) → Bool
shares m vaddr a =
    has_table m a
    && (((pde m a).frame == (pde m vaddr).frame) && (a / pg_size % 1024 == vaddr / pg_size % 1024))

-- The last entry of the directory, and no other, names the directory, and no free page of the kernel
-- pool is a table.
pub record TablesValid (m : MemState) : Type 0 where
  pub own : (m.tables m.page_dir 1023).frame ≡ m.page_dir
  pub own_present : (m.tables m.page_dir 1023).present ≡ true
  pub apart :
      (i : ℕ)
      → i < 1023
      → (m.tables m.page_dir i).present ≡ true
      → (m.tables m.page_dir i).frame ≢ m.page_dir
  pub unused :
      (i j : ℕ)
      → (m.tables m.page_dir i).present ≡ true
      → j < total_bits m.kernel_pool.pool_bitmap
      → page_used m.kernel_pool j ≡ false
      → (m.tables m.page_dir i).frame ≢ m.kernel_pool.phy_addr_start + j * pg_size

-- A write to an entry of a table other than the directory
pub put_pte-TablesValid :
    (vaddr : ℕ) (e : Entry) (m : MemState)
    → (pde m vaddr).frame ≢ m.page_dir
    → TablesValid m
    → TablesValid (put_pte vaddr e m)
put_pte-TablesValid vaddr e m apart tv =
    let differ : (m.page_dir == (pde m vaddr).frame) ≡ false = ground (arith, apart) in
    record {
      own = rw differ tv.own;
      own_present = rw differ tv.own_present;
      apart = λ i. rw differ (tv.apart i);
      unused = λ i j. rw differ (tv.unused i j);
    }

-- The entries of all tables after `add_table`
add_table-tables :
    (vaddr table : ℕ) (m : MemState)
    → table % pg_size ≡ 0
    → (f i : ℕ)
    → (add_table vaddr table m).tables f i ≡ (
        if f == table
        then no_entry
        else if (f == m.page_dir) && (i == vaddr / 2 ^ 22)
        then entry_of table
        else m.tables f i)
unfolding add_table
add_table-tables vaddr table m aligned f i =
    let whole : table / pg_size * pg_size ≡ table = omega arith in
    let new : pde (put_pde vaddr (entry_of table) m) vaddr ≡ entry_of table = ground arith in
    rw (new, whole) refl

-- A new page table at a page that is no table yet
module _ (vaddr table : ℕ) (m : MemState) (out : has_table m vaddr ≡ false)
    (aligned : table % pg_size ≡ 0) (not_dir : table ≢ m.page_dir)
    (apart : (i : ℕ)
      → i < 1023
      → (m.tables m.page_dir i).present ≡ true
      → (m.tables m.page_dir i).frame ≢ m.page_dir)
    (fresh : (i : ℕ)
      → (m.tables m.page_dir i).present ≡ true
      → (m.tables m.page_dir i).frame ≢ table) where
  pub add_table-dir :
      (i : ℕ)
      → (add_table vaddr table m).tables m.page_dir i
        ≡ (if i == vaddr / 2 ^ 22 then entry_of table else m.tables m.page_dir i)
  add_table-dir i =
      let differ : (m.page_dir == table) ≡ false = ground (arith, not_dir) in
      let here : (m.page_dir == m.page_dir) ≡ true = ground arith in
      add_table-tables vaddr table m aligned m.page_dir i ∙ rw (differ, here) refl

  add_table-pde :
      (a : ℕ)
      → pde (add_table vaddr table m) a
        ≡ (if a / 2 ^ 22 == vaddr / 2 ^ 22 then entry_of table else pde m a)
  unfolding add_table
  add_table-pde a = add_table-dir (a / 2 ^ 22)

  pub add_table-pde_new : pde (add_table vaddr table m) vaddr ≡ entry_of table
  add_table-pde_new = add_table-pde vaddr ∙ ground arith

  pub add_table-apart :
      (pde (add_table vaddr table m) vaddr).frame ≢ (add_table vaddr table m).page_dir
  unfolding add_table
  add_table-apart e = not_dir (omega arith ∙ sym (ap (λ d. d.frame) add_table-pde_new) ∙ e)

  pub add_table-pte_new :
      (a : ℕ) → a / 2 ^ 22 ≡ vaddr / 2 ^ 22 → pte (add_table vaddr table m) a ≡ no_entry
  add_table-pte_new a e =
      let new : pde (add_table vaddr table m) a ≡ entry_of table =
        add_table-pde a ∙ ground (arith, e) in
      let whole : table / pg_size * pg_size ≡ table = omega arith in
      ap (λ d. (add_table vaddr table m).tables d.frame (a / pg_size % 1024)) new
      ∙ add_table-tables vaddr table m aligned (table / pg_size * pg_size) (a / pg_size % 1024)
      ∙ ground (arith, whole)

  add_table-pde_old : (a : ℕ) → has_table m a ≡ true → pde (add_table vaddr table m) a ≡ pde m a
  add_table-pde_old a h = add_table-pde a ∙ ground (arith, h, out)

  add_table-pte_old :
      (a : ℕ) → a / 2 ^ 22 < 1023 → has_table m a ≡ true → pte (add_table vaddr table m) a ≡ pte m a
  add_table-pte_old a small h =
      let other : ((pde m a).frame == table) ≡ false = ground (arith, fresh (a / 2 ^ 22) h) in
      let inside : ((pde m a).frame == m.page_dir) ≡ false =
        ground (arith, apart (a / 2 ^ 22) small h) in
      ap (λ d. (add_table vaddr table m).tables d.frame (a / pg_size % 1024))
        (add_table-pde_old a h)
      ∙ add_table-tables vaddr table m aligned (pde m a).frame (a / pg_size % 1024)
      ∙ rw (other, inside) refl

  -- an address without a table before has none or one of zeros
  add_table-unmapped : (a : ℕ) → has_table m a ≡ false → mapped (add_table vaddr table m) a ≡ false
  add_table-unmapped a h = elim (Bool-cases (a / 2 ^ 22 == vaddr / 2 ^ 22)) [
    | inl e ↦ rw (mapped, add_table-pte_new a (ground (arith, e))) (ground arith)
    | inr n ↦ rw (mapped, has_table, add_table-pde a, n, h) refl
  ]

  pub add_table-kept :
      (a : ℕ)
      → a / 2 ^ 22 < 1023
      → (mapped (add_table vaddr table m) a ≡ mapped m a)
        × (mapped m a ≡ true → addr_v2p a (add_table vaddr table m) ≡ addr_v2p a m)
  unfolding addr_v2p
  add_table-kept a small = elim (Bool-cases (has_table m a)) [
    | inl h ↦
        let dir = add_table-pde_old a h in
        let entry = add_table-pte_old a small h in
        (rw (mapped, has_table, dir, entry) refl, λ mp. rw entry refl)
    | inr h ↦ (rw (add_table-unmapped a h, mapped, h) refl, λ mp. ground (arith, h, mp))
  ]

-- A page table at the page that `palloc` took keeps the tables in order.
pub add_table-TablesValid :
    (vaddr s : ℕ) (p : Pool) (m : MemState)
    → vaddr / 2 ^ 22 < 1023
    → TablesValid m
    → PoolIsValid m.kernel_pool
    → m.kernel_pool.phy_addr_start + s * pg_size ≢ m.page_dir
    → p.phy_addr_start ≡ m.kernel_pool.phy_addr_start
    → p.pool_bitmap.btmp_bytes_len ≡ m.kernel_pool.pool_bitmap.btmp_bytes_len
    → ((j : ℕ) → page_used p j ≡ (if s == j then true else page_used m.kernel_pool j))
    → ((a : ℕ)
        → (add_table vaddr
              (m.kernel_pool.phy_addr_start + s * pg_size)
              (record m { kernel_pool = p })).tables
            m.page_dir a
          ≡ (if a == vaddr / 2 ^ 22
              then entry_of (m.kernel_pool.phy_addr_start + s * pg_size)
              else m.tables m.page_dir a))
    → TablesValid (
        add_table vaddr (m.kernel_pool.phy_addr_start + s * pg_size) (record m { kernel_pool = p }))
unfolding add_table
add_table-TablesValid vaddr s p m small tv v not_dir start len bits dir =
    let whole : (m.kernel_pool.phy_addr_start + s * pg_size) / pg_size * pg_size
        ≡ m.kernel_pool.phy_addr_start + s * pg_size =
      omega (arith, v.aligned) in
    record {
      own = ap (λ d. d.frame) (dir 1023) ∙ ground (arith, tv.own, small);
      own_present = ap (λ d. d.present) (dir 1023) ∙ ground (arith, tv.own_present, small);
      apart = λ i lt here e.
          let here' = sym (ap (λ d. d.present) (dir i)) ∙ here in
          let e' = sym (ap (λ d. d.frame) (dir i)) ∙ e in
          ground (arith, here', e', whole, not_dir, tv.apart i lt);
      unused = λ i j here lt free e.
          let here' = sym (ap (λ d. d.present) (dir i)) ∙ here in
          let e' = sym (ap (λ d. d.frame) (dir i)) ∙ e in
          ground (arith, here', e', whole, bits j, len, start, free, lt, tv.unused i j);
    }
