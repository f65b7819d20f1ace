-- ===== src/Memory/Pools.antt =====
-- Pages and virtual addresses given out and taken back (kernel/memory.c).
use os_zhenxiang.Prelude.{
  ℕ, ◌+◌, ◌-◌, ◌*◌, ◌/◌, ◌%◌, ◌<◌, ◌≤◌, ◌^◌, ◌≡◌, refl, sym, ◌∙◌, Bool, true, false, some, ok,
  arith, leb, ◌==◌, if◌then◌else◌, ap, u32,
}
use os_zhenxiang.Thread.{pg_size}
use os_zhenxiang.Bitmap.{bitmap_scan_test}
use os_zhenxiang.Bitmap.Laws.{IsValid, total_bits, bitmap_set_lem}
use os_zhenxiang.Bitmap.FirstFit.{FirstFree, bitmap_scan_one}
use os_zhenxiang.Memory.{
  PoolFlags, pf_kernel, pf_user, Pool, MemState, pool_of, set_pool, page_take, palloc, pfree,
}

-- A pool that lies in the 32-bit address space, on page boundaries
pub record PoolIsValid (p : Pool) : Type 0 where
  pub valid : IsValid p.pool_bitmap
  pub aligned : p.phy_addr_start % pg_size ≡ 0
  pub top : p.phy_addr_start + total_bits p.pool_bitmap * pg_size < 2 ^ 32

-- The user pool lies behind the kernel pool.
pub record PoolsValid (m : MemState) : Type 0 where
  pub kernel_valid : PoolIsValid m.kernel_pool
  pub user_valid : PoolIsValid m.user_pool
  pub split :
      m.kernel_pool.phy_addr_start + total_bits m.kernel_pool.pool_bitmap * pg_size
      ≤ m.user_pool.phy_addr_start

abbrev pub page_used : Pool → ℕ → Bool
page_used p = bitmap_scan_test p.pool_bitmap

-- While a page of a pool in order is free, `palloc` returns the first free one, marks it as used and
-- changes nothing else.
pub palloc_lem :
    (p : Pool) (k : ℕ)
    → PoolIsValid p
    → k < total_bits p.pool_bitmap
    → page_used p k ≡ false
    → (s : ℕ) × (p' : Pool) × (palloc p ≡ ok (some (p.phy_addr_start + s * pg_size), p'))
      × FirstFree p.pool_bitmap s
      × PoolIsValid p'
      × (p'.phy_addr_start ≡ p.phy_addr_start)
      × (p'.pool_bitmap.btmp_bytes_len ≡ p.pool_bitmap.btmp_bytes_len)
      × ((j : ℕ) → page_used p' j ≡ (if s == j then true else page_used p j))
unfolding palloc page_take
palloc_lem p k v lt free =
    let (s, found, first) = bitmap_scan_one {b = p.pool_bitmap} k v.valid lt free in
    let (b, set, valid, len, bits) = bitmap_set_lem {b = p.pool_bitmap} s 1 v.valid (omega arith) in
    let addr : u32 (s * pg_size + p.phy_addr_start) ≡ p.phy_addr_start + s * pg_size =
      omega (arith, v.top, first.within) in
    (
      s,
      record p { pool_bitmap = b },
      rw (found, set, addr) refl,
      first,
      record { valid = valid; aligned = v.aligned; top = omega (arith, v.top) },
      refl,
      len,
      λ j. ground (arith, bits j),
    )

-- `pfree` of a page of the pool marks it as free and changes nothing else.
pub pfree_lem :
    (pf : PoolFlags) (m : MemState) (s : ℕ)
    → PoolsValid m
    → s < total_bits (pool_of pf m).pool_bitmap
    → (p : Pool) × (pfree ((pool_of pf m).phy_addr_start + s * pg_size) m ≡ ok (set_pool pf p m))
      × ((j : ℕ) → page_used p j ≡ (if s == j then false else page_used (pool_of pf m) j))
unfolding pfree
pfree_lem pf_kernel m s v lt =
    let (b, set, _, _, bits) =
      bitmap_set_lem {b = m.kernel_pool.pool_bitmap} s 0 v.kernel_valid.valid (omega arith) in
    let below : leb m.user_pool.phy_addr_start (m.kernel_pool.phy_addr_start + s * pg_size)
        ≡ false =
      ground (arith, v.split) in
    let bit : u32
            (m.kernel_pool.phy_addr_start + s * pg_size + 2 ^ 32 - m.kernel_pool.phy_addr_start)
          / pg_size
        ≡ s =
      omega (arith, v.kernel_valid.top) in
    (
      record m.kernel_pool { pool_bitmap = b },
      rw (below, bit, set) refl,
      λ j. ground (arith, bits j),
    )
pfree_lem pf_user m s v lt =
    let (b, set, _, _, bits) =
      bitmap_set_lem {b = m.user_pool.pool_bitmap} s 0 v.user_valid.valid (omega arith) in
    let above : leb m.user_pool.phy_addr_start (m.user_pool.phy_addr_start + s * pg_size) ≡ true =
      ground arith in
    let bit : (m.user_pool.phy_addr_start + s * pg_size - m.user_pool.phy_addr_start) / pg_size
        ≡ s =
      omega arith in
    (record m.user_pool { pool_bitmap = b }, rw (above, bit, set) refl, λ j. ground (arith, bits j))

-- Either pool replaced by one of the same place and length
replaced :
    (pf : PoolFlags) (m : MemState) (p : Pool)
    → PoolsValid m
    → PoolIsValid p
    → p.phy_addr_start ≡ (pool_of pf m).phy_addr_start
    → p.pool_bitmap.btmp_bytes_len ≡ (pool_of pf m).pool_bitmap.btmp_bytes_len
    → PoolsValid (set_pool pf p m)
replaced pf_kernel m p v valid start len = record {
  kernel_valid = valid;
  user_valid = v.user_valid;
  split = omega (arith, v.split);
}
replaced pf_user m p v valid start len = record {
  kernel_valid = v.kernel_valid;
  user_valid = valid;
  split = omega (arith, v.split);
}

pool_of-set_pool : (pf : PoolFlags) (p : Pool) (m : MemState) → pool_of pf (set_pool pf p m) ≡ p
pool_of-set_pool pf_kernel p m = refl
pool_of-set_pool pf_user p m = refl

set_pool-set_pool :
    (pf : PoolFlags) (p q : Pool) (m : MemState) → set_pool pf q (set_pool pf p m) ≡ set_pool pf q m
set_pool-set_pool pf_kernel p q m = refl
set_pool-set_pool pf_user p q m = refl

-- With both pools in order: a page that `palloc` takes from either, while one is free, and that `pfree` gets back leaves
-- every page of that pool as it was, and the rest of memory untouched: `pfree` finds the pool that a
-- page belongs to.
pub pfree-palloc :
    (pf : PoolFlags) (m : MemState) (k : ℕ)
    → PoolsValid m
    → k < total_bits (pool_of pf m).pool_bitmap
    → page_used (pool_of pf m) k ≡ false
    → (addr : ℕ) × (p : Pool) × (p' : Pool) × (palloc (pool_of pf m) ≡ ok (some addr, p))
      × (pfree addr (set_pool pf p m) ≡ ok (set_pool pf p' m))
      × ((j : ℕ) → page_used p' j ≡ page_used (pool_of pf m) j)
pfree-palloc pf m k v lt free =
    let valid : PoolIsValid (pool_of pf m) = pool_valid pf in
    let (s, p, taken, first, valid', start, len, bits) =
      palloc_lem (pool_of pf m) k valid lt free in
    let same = pool_of-set_pool pf p m in
    let (p', freed, bits') =
      pfree_lem pf (set_pool pf p m) s (replaced pf m p v valid' start len)
        (rw same (omega (arith, first.within))) in
    (
      (pool_of pf m).phy_addr_start + s * pg_size,
      p,
      p',
      taken,
      ap (λ a. pfree (a + s * pg_size) (set_pool pf p m))
            (sym (ap (λ p. p.phy_addr_start) same ∙ start))
          ∙ freed
          ∙ ap ok (set_pool-set_pool pf p p' m),
      λ j. bits' j ∙ ground (arith, ap (λ p. page_used p j) same, bits j, first.free),
    )
  where
    pool_valid : (pf : PoolFlags) → PoolIsValid (pool_of pf m)
    pool_valid pf_kernel = v.kernel_valid
    pool_valid pf_user = v.user_valid
