-- ===== src/Memory/Vaddrs.antt =====
-- Virtual addresses given out and taken back (kernel/memory.c).
use os_zhenxiang.Prelude.{
  ℕ, ◌+◌, ◌-◌, ◌*◌, ◌/◌, ◌<◌, ◌^◌, ◌≡◌, refl, Bool, true, false, some, ok, arith, if◌then◌else◌,
  u32,
}
use os_zhenxiang.Thread.{pg_size}
use os_zhenxiang.Bitmap.{Bitmap, bitmap_scan, bitmap_scan_test}
use os_zhenxiang.Bitmap.Laws.{IsValid, total_bits}
use os_zhenxiang.Memory.{
  PoolFlags, pf_kernel, pf_user, VirtualAddr, MemState, vaddr_of, set_vaddr, set_bits, vaddr_fits,
  vaddr_take, vaddr_get, vaddr_remove,
}
use os_zhenxiang.Memory.Bits.{in_run, set_bits_lem, scan_clear}

-- The addresses, and the page behind them, are 32-bit numbers.
pub record VaddrIsValid (v : VirtualAddr) : Type 0 where
  pub valid : IsValid v.vaddr_bitmap
  pub top : v.vaddr_start + (total_bits v.vaddr_bitmap + 1) * pg_size < 2 ^ 32

abbrev pub vaddr_used : VirtualAddr → ℕ → Bool
vaddr_used v = bitmap_scan_test v.vaddr_bitmap

remove_lem :
    (pf : PoolFlags) (m : MemState) (start s n : ℕ) (b b' : Bitmap)
    → set_bits n s 0 b ≡ ok b'
    → u32 (start + s * pg_size + 2 ^ 32 - start) / pg_size ≡ s
    → vaddr_remove pf
        (start + s * pg_size)
        n
        (set_vaddr pf (record { vaddr_bitmap = b; vaddr_start = start }) m)
      ≡ ok (set_vaddr pf (record { vaddr_bitmap = b'; vaddr_start = start }) m)
unfolding vaddr_remove
remove_lem pf_kernel m start s n b b' reset bit = rw (bit, reset) refl
remove_lem pf_user m start s n b b' reset bit = rw (bit, reset) refl

-- When the scan of a range in order, with an address free, finds room for `n` pages, and a process does not reach its stack, `vaddr_get` returns
-- the address of the first, and marks `n` pages that were free and no others; and when
-- `vaddr_remove` gets that address back, every page is as it was.
pub vaddr_remove-vaddr_get :
    (pf : PoolFlags) (m : MemState) (n k s : ℕ)
    → VaddrIsValid (vaddr_of pf m)
    → 0 < n
    → n < 2 ^ 31
    → k < total_bits (vaddr_of pf m).vaddr_bitmap
    → vaddr_used (vaddr_of pf m) k ≡ false
    → bitmap_scan (vaddr_of pf m).vaddr_bitmap n ≡ ok (some s)
    → vaddr_fits pf ((vaddr_of pf m).vaddr_start + s * pg_size) ≡ true
    → (v : VirtualAddr) × (v' : VirtualAddr) × (vaddr_get pf n m
        ≡ ok (some ((vaddr_of pf m).vaddr_start + s * pg_size), set_vaddr pf v m))
      × ((j : ℕ) → in_run s n j ≡ true → vaddr_used (vaddr_of pf m) j ≡ false)
      × ((j : ℕ) → vaddr_used v j ≡ (if in_run s n j then true else vaddr_used (vaddr_of pf m) j))
      × (vaddr_remove pf ((vaddr_of pf m).vaddr_start + s * pg_size) n (set_vaddr pf v m)
          ≡ ok (set_vaddr pf v' m))
      × ((j : ℕ) → vaddr_used v' j ≡ vaddr_used (vaddr_of pf m) j)
unfolding vaddr_get vaddr_take vaddr_remove
vaddr_remove-vaddr_get pf m n k s valid positive small lt free found fits =
    let v = vaddr_of pf m in
    let (bound, clear) =
      scan_clear {b = v.vaddr_bitmap} n k s valid.valid positive small lt free found in
    let (b, set, valid₁, len, bits) =
      set_bits_lem {b = v.vaddr_bitmap} n s 1 valid.valid (omega arith) in
    let (b', reset, valid₂, len', bits') = set_bits_lem {b = b} n s 0 valid₁ (omega arith) in
    let addr : u32 (v.vaddr_start + s * pg_size) ≡ v.vaddr_start + s * pg_size =
      omega (arith, valid.top) in
    let bit : u32 (v.vaddr_start + s * pg_size + 2 ^ 32 - v.vaddr_start) / pg_size ≡ s =
      omega (arith, valid.top) in
    (
      record v { vaddr_bitmap = b },
      record v { vaddr_bitmap = b' },
      rw (found, set, addr, fits) refl,
      clear,
      λ j. ground (arith, bits j),
      remove_lem pf m v.vaddr_start s n b b' reset bit,
      λ j. ground (arith, bits j, bits' j, clear j),
    )
