-- ===== src/Bitmap/Laws.antt =====
-- `bitmap_init` and `bitmap_set` of lib/kernel/bitmap.c, as seen through `bitmap_scan_test`.
use os_zhenxiang.Prelude.{
  ℕ, zero, suc, ◌+◌, ◌*◌, ◌/◌, ◌%◌, ◌^◌, ◌<◌, ◌≡◌, refl, false, arith, ok, ltb, ◌==◌, if◌then◌else◌,
  test_bit-bit_or, test_bit-bit_and, bit_or-lt, bit_and-lt, test_bit-zero,
}
use os_zhenxiang.Bitmap.{Bitmap, store, clear_bytes, bitmap_init, bitmap_scan_test, bitmap_set}

-- Memory holds bytes, and every bit number is an `int`.
pub record IsValid (b : Bitmap) : Type 0 where
  pub bytes : (i : ℕ) → b.bits i < 256
  pub small : b.btmp_bytes_len * 8 < 2 ^ 31

-- the number of bits of a bitmap
abbrev pub total_bits : Bitmap → ℕ
total_bits b = b.btmp_bytes_len * 8

clear_bytes_lem :
    (n i : ℕ) (m : ℕ → ℕ) (j : ℕ)
    → clear_bytes n i m j ≡ (if ltb j i then m j else if ltb j (i + n) then 0 else m j)
unfolding clear_bytes
clear_bytes_lem zero i m j = ground arith
clear_bytes_lem (suc n) i m j = ground (arith, clear_bytes_lem n (i + 1) (store m i 0) j)

-- After `bitmap_init` no bit of the bitmap is set, and bits behind it are as before.
pub bitmap_scan_test-bitmap_init :
    (b : Bitmap) (j : ℕ)
    → bitmap_scan_test (bitmap_init b) j
      ≡ (if ltb j (total_bits b) then false else bitmap_scan_test b j)
unfolding bitmap_scan_test bitmap_init
bitmap_scan_test-bitmap_init b j =
    ground (arith, clear_bytes_lem b.btmp_bytes_len 0 b.bits (j / 8), test_bit-zero (j % 8))

-- `bitmap_set` with 0 or 1 returns, and changes the one bit that it is given.
pub bitmap_set_lem :
    {b : Bitmap} (i v : ℕ)
    → IsValid b
    → v < 2
    → (b' : Bitmap) × (bitmap_set b i v ≡ ok b')
      × IsValid b'
      × (b'.btmp_bytes_len ≡ b.btmp_bytes_len)
      × ((j : ℕ) → bitmap_scan_test b' j ≡ (if i == j then v == 1 else bitmap_scan_test b j))
unfolding bitmap_set bitmap_scan_test
bitmap_set_lem {b} i zero valid h = (
  _,
  refl,
  record {
    bytes = λ k.
        ground (arith, valid.bytes k, valid.bytes (i / 8), bit_and-lt (b.bits (i / 8)) (i % 8));
    small = valid.small;
  },
  refl,
  λ j. ground (
    arith,
    valid.bytes (i / 8),
    test_bit-bit_and (b.bits (i / 8)) (i % 8) (omega (arith, valid.bytes (i / 8))) (omega arith)
        (j % 8),
  ),
)
bitmap_set_lem {b} i (suc zero) valid h = (
  _,
  refl,
  record {
    bytes =
        λ k. ground (arith, valid.bytes k, valid.bytes (i / 8), bit_or-lt (b.bits (i / 8)) (i % 8));
    small = valid.small;
  },
  refl,
  λ j. ground (
    arith,
    valid.bytes (i / 8),
    test_bit-bit_or (b.bits (i / 8)) (i % 8) (omega (arith, valid.bytes (i / 8))) (omega arith)
        (j % 8),
  ),
)
bitmap_set_lem i (suc (suc v)) valid h = absurd (omega arith)

-- `bitmap_init` keeps the length, and memory holds bytes behind it too.
pub bitmap_init-IsValid :
    (b : Bitmap)
    → IsValid b
    → IsValid (bitmap_init b) × ((bitmap_init b).btmp_bytes_len ≡ b.btmp_bytes_len)
unfolding bitmap_init
bitmap_init-IsValid b v = (
  record {
    bytes = λ i. ground (arith, clear_bytes_lem b.btmp_bytes_len 0 b.bits i, v.bytes i);
    small = v.small;
  },
  refl,
)
