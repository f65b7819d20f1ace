-- ===== src/FileTable/Alloc.antt =====
-- What the allocation of a sector does to the bitmap, and its storing to the disk.
use os_zhenxiang.Prelude.{
  ℕ, ◌+◌, ◌*◌, ◌/◌, ◌^◌, ◌<◌, ◌≤◌, ◌≡◌, refl, false, ◌&&◌, some, ok, arith, ltb, leb, u32,
}
use os_zhenxiang.Bitmap.{Bitmap, bitmap_scan_test}
use os_zhenxiang.Bitmap.Laws.{IsValid, total_bits, bitmap_set_lem}
use os_zhenxiang.Bitmap.FirstFit.{FirstFree, bitmap_scan_one}
use os_zhenxiang.Bitmap.Count.{Sets}
use os_zhenxiang.FileTable.{block_bitmap_alloc, bit_take, bitmap_sync}

-- the first clear bit, set in `b'`
pub record Taking (b b' : Bitmap) (s : ℕ) : Type 0 where
  pub first : FirstFree b s
  pub valid : IsValid b'
  pub same_length : b'.btmp_bytes_len ≡ b.btmp_bytes_len
  pub sets : Sets s b b'

pub block_bitmap_alloc_lem :
    (data_start_lba k : ℕ) (b : Bitmap)
    → IsValid b
    → k < total_bits b
    → bitmap_scan_test b k ≡ false
    → data_start_lba + total_bits b < 2 ^ 32
    → (s : ℕ) × (b' : Bitmap) × (block_bitmap_alloc data_start_lba b
        ≡ ok (some (data_start_lba + s), b'))
      × Taking b b' s
unfolding block_bitmap_alloc bit_take
block_bitmap_alloc_lem data_start_lba k b v lt free small =
    let (s, scanned, first) = bitmap_scan_one k v lt free in
    let (b', set, valid, len, tests) = bitmap_set_lem s 1 v (omega arith) in
    let sum : u32 (data_start_lba + s) ≡ data_start_lba + s = omega (arith, first.within) in
    (
      s,
      b',
      rw (scanned, set, sum) refl,
      record {
        first = first;
        valid = valid;
        same_length = len;
        sets = λ j. ground (arith, tests j);
      },
    )

-- Storing a bit of the bitmap touches the bitmap's sectors alone.
pub bitmap_sync_off :
    (bitmap_lba bit_idx start : ℕ) (b : Bitmap) (disk : ℕ → ℕ) (a : ℕ)
    → bitmap_lba + bit_idx / 4096 < start
    → start < 2 ^ 32
    → start ≤ a / 512
    → bitmap_sync bitmap_lba bit_idx b disk a ≡ disk a
unfolding bitmap_sync
bitmap_sync_off bitmap_lba bit_idx start b disk a before small h =
    let sum : u32 (bitmap_lba + bit_idx / 4096) ≡ bitmap_lba + bit_idx / 4096 = omega arith in
    let out : leb (512 * (bitmap_lba + bit_idx / 4096)) a
          && ltb a (512 * (bitmap_lba + bit_idx / 4096 + 1))
        ≡ false =
      ground arith in
    rw (sum, out) refl
