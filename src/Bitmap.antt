-- ===== src/Bitmap.antt =====
-- lib/kernel/bitmap.c and bitmap.h: the bitmaps that record which pages, sectors and inodes are
-- taken. `bits` points into memory, and the code reads past the bitmap's own bytes, so the model
-- has every byte of memory from that pointer on. -1 is `none`.
pub mod Laws
pub mod Scan
pub mod FirstFit
pub mod Count
mod Tests
use Prim.Native.Nat.{bit_and, bit_or}
use os_zhenxiang.Prelude.{
  ℕ, zero, suc, ◌+◌, ◌-◌, ◌*◌, ◌/◌, ◌%◌, ◌^◌, Bool, true, false, ◌||◌, Option, none, some, Outcome,
  ok, ◌>>=◌, ◌>>◌, assert, ltb, ◌==◌, if◌then◌else◌, u32, not32, test_bit,
}

-- `struct bitmap`
pub record Bitmap : Type 0 where
  pub btmp_bytes_len : ℕ
  pub bits : ℕ → ℕ

-- one byte of memory written
abbrev pub store : (ℕ → ℕ) → ℕ → ℕ → ℕ → ℕ
store m i v j = if i == j then v else m j

-- The loop of `memset`, from index `i` on.
clear_bytes : ℕ → ℕ → (ℕ → ℕ) → ℕ → ℕ
clear_bytes zero i m = m
clear_bytes (suc n) i m = clear_bytes n (i + 1) (store m i 0)

pub bitmap_init : Bitmap → Bitmap
bitmap_init b = record b { bits = clear_bytes b.btmp_bytes_len 0 b.bits }

unfoldable pub bitmap_scan_test : Bitmap → ℕ → Bool
bitmap_scan_test b bit_idx = test_bit (b.bits (bit_idx / 8)) (bit_idx % 8)

-- `while (0xff == bits[idx_byte] && idx_byte < btmp_bytes_len) idx_byte++`: the first argument
-- counts the bytes left, so at `zero` the second condition ends the loop.
unfoldable pub skip_full : (ℕ → ℕ) → (left idx_byte : ℕ) → ℕ
skip_full m zero idx_byte = idx_byte
skip_full m (suc left) idx_byte =
    let rest = skip_full m left (idx_byte + 1) in if m idx_byte == 255 then rest else idx_byte

-- `while ((uint8_t)(BITMAP_MASK << idx_bit) & byte) idx_bit++`: the mask is 0 from bit 8 on.
unfoldable pub first_zero : (byte left idx_bit : ℕ) → ℕ
first_zero byte zero idx_bit = idx_bit
first_zero byte (suc left) idx_bit =
    let rest = first_zero byte left (idx_bit + 1) in if test_bit byte idx_bit then rest else idx_bit

-- `while (bit_left-- > 0)`
unfoldable pub scan_run : Bitmap → (cnt bit_left next_bit count : ℕ) → Option ℕ
scan_run b cnt zero next_bit count = none
scan_run b cnt (suc bit_left) next_bit count =
    let count' = if bitmap_scan_test b next_bit then 0 else u32 (count + 1) in
    let rest = scan_run b cnt bit_left (u32 (next_bit + 1)) count' in
    if count' == cnt then some (u32 (next_bit + 2 ^ 32 - cnt + 1)) else rest

unfoldable pub bitmap_scan : Bitmap → ℕ → Outcome (Option ℕ)
bitmap_scan b cnt =
    let idx_byte = skip_full b.bits b.btmp_bytes_len 0 in
    do
      assert (ltb idx_byte b.btmp_bytes_len)
      if idx_byte == b.btmp_bytes_len
          then ok none
          else (let bit_idx_start = u32 (idx_byte * 8 + first_zero (b.bits idx_byte) 8 0) in
              if cnt == 1
              then ok (some bit_idx_start)
              else ok (
                  scan_run b cnt (u32 (b.btmp_bytes_len * 8 + 2 ^ 32 - bit_idx_start))
                    (u32 (bit_idx_start + 1)) 1))

set_byte : Bitmap → ℕ → ℕ → Bitmap
set_byte b i v = record b { bits = store b.bits i v }

unfoldable pub bitmap_set : Bitmap → ℕ → ℕ → Outcome Bitmap
unfolding set_byte
bitmap_set b bit_idx value =
    let byte_idx = bit_idx / 8 in
    let bit_odd = bit_idx % 8 in
    do
      assert (value == 0 || value == 1)
      if value == 0
          then ok (set_byte b byte_idx (bit_and (b.bits byte_idx) (not32 (2 ^ bit_odd))))
          else ok (set_byte b byte_idx (bit_or (b.bits byte_idx) (2 ^ bit_odd)))
