-- ===== src/Bitmap/Tests.antt =====
-- Runs of the bitmap operations, and the theorems at concrete bitmaps.
use os_zhenxiang.Prelude.{
  ℕ, ◌≡◌, refl, true, false, Option, none, some, ok, panic, arith, ◌==◌, if◌then◌else◌, every,
  every_sound, test_bit_full, test_bit,
}
use os_zhenxiang.Bitmap.{
  Bitmap, bitmap_init, bitmap_scan_test, bitmap_scan, bitmap_set, skip_full, first_zero, scan_run,
}
use os_zhenxiang.Bitmap.Laws.{IsValid, bitmap_scan_test-bitmap_init, bitmap_set_lem}
use os_zhenxiang.Bitmap.Scan.{Found}
use os_zhenxiang.Bitmap.FirstFit.{AllUsed, FirstFree, bitmap_scan_many, bitmap_scan_overrun}

-- two bytes 0xff 0x93, then clear memory
abbrev some_used : Bitmap
some_used = record {
  btmp_bytes_len = 2;
  bits = λ i. if i == 0 then 255 else if i == 1 then 0x93 else 0;
}

abbrev last_free : Bitmap
last_free = record { btmp_bytes_len = 1; bits = λ i. if i == 0 then 0x7f else 0 }

abbrev full : Bitmap
full = record { btmp_bytes_len = 1; bits = λ i. 255 }

some_used-IsValid : IsValid some_used
some_used-IsValid = record { bytes = λ i. ground arith; small = omega arith }

last_free-IsValid : IsValid last_free
last_free-IsValid = record { bytes = λ i. ground arith; small = omega arith }

full-IsValid : IsValid full
full-IsValid = record { bytes = λ i. omega arith; small = omega arith }

scan_runs :
    (bitmap_scan some_used 1 ≡ ok (some 10))
    × (bitmap_scan some_used 2 ≡ ok (some 10))
    × (bitmap_scan some_used 3 ≡ ok none)
    × (bitmap_scan last_free 2 ≡ ok (some 7))
    × (bitmap_scan full 1 ≡ panic)
unfolding bitmap_scan skip_full first_zero scan_run bitmap_scan_test test_bit
scan_runs = (refl, refl, refl, refl, refl)

bitmap_scan_test-bitmap_init_example : bitmap_scan_test (bitmap_init some_used) 9 ≡ false
bitmap_scan_test-bitmap_init_example = bitmap_scan_test-bitmap_init some_used 9

bitmap_set_lem_example :
    (b' : Bitmap) × (bitmap_set some_used 10 1 ≡ ok b')
    × IsValid b'
    × (b'.btmp_bytes_len ≡ 2)
    × ((j : ℕ) → bitmap_scan_test b' j ≡ (if 10 == j then true else bitmap_scan_test some_used j))
bitmap_set_lem_example = bitmap_set_lem 10 1 some_used-IsValid (omega arith)

full-AllUsed : AllUsed full
unfolding bitmap_scan_test
full-AllUsed j h = test_bit_full _ (omega arith)

ten_free : bitmap_scan_test some_used 10 ≡ false
unfolding bitmap_scan_test test_bit
ten_free = refl

bitmap_scan_many_example :
    (r : Option ℕ) × (bitmap_scan some_used 2 ≡ ok r) × Found some_used 0 17 2 r
bitmap_scan_many_example =
    bitmap_scan_many 2 10 some_used-IsValid (omega arith) (omega arith) (omega arith) ten_free

low_used : every 7 (λ j. bitmap_scan_test last_free j) ≡ true
unfolding every bitmap_scan_test test_bit
low_used = refl

last_free-FirstFree : FirstFree last_free 7
unfolding bitmap_scan_test test_bit
last_free-FirstFree = record {
  within = omega arith;
  free = refl;
  least = λ j h. every_sound (λ j. bitmap_scan_test last_free j) 7 j h low_used;
}

beyond_free : bitmap_scan_test last_free 8 ≡ false
unfolding bitmap_scan_test test_bit
beyond_free = refl

bitmap_scan_overrun_example : bitmap_scan last_free 2 ≡ ok (some 7)
bitmap_scan_overrun_example =
    bitmap_scan_overrun 7 last_free-IsValid refl last_free-FirstFree beyond_free
