-- ===== src/Bitmap/FirstFit.antt =====
-- `bitmap_scan` of lib/kernel/bitmap.c against first fit on the bits.
use os_zhenxiang.Prelude.{
  ℕ, ◌+◌, ◌-◌, ◌*◌, ◌/◌, ◌%◌, ◌^◌, ◌<◌, ◌≡◌, inl, inr, true, false, Option, none, some, ok, panic,
  arith, ltb, ◌==◌, if◌then◌else◌, u32, ◌∙◌, ap, Bool-cases, dec_lt, test_bit_full, eq_full,
}
use os_zhenxiang.Bitmap.{Bitmap, bitmap_scan_test, skip_full, first_zero, scan_run, bitmap_scan}
use os_zhenxiang.Bitmap.Laws.{IsValid, total_bits}
use os_zhenxiang.Bitmap.Scan.{Found, skip_full_lem, first_zero_lem, Scanning, scan_run_lem}

abbrev pub AllUsed : Bitmap → Type 0
AllUsed b = (j : ℕ) → j < total_bits b → bitmap_scan_test b j ≡ true

-- the first clear bit of a bitmap
pub record FirstFree (b : Bitmap) (s : ℕ) : Type 0 where
  pub within : s < total_bits b
  pub free : bitmap_scan_test b s ≡ false
  pub least : (j : ℕ) → j < s → bitmap_scan_test b j ≡ true

module _ {b : Bitmap} (v : IsValid b) where
  abbrev full_bytes : ℕ
  full_bytes = skip_full b.bits b.btmp_bytes_len 0

  abbrev first_bit : ℕ
  first_bit = full_bytes * 8 + first_zero (b.bits full_bytes) 8 0

  skipped-used : (j : ℕ) → j / 8 < full_bytes → bitmap_scan_test b j ≡ true
  unfolding bitmap_scan_test
  skipped-used j h =
      rw ((skip_full_lem b.bits b.btmp_bytes_len 0).2 (j / 8) (omega arith) h)
        (test_bit_full (j % 8) (omega arith))

  all_used : full_bytes ≡ b.btmp_bytes_len → AllUsed b
  all_used e j h = skipped-used j (omega arith)

  first_zero-lt : full_bytes < b.btmp_bytes_len → first_zero (b.bits full_bytes) 8 0 < 8
  first_zero-lt h =
      let (_, le, set, _) = first_zero_lem (b.bits full_bytes) 8 0 in
      let (_, _, _, ne) = skip_full_lem b.bits b.btmp_bytes_len 0 in
      elim (dec_lt (first_zero (b.bits full_bytes) 8 0) 8) [
        | yes p ↦ p
        | no p ↦ absurd (
            ne (omega arith) (
              eq_full (b.bits full_bytes) (v.bytes full_bytes)
                λ k lt. set k (omega arith) (omega arith)))
      ]

  first_bit-FirstFree : full_bytes < b.btmp_bytes_len → FirstFree b first_bit
  unfolding bitmap_scan_test
  first_bit-FirstFree h =
      let z = first_zero-lt h in
      let (_, _, set, clear) = first_zero_lem (b.bits full_bytes) 8 0 in
      let q : first_bit / 8 ≡ full_bytes = omega arith in
      let r : first_bit % 8 ≡ first_zero (b.bits full_bytes) 8 0 = omega arith in
      record {
        within = omega arith;
        free = rw (q, r) (clear z);
        least = λ j lt. elim (dec_lt (j / 8) full_bytes) [
          | yes p ↦ skipped-used j p
          | no p ↦
              let e : j / 8 ≡ full_bytes = omega arith in
              rw e (set (j % 8) (omega arith) (omega arith))
        ];
      }

-- `bitmap_scan` once it has found a byte that is not full
bitmap_scan_past :
    {b : Bitmap} (cnt : ℕ) (v : IsValid b)
    → full_bytes v < b.btmp_bytes_len
    → bitmap_scan b cnt ≡ (
        if cnt == 1
        then ok (some (first_bit v))
        else ok (scan_run b cnt (total_bits b - first_bit v) (first_bit v + 1) 1))
unfolding bitmap_scan
bitmap_scan_past {b} cnt v h =
    let w = (first_bit-FirstFree v h).within in
    let t : ltb (full_bytes v) b.btmp_bytes_len ≡ true = ground arith in
    let n : (full_bytes v == b.btmp_bytes_len) ≡ false = ground arith in
    let a : u32 (first_bit v) ≡ first_bit v = omega (arith, v.small) in
    let c : u32 (b.btmp_bytes_len * 8 + 2 ^ 32 - first_bit v) ≡ total_bits b - first_bit v =
      omega (arith, v.small) in
    let d : u32 (first_bit v + 1) ≡ first_bit v + 1 = omega (arith, v.small) in rw (t, n, a, c, d)

not_all_used :
    {b : Bitmap} (k : ℕ) (v : IsValid b)
    → k < total_bits b
    → bitmap_scan_test b k ≡ false
    → full_bytes v < b.btmp_bytes_len
not_all_used {b} k v lt free = elim (dec_lt (full_bytes v) b.btmp_bytes_len) [
  | yes h ↦ h
  | no ge ↦ cc (all_used v (omega (arith, skip_full_lem b.bits b.btmp_bytes_len 0)) k lt, free)
]

-- When every bit is set, `bitmap_scan` stops in its ASSERT, and never returns the -1 behind it.
pub bitmap_scan_full : {b : Bitmap} (cnt : ℕ) → IsValid b → AllUsed b → bitmap_scan b cnt ≡ panic
unfolding bitmap_scan
bitmap_scan_full {b} cnt v used = elim (Bool-cases (ltb (full_bytes v) b.btmp_bytes_len)) [
  | inl lt ↦ let f = first_bit-FirstFree v (ground arith) in cc (used _ f.within, f.free)
  | inr ge ↦ rw ge
]

-- While a bit is clear, `bitmap_scan` for one bit returns the lowest clear bit.
pub bitmap_scan_one :
    {b : Bitmap} (k : ℕ)
    → IsValid b
    → k < total_bits b
    → bitmap_scan_test b k ≡ false
    → (s : ℕ) × (bitmap_scan b 1 ≡ ok (some s)) × FirstFree b s
bitmap_scan_one k v lt free =
    let h = not_all_used k v lt free in
    (first_bit v, bitmap_scan_past 1 v h, first_bit-FirstFree v h)

-- The loop of `bitmap_scan` starts with the first clear bit counted.
Scanning-first :
    {b : Bitmap} {s : ℕ} (cnt : ℕ) → 1 < cnt → FirstFree b s → Scanning b 0 cnt (s + 1) 1
Scanning-first {s} cnt two f = record {
  short = two;
  fits = omega arith;
  clear = λ j p q. let e : j ≡ s = omega arith in rw e f.free;
  before = λ t p q run. cc (f.least t (omega arith), run t (omega arith) (omega arith));
}

-- While a bit is clear, `bitmap_scan` in a bitmap in order for 2 bits or more, fewer than 2 ^ 31, returns
-- the first clear run of that length, or -1 if there is none. It takes the bit behind the bitmap for one of its bits.
pub bitmap_scan_many :
    {b : Bitmap} (cnt k : ℕ)
    → IsValid b
    → 1 < cnt
    → cnt < 2 ^ 31
    → k < total_bits b
    → bitmap_scan_test b k ≡ false
    → (r : Option ℕ) × (bitmap_scan b cnt ≡ ok r) × Found b 0 (total_bits b + 1) cnt r
bitmap_scan_many {b} cnt k v two small lt free =
    let h = not_all_used k v lt free in
    let f = first_bit-FirstFree v h in
    let ne : (cnt == 1) ≡ false = ground arith in
    let e : first_bit v + 1 + (total_bits b - first_bit v) ≡ total_bits b + 1 =
      omega (arith, f.within) in
    (
      scan_run b cnt (total_bits b - first_bit v) (first_bit v + 1) 1,
      bitmap_scan_past cnt v h ∙ rw ne,
      rw (← e) (
          scan_run_lem b 0 cnt (total_bits b - first_bit v) (first_bit v + 1) 1 small
            (omega (arith, v.small)) (Scanning-first cnt two f)),
    )

-- What `Found` describes is unique.
Found-eq :
    (b : Bitmap) (hi cnt s : ℕ) (r : Option ℕ)
    → Found b 0 hi cnt (some s)
    → Found b 0 hi cnt r
    → r ≡ some s
Found-eq b hi cnt s none (_, le, run, _) found = absurd (found s (omega arith) le run)
Found-eq b hi cnt s (some t) (_, _, run, first) (_, _, run', first') = elim (dec_lt t s) [
  | yes lt ↦ absurd (first t (omega arith) lt run')
  | no ge ↦ elim (dec_lt s t) [
    | yes lt ↦ absurd (first' s (omega arith) lt run)
    | no le ↦ ap some (omega arith)
  ]
]

-- `bitmap_scan` for two bits returns a run that leaves the bitmap, whenever its last bit is the
-- only clear one and the bit of memory behind it is clear too.
pub bitmap_scan_overrun :
    {b : Bitmap} (last : ℕ)
    → IsValid b
    → last + 1 ≡ total_bits b
    → FirstFree b last
    → bitmap_scan_test b (last + 1) ≡ false
    → bitmap_scan b 2 ≡ ok (some last)
bitmap_scan_overrun {b} last v e f beyond =
    let (r, eq, found) = bitmap_scan_many 2 last v (omega arith) (omega arith) f.within f.free in
    let here : Found b 0 (total_bits b + 1) 2 (some last) = (
      omega arith,
      omega arith,
      λ j p q. elim (dec_lt j (last + 1)) [
        | yes lt ↦ let e : j ≡ last = omega arith in rw e f.free
        | no ge ↦ let e : j ≡ last + 1 = omega arith in rw e beyond
      ],
      λ t p q run. cc (f.least t q, run t (omega arith) (omega arith)),
    ) in
    eq ∙ ap ok (Found-eq b _ 2 last r here found)
