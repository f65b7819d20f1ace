-- ===== src/Bitmap/Count.antt =====
-- How many bits of a bitmap are clear.
use os_zhenxiang.Prelude.{
  ℕ, zero, suc, ◌+◌, ◌<◌, ◌≤◌, ◌≡◌, refl, true, false, arith, ◌==◌, if◌then◌else◌, Bool-cases, inl,
  inr, ℕ_discrete,
}
use os_zhenxiang.Bitmap.{Bitmap, bitmap_scan_test}

-- the clear bits below a bound
unfoldable pub clear_bits : Bitmap → (bound : ℕ) → ℕ
clear_bits b zero = 0
clear_bits b (suc n) = clear_bits b n + (if bitmap_scan_test b n then 0 else 1)

pub some_clear :
    (b : Bitmap) (bound : ℕ)
    → 0 < clear_bits b bound
    → (k : ℕ) × (k < bound) × (bitmap_scan_test b k ≡ false)
unfolding clear_bits
some_clear b zero h = elim h [ ]
some_clear b (suc n) h = elim (Bool-cases (bitmap_scan_test b n)) [
  | inl used ↦ let (k, lt, free) = some_clear b n (ground (arith, used)) in (k, omega arith, free)
  | inr free ↦ (n, omega arith, free)
]

-- `s` is set and the other bits are as before.
abbrev pub Sets : (s : ℕ) → (b b' : Bitmap) → Type 0
Sets s b b' = (j : ℕ) → bitmap_scan_test b' j ≡ (if s == j then true else bitmap_scan_test b j)

clear_bits-below :
    (b b' : Bitmap) (s bound : ℕ)
    → Sets s b b'
    → bound ≤ s
    → clear_bits b' bound ≡ clear_bits b bound
unfolding clear_bits
clear_bits-below b b' s zero sets h = refl
clear_bits-below b b' s (suc n) sets h = ground (arith, sets n, clear_bits-below b b' s n sets)

pub clear_bits-set :
    (b b' : Bitmap) (s bound : ℕ)
    → Sets s b b'
    → bitmap_scan_test b s ≡ false
    → s < bound
    → clear_bits b' bound + 1 ≡ clear_bits b bound
unfolding clear_bits
clear_bits-set b b' s zero sets free h = elim h [ ]
clear_bits-set b b' s (suc n) sets free h = elim (ℕ_discrete s n) [
  | yes e ↦
      let set : bitmap_scan_test b' n ≡ true = ground (arith, sets n, e) in
      let clear : bitmap_scan_test b n ≡ false = rw (← e) free in
      rw (set, clear) (ground (arith, clear_bits-below b b' s n sets))
  | no ne ↦
      let same : bitmap_scan_test b' n ≡ bitmap_scan_test b n = ground (arith, sets n, ne) in
      rw same (ground (arith, clear_bits-set b b' s n sets free))
]
