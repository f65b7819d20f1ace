-- ===== src/Bitmap/Scan.antt =====
-- The loops of `bitmap_scan` (lib/kernel/bitmap.c).
use os_zhenxiang.Prelude.{
  ℕ, zero, suc, ◌+◌, ◌-◌, ◌^◌, ◌≤◌, ◌<◌, ◌≡◌, ◌≢◌, inl, inr, true, false, Option, none, some, arith,
  ◌==◌, u32, test_bit, Bool-cases, dec_lt,
}
use os_zhenxiang.Bitmap.{Bitmap, bitmap_scan_test, skip_full, first_zero, scan_run}

-- `cnt` bits from `s` on are clear.
abbrev pub FreeRun : Bitmap → ℕ → ℕ → Type 0
FreeRun b s cnt = (j : ℕ) → s ≤ j → j < s + cnt → bitmap_scan_test b j ≡ false

-- What a scan between `lo` and `hi` has to return: the first clear run, or `none` if there is none.
abbrev pub Found : Bitmap → (lo hi cnt : ℕ) → Option ℕ → Type 0
Found b lo hi cnt none = (t : ℕ) → lo ≤ t → t + cnt ≤ hi → ¬ FreeRun b t cnt
Found b lo hi cnt (some s) =
    (lo ≤ s) × (s + cnt ≤ hi) × FreeRun b s cnt × ((t : ℕ) → lo ≤ t → t < s → ¬ FreeRun b t cnt)

-- The first byte that is not 0xff, or the end.
pub skip_full_lem :
    (m : ℕ → ℕ) (left i : ℕ)
    → (i ≤ skip_full m left i)
      × (skip_full m left i ≤ i + left)
      × ((k : ℕ) → i ≤ k → k < skip_full m left i → m k ≡ 255)
      × (skip_full m left i < i + left → m (skip_full m left i) ≢ 255)
unfolding skip_full
skip_full_lem m zero i =
    (omega arith, omega arith, λ k a b. absurd (omega arith), λ a. absurd (omega arith))
skip_full_lem m (suc left) i = elim (Bool-cases (m i == 255)) [
  | inl full ↦ rw full (
      let (a, b, c, d) = skip_full_lem m left (i + 1) in
      (omega arith, omega arith, λ k p q. ground (arith, c k), λ p. ground (arith, d)))
  | inr free ↦ rw free (omega arith, omega arith, λ k p q. absurd (omega arith), λ p. ground arith)
]

-- The first clear bit of a byte.
pub first_zero_lem :
    (x left i : ℕ)
    → (i ≤ first_zero x left i)
      × (first_zero x left i ≤ i + left)
      × ((k : ℕ) → i ≤ k → k < first_zero x left i → test_bit x k ≡ true)
      × (first_zero x left i < i + left → test_bit x (first_zero x left i) ≡ false)
unfolding first_zero
first_zero_lem x zero i =
    (omega arith, omega arith, λ k a b. absurd (omega arith), λ a. absurd (omega arith))
first_zero_lem x (suc left) i = elim (Bool-cases (test_bit x i)) [
  | inl used ↦ rw used (
      let (a, b, c, d) = first_zero_lem x left (i + 1) in
      (omega arith, omega arith, λ k p q. ground (arith, c k), λ p. ground (arith, d)))
  | inr free ↦ rw free (omega arith, omega arith, λ k p q. absurd (omega arith), λ p. free)
]

-- The state of the second loop: the `count` bits before `next` are clear, and no run has started
-- before them.
pub record Scanning (b : Bitmap) (lo cnt next count : ℕ) : Type 0 where
  pub short : count < cnt
  pub fits : lo + count ≤ next
  pub clear : FreeRun b (next - count) count
  pub before : (t : ℕ) → lo ≤ t → t + count < next → ¬ FreeRun b t cnt

module _ {b : Bitmap} {lo cnt next count : ℕ} (s : Scanning b lo cnt next count) where
  Scanning-used : bitmap_scan_test b next ≡ true → Scanning b lo cnt (next + 1) 0
  Scanning-used used = record {
    short = omega (arith, s.short);
    fits = omega (arith, s.fits);
    clear = λ j p q. absurd (omega arith);
    before = λ t h k free. elim (dec_lt (t + count) next) [
      | yes p ↦ s.before t h p free
      | no p ↦ cc (free next (omega arith) (omega (arith, s.short)))
    ];
  }

  FreeRun-longer : bitmap_scan_test b next ≡ false → FreeRun b (next - count) (count + 1)
  FreeRun-longer free j p q = elim (dec_lt j next) [
    | yes lt ↦ s.clear j p (omega (arith, s.fits))
    | no ge ↦ let e : j ≡ next = omega (arith, s.fits) in rw e free
  ]

  Scanning-free :
      bitmap_scan_test b next ≡ false → count + 1 < cnt → Scanning b lo cnt (next + 1) (count + 1)
  Scanning-free free h = record {
    short = h;
    fits = omega (arith, s.fits);
    clear =
        let e : next + 1 - (count + 1) ≡ next - count = omega (arith, s.fits) in
        rw e (FreeRun-longer free);
    before = λ t h k. s.before t h (omega arith);
  }

  Found-free :
      (hi : ℕ)
      → bitmap_scan_test b next ≡ false
      → count + 1 ≡ cnt
      → next < hi
      → Found b lo hi cnt (some (next - count))
  Found-free hi free e h = (
    omega (arith, s.fits),
    omega (arith, s.fits),
    rw (← e) (FreeRun-longer free),
    λ t p q. s.before t p (omega (arith, s.fits)),
  )

-- The loop returns the first clear run that ends by bit `next + left`.
pub scan_run_lem :
    (b : Bitmap) (lo cnt left next count : ℕ)
    → cnt < 2 ^ 31
    → next + left < 2 ^ 31
    → Scanning b lo cnt next count
    → Found b lo (next + left) cnt (scan_run b cnt left next count)
unfolding scan_run
scan_run_lem b lo cnt zero next count small room s = λ t h k free. elim (dec_lt (t + count) next) [
  | yes p ↦ s.before t h p free
  | no p ↦ absurd (omega (arith, s.short))
]
scan_run_lem b lo cnt (suc left) next count small room s =
    let n : u32 (next + 1) ≡ next + 1 = omega arith in
    let c : u32 (count + 1) ≡ count + 1 = omega (arith, s.short) in
    let e : next + 1 + left ≡ next + suc left = omega arith in
    elim (Bool-cases (bitmap_scan_test b next)) [
      | inl used ↦
          let z : (0 == cnt) ≡ false = ground (arith, s.short) in
          rw (used, z, n, ← e)
            (scan_run_lem b lo cnt left (next + 1) 0 small (omega arith) (Scanning-used s used))
      | inr free ↦ elim (Bool-cases (count + 1 == cnt)) [
        | inl hit ↦
            let f : u32 (next + 2 ^ 32 - cnt + 1) ≡ next - count = ground (arith, s.fits) in
            rw (free, c, hit, f) (Found-free s (next + suc left) free (ground arith) (omega arith))
        | inr miss ↦
            rw (free, c, miss, n, ← e)
              (scan_run_lem b lo cnt left (next + 1) (count + 1) small (omega arith)
                (Scanning-free s free (ground (arith, s.short))))
      ]
    ]
