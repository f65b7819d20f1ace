-- ===== src/Prelude/Bits.antt =====
-- Single bits of a byte, by the operations that the code uses, and their laws from tables.
use Prim.Native.Nat.{ℕ, zero, suc, ◌-◌, ◌%◌, ◌^◌, ◌<◌, bit_and, bit_or}
use mathlib.Core.Path.{◌≡◌, refl}
use mathlib.Core.Bool.{Bool, true, false, ◌&&◌, not}
use native.Mathlib.Omega.{arith}
use os_zhenxiang.Prelude.Tests.{ltb, ltb→lt, ◌==◌, if◌then◌else◌}

-- uint32_t
abbrev pub u32 : ℕ → ℕ
u32 n = n % 2 ^ 32

-- `~m` for a uint32_t
abbrev pub not32 : ℕ → ℕ
not32 m = 2 ^ 32 - 1 - m

-- `x & (1 << k)` as a condition
unfoldable pub test_bit : ℕ → ℕ → Bool
test_bit x k = not (bit_and x (2 ^ k) == 0)

abbrev pub bool_eq : Bool → Bool → Bool
bool_eq true b = b
bool_eq false b = not b

-- whether every number below the bound passes a test
unfoldable pub every : (bound : ℕ) → (ℕ → Bool) → Bool
every zero test = true
every (suc bound) test = if test bound then every bound test else false

pub every_sound :
    (test : ℕ → Bool) (bound k : ℕ) → k < bound → every bound test ≡ true → test k ≡ true
unfolding every
every_sound test zero k below checked = absurd (omega arith)
every_sound test (suc bound) k below checked = ground (arith, every_sound test bound k)

bool_eq_sound : (a b : Bool) → bool_eq a b ≡ true → a ≡ b
bool_eq_sound true true h = refl
bool_eq_sound true false h = cc
bool_eq_sound false true h = cc
bool_eq_sound false false h = refl

-- a fact about a byte and two bit numbers
table : (ℕ → ℕ → ℕ → Bool) → Bool
table f = every 256 λ x. every 8 λ k. every 8 λ j. f x k j

table_sound :
    (f : ℕ → ℕ → ℕ → Bool) → table f ≡ true → (x k j : ℕ) → x < 256 → k < 8 → j < 8 → f x k j ≡ true
unfolding table
table_sound f h x k j hx hk hj =
    every_sound (λ j. f x k j) 8 j hj
      (every_sound (λ k. every 8 λ j. f x k j) 8 k hk
        (every_sound (λ x. every 8 λ k. every 8 λ j. f x k j) 256 x hx h))

or_table :
    table (λ x k j. bool_eq (test_bit (bit_or x (2 ^ k)) j) (if k == j then true else test_bit x j))
    ≡ true
unfolding table every test_bit
or_table = refl

and_table :
    table (λ x k j.
      bool_eq (test_bit (bit_and x (not32 (2 ^ k))) j) (if k == j then false else test_bit x j))
    ≡ true
unfolding table every test_bit
and_table = refl

byte_table :
    table (λ x k _. ltb (bit_or x (2 ^ k)) 256 && ltb (bit_and x (not32 (2 ^ k))) 256) ≡ true
unfolding table every
byte_table = refl

module _ (x k : ℕ) (hx : x < 256) (hk : k < 8) where
  pub test_bit-bit_or :
      (j : ℕ) → j < 8 → test_bit (bit_or x (2 ^ k)) j ≡ (if k == j then true else test_bit x j)
  test_bit-bit_or j hj = bool_eq_sound _ _ (table_sound _ or_table x k j hx hk hj)

  pub test_bit-bit_and :
      (j : ℕ)
      → j < 8
      → test_bit (bit_and x (not32 (2 ^ k))) j ≡ (if k == j then false else test_bit x j)
  test_bit-bit_and j hj = bool_eq_sound _ _ (table_sound _ and_table x k j hx hk hj)

  pub bit_or-lt : bit_or x (2 ^ k) < 256
  bit_or-lt = ltb→lt _ _ (ground (arith, table_sound _ byte_table x k 0 hx hk (omega arith)))

  pub bit_and-lt : bit_and x (not32 (2 ^ k)) < 256
  bit_and-lt = ltb→lt _ _ (ground (arith, table_sound _ byte_table x k 0 hx hk (omega arith)))

zero_table : every 8 (λ k. not (test_bit 0 k)) ≡ true
unfolding every test_bit
zero_table = refl

pub test_bit-zero : (k : ℕ) → k < 8 → test_bit 0 k ≡ false
test_bit-zero k h = ground (arith, every_sound (λ k. not (test_bit 0 k)) 8 k h zero_table)

full_table : every 8 (λ k. test_bit 255 k) ≡ true
unfolding every test_bit
full_table = refl

pub test_bit_full : (k : ℕ) → k < 8 → test_bit 255 k ≡ true
test_bit_full k h = every_sound (λ k. test_bit 255 k) 8 k h full_table

-- A byte other than 0xff has a clear bit.
clear_table : every 256 (λ x. bool_eq (not (every 8 λ k. test_bit x k)) (not (x == 255))) ≡ true
unfolding every test_bit
clear_table = refl

every_intro : (n : ℕ) (p : ℕ → Bool) → ((k : ℕ) → k < n → p k ≡ true) → every n p ≡ true
unfolding every
every_intro zero p h = refl
every_intro (suc n) p h =
    ground (arith, h n (omega arith), every_intro n p λ k lt. h k (omega arith))

-- A byte with its eight bits set is 0xff.
pub eq_full : (x : ℕ) → x < 256 → ((k : ℕ) → k < 8 → test_bit x k ≡ true) → x ≡ 255
eq_full x hx h = ground (
  arith,
  every_intro 8 (λ k. test_bit x k) h,
  every_sound (λ x. bool_eq (not (every 8 λ k. test_bit x k)) (not (x == 255))) 256 x hx
      clear_table,
)
