-- ===== src/Stdio/Numbers.antt =====
-- The number that `itoa` of lib/stdio.c writes.
use os_zhenxiang.Prelude.{
  false, ℕ, zero, suc, ◌+◌, ◌-◌, ◌*◌, ◌/◌, ◌%◌, ◌^◌, ◌<◌, ◌≤◌, ◌≡◌, refl, ◌∙◌, Bool, true, some,
  List, [], ◌∷◌, ◌++◌, ltb, ◌==◌, if◌then◌else◌, arith, Bool-cases, inl, inr, ◌⊎◌,
}
use os_zhenxiang.Stdio.{digit_char, itoa}

abbrev pub digit_value : ℕ → ℕ
digit_value c = if ltb c b'A' then c - b'0' else c - b'A' + 10

-- the bases in use
abbrev pub IsBase : ℕ → Type 0
IsBase base = (base ≡ 10) ⊎ (base ≡ 16)

-- `0` to `9`, and `A` on for the digits from ten
abbrev pub IsDigit : (base c : ℕ) → Type 0
IsDigit base c = ((b'0' ≤ c) × (c ≤ b'9')) ⊎ ((b'A' ≤ c) × (c < b'A' + base - 10))

pub AllDigits : (base : ℕ) → List ℕ → Type 0
AllDigits base [] = Unit
AllDigits base (c ∷ cs) = IsDigit base c × AllDigits base cs

abbrev pub is_empty : List ℕ → Bool
is_empty [] = true
is_empty (c ∷ cs) = false

digit_char-IsDigit : (base m : ℕ) → IsBase base → m < base → IsDigit base (digit_char m)
digit_char-IsDigit base m b h = elim (Bool-cases (ltb m 10)) [
  | inl low ↦ rw low (inl (omega (arith), ground (arith, low)))
  | inr high ↦ rw high (inr (omega arith, ground (arith, high, h)))
]

AllDigits-snoc :
    (base : ℕ) (cs : List ℕ) (c : ℕ)
    → AllDigits base cs
    → IsDigit base c
    → AllDigits base (cs ++ c ∷ [])
unfolding AllDigits
AllDigits-snoc base [] c all here = (here, tt)
AllDigits-snoc base (d ∷ ds) c all here = (all.0, AllDigits-snoc base ds c all.1 here)

snoc_full : (cs : List ℕ) (c : ℕ) → is_empty (cs ++ c ∷ []) ≡ false
snoc_full [] c = refl
snoc_full (d ∷ ds) c = refl

-- the number that a row of digits is, behind one that is read already
pub value_of : (base : ℕ) → List ℕ → (before : ℕ) → ℕ
value_of base [] before = before
value_of base (c ∷ cs) before = value_of base cs (before * base + digit_value c)

value_of-append :
    (base : ℕ) (cs ds : List ℕ) (n : ℕ)
    → value_of base (cs ++ ds) n ≡ value_of base ds (value_of base cs n)
unfolding value_of
value_of-append base [] ds n = refl
value_of-append base (c ∷ cs) ds n = value_of-append base cs ds (n * base + digit_value c)

digit_value-digit_char : (m : ℕ) → m < 16 → digit_value (digit_char m) ≡ m
digit_value-digit_char m h = ground arith

-- whether the first digit is 0
abbrev pub leads_zero : List ℕ → Bool
leads_zero [] = true
leads_zero (c ∷ cs) = c == b'0'

divided :
    (value base : ℕ)
    → IsBase base
    → (value / base * base + value % base ≡ value)
      × (value % base < 16)
      × (value % base < base)
      × (value / base + value / base ≤ value)
      × (value / base ≡ 0 → value % base ≡ value)
divided value base (inl e) =
    rw e (omega arith, omega arith, omega arith, omega arith, λ z. omega arith)
divided value base (inr e) =
    rw e (omega arith, omega arith, omega arith, omega arith, λ z. omega arith)

doubled : (fuel : ℕ) → 2 ^ suc fuel ≡ 2 ^ fuel + 2 ^ fuel
doubled fuel = omega arith

leads_zero-append : (cs ds : List ℕ) → leads_zero (cs ++ ds) ≡ true → leads_zero cs ≡ true
leads_zero-append [] ds z = refl
leads_zero-append (c ∷ cs) ds z = z

positive_power : (fuel q : ℕ) → 0 < q → q < 2 ^ fuel → 0 < fuel
positive_power zero q positive h = absurd (omega arith)
positive_power (suc fuel) q positive h = omega arith

-- `itoa` in base 10 or 16 returns, with fuel for as many bits as the number has, at least 1: it
-- writes at least one character, and only digits of the base, 0 to 9 and in base 16 also A to F. The
-- number they stand for is the number given, and the first is 0 only for the number 0.
pub value_of-itoa :
    (fuel value base : ℕ)
    → IsBase base
    → value < 2 ^ fuel
    → 0 < fuel
    → (cs : List ℕ) × (itoa fuel value base ≡ some cs)
      × AllDigits base cs
      × (is_empty cs ≡ false)
      × (value_of base cs 0 ≡ value)
      × (leads_zero cs ≡ true → value ≡ 0)
unfolding itoa value_of AllDigits
value_of-itoa zero value base b h positive = absurd (omega arith)
value_of-itoa (suc fuel) value base b h positive =
    let (whole, small, below, half, single) = divided value base b in
    let digit = digit_value-digit_char (value % base) small in
    let is_digit = digit_char-IsDigit base (value % base) b below in
    elim (Bool-cases (value / base == 0)) [
      | inl one ↦
          let m : value % base ≡ value = single (ground arith) in
          (
            digit_char (value % base) ∷ [],
            rw one refl,
            (is_digit, tt),
            refl,
            rw digit (ground arith),
            λ z. ground (arith, z, m, small),
          )
      | inr more ↦
          let q : 0 < value / base = ground arith in
          let h' : value / base < 2 ^ fuel = omega (arith, doubled fuel) in
          let (cs, e, all, _, n, lead) =
            value_of-itoa fuel (value / base) base b h' (positive_power fuel (value / base) q h') in
          (
            cs ++ digit_char (value % base) ∷ [],
            rw (more, e) refl,
            AllDigits-snoc base cs (digit_char (value % base)) all is_digit,
            snoc_full cs (digit_char (value % base)),
            value_of-append base cs (digit_char (value % base) ∷ []) 0 ∙ rw (n, digit) whole,
            λ z. absurd (omega (arith, lead (leads_zero-append cs _ z))),
          )
    ]
