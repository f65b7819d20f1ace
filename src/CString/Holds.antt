-- ===== src/CString/Holds.antt =====
-- The string at an address, and the functions of lib/string.c that look into one.
use os_zhenxiang.Prelude.{
  ℕ, zero, suc, ◌+◌, ◌-◌, ◌<◌, ◌^◌, ◌≡◌, ◌≢◌, refl, ◌∙◌, ap, Option, none, some, List, [], ◌∷◌,
  length, ◌==◌, if◌then◌else◌, arith,
}
use os_zhenxiang.CString.{
  Bytes, char_is, skip_string, strlen, strchr, last_from, strrchr, count_from, strchrs,
}

-- The characters `cs`, none of them 0, and a 0 behind them
abbrev pub Holds : Bytes → ℕ → List ℕ → Type 0
Holds m p [] = m p ≡ 0
Holds m p (c ∷ cs) = (m p ≡ c) × (c ≢ 0) × Holds m (p + 1) cs

pub skip_string_lem :
    (fuel p : ℕ) (cs : List ℕ) (m : Bytes)
    → Holds m p cs
    → length cs < fuel
    → skip_string fuel p m ≡ some (p + length cs + 1)
unfolding skip_string
skip_string_lem zero p cs m holds enough = absurd (omega arith)
skip_string_lem (suc fuel) p [] m holds enough = ground (arith, holds)
skip_string_lem (suc fuel) p (c ∷ cs) m (at, ne, holds) enough =
    ground (arith, at, skip_string_lem fuel (p + 1) cs m holds (omega arith))

-- `strlen` returns the number of characters before the 0.
pub strlen_lem :
    (fuel p : ℕ) (cs : List ℕ) (m : Bytes)
    → Holds m p cs
    → length cs < fuel
    → strlen fuel p m ≡ some (length cs)
unfolding strlen
strlen_lem fuel p cs m holds enough =
    let n : p + length cs + 1 - p - 1 ≡ length cs = omega arith in
    rw (skip_string_lem fuel p cs m holds enough, n) refl

-- the place of the first `ch`, counted from `p`
unfoldable pub first_of : (ch p : ℕ) → List ℕ → Option ℕ
first_of ch p [] = none
first_of ch p (c ∷ cs) = let rest = first_of ch (p + 1) cs in if c == ch then some p else rest

-- the place of the last one, or `last` if there is none
unfoldable pub last_of : (ch p : ℕ) → (last : Option ℕ) → List ℕ → Option ℕ
last_of ch p last [] = last
last_of ch p last (c ∷ cs) = last_of ch (p + 1) (if c == ch then some p else last) cs

unfoldable pub occurrences : ℕ → List ℕ → ℕ
occurrences ch [] = 0
occurrences ch (c ∷ cs) = (if c == ch then 1 else 0) + occurrences ch cs

pub strchr_lem :
    (fuel p ch : ℕ) (cs : List ℕ) (m : Bytes)
    → ch < 128
    → Holds m p cs
    → length cs < fuel
    → strchr fuel p ch m ≡ some (first_of ch p cs)
unfolding strchr first_of
strchr_lem zero p ch cs m low holds enough = absurd (omega arith)
strchr_lem (suc fuel) p ch [] m low holds enough = ground (arith, holds)
strchr_lem (suc fuel) p ch (c ∷ cs) m low (at, ne, holds) enough =
    ground (arith, at, strchr_lem fuel (p + 1) ch cs m low holds (omega arith))

last_from_lem :
    (fuel p ch : ℕ) (last : Option ℕ) (cs : List ℕ) (m : Bytes)
    → ch < 128
    → Holds m p cs
    → length cs < fuel
    → last_from fuel p ch last m ≡ some (last_of ch p last cs)
unfolding last_from last_of
last_from_lem zero p ch last cs m low holds enough = absurd (omega arith)
last_from_lem (suc fuel) p ch last [] m low holds enough = ground (arith, holds)
last_from_lem (suc fuel) p ch last (c ∷ cs) m low (at, ne, holds) enough = ground (
  arith,
  at,
  last_from_lem fuel (p + 1) ch (if char_is (m p) ch then some p else last) cs m low holds
      (omega arith),
)

count_from_lem :
    (fuel p ch n : ℕ) (cs : List ℕ) (m : Bytes)
    → ch < 128
    → Holds m p cs
    → length cs < fuel
    → n + length cs < 2 ^ 32
    → count_from fuel p ch n m ≡ some (n + occurrences ch cs)
unfolding count_from occurrences
count_from_lem zero p ch n cs m low holds enough small = absurd (omega arith)
count_from_lem (suc fuel) p ch n [] m low holds enough small = ground (arith, holds)
count_from_lem (suc fuel) p ch n (c ∷ cs) m low (at, ne, holds) enough small = ground (
  arith,
  at,
  count_from_lem fuel (p + 1) ch n cs m low holds (omega arith) (omega arith),
  count_from_lem fuel (p + 1) ch (n + 1) cs m low holds (omega arith) (omega arith),
)

-- On a string of fewer than 2 ^ 32 characters, with fuel for each and for the 0, and for a character
-- below 128: `strchr` returns its first place, `strrchr` its last, and `strchrs` how often it stands
-- there.
pub searches :
    (fuel p ch : ℕ) (cs : List ℕ) (m : Bytes)
    → ch < 128
    → Holds m p cs
    → length cs < fuel
    → length cs < 2 ^ 32
    → (strchr fuel p ch m ≡ some (first_of ch p cs))
      × (strrchr fuel p ch m ≡ some (last_of ch p none cs))
      × (strchrs fuel p ch m ≡ some (occurrences ch cs))
unfolding strrchr strchrs
searches fuel p ch cs m low holds enough small = (
  strchr_lem fuel p ch cs m low holds enough,
  last_from_lem fuel p ch none cs m low holds enough,
  count_from_lem fuel p ch 0 cs m low holds enough (omega arith) ∙ ap some (omega arith),
)
