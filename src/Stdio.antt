-- ===== src/Stdio.antt =====
-- lib/stdio.c: numbers and formats as characters. What is written to a buffer is a list here; `str`
-- is the string behind a pointer that `va_arg` returns.
pub mod Numbers
mod Tests
use os_zhenxiang.Prelude.{
  ℕ, zero, suc, ◌+◌, ◌-◌, ◌/◌, ◌%◌, ◌^◌, Bool, true, false, ◌||◌, ◌&&◌, Option, none, some, List,
  [], ◌∷◌, ◌++◌, ltb, leb, ◌==◌, if◌then◌else◌,
}

abbrev pub digit_char : ℕ → ℕ
digit_char m = if ltb m 10 then m + b'0' else m - 10 + b'A'

-- what is written first, and then the rest
abbrev pub then_write : Option (List ℕ) → Option (List ℕ) → Option (List ℕ)
then_write (some bs) (some cs) = some (bs ++ cs)
then_write _ _ = none

-- `itoa` on fuel for the recursion: what it writes, or `none`
pub itoa : (fuel value base : ℕ) → Option (List ℕ)
itoa zero value base = none
itoa (suc fuel) value base =
    let last = some (digit_char (value % base) ∷ []) in
    let before = itoa fuel (value / base) base in
    if value / base == 0 then last else then_write before last

pub data Arg : Type 0 where
  word : ℕ → Arg
  str : List ℕ → Arg

-- `case 'd'`: a negative number is printed as `-` and its opposite.
pub print_int : ℕ → Option (List ℕ)
print_int arg_int =
    if ltb arg_int (2 ^ 31)
    then itoa 32 arg_int 10
    else then_write (some (b'-' ∷ [])) (itoa 32 (2 ^ 32 - arg_int) 10)

-- One conversion of `vsprintf`; `none` if the argument is not of its kind, or there is none.
pub convert : (index_char : ℕ) → List Arg → Option (List ℕ × List Arg)
convert index_char [] = none
convert index_char (str arg_str ∷ ap) = if index_char == b's' then some (arg_str, ap) else none
convert index_char (word arg ∷ ap) =
    if index_char == b'c'
    then some (arg % 256 ∷ [], ap)
    else if index_char == b'd'
    then with_rest (print_int arg)
    else if index_char == b'x'
    then with_rest (itoa 32 arg 16)
    else none
  where
    with_rest : Option (List ℕ) → Option (List ℕ × List Arg)
    with_rest none = none
    with_rest (some cs) = some (cs, ap)

abbrev pub is_conversion : ℕ → Bool
is_conversion c = (c == b's') || (c == b'c') || (c == b'd') || (c == b'x')

-- The loop of `vsprintf`: `percent` says that the character before was a `%`. A character behind it
-- that names no conversion is then read as any other, a second `%` as the first.
pub vsprintf : (percent : Bool) (format : List ℕ) → List Arg → Option (List ℕ)
vsprintf percent [] ap = some []
vsprintf percent (index_char ∷ format) ap =
    let plain = vsprintf false format ap in
    let introduced = vsprintf true format ap in
    if percent && is_conversion index_char
    then (elim (convert index_char ap) [
      | none ↦ none
      | some (cs, ap') ↦ then_write (some cs) (vsprintf false format ap')
    ])
    else if index_char == b'%'
    then introduced
    else then_write (some (index_char ∷ [])) plain
