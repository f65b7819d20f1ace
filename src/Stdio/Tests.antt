-- ===== src/Stdio/Tests.antt =====
-- Formats printed, and the theorem at a number.
use os_zhenxiang.Prelude.{false, ℕ, ◌≡◌, refl, true, false, List, [], ◌∷◌, some, arith, inl}
use os_zhenxiang.Stdio.{word, itoa, print_int, convert, vsprintf}
use os_zhenxiang.Stdio.Numbers.{value_of, leads_zero, AllDigits, is_empty, value_of-itoa}

value_of-itoa_example :
    (cs : List ℕ) × (itoa 32 1998 10 ≡ some cs)
    × AllDigits 10 cs
    × (is_empty cs ≡ false)
    × (value_of 10 cs 0 ≡ 1998)
    × (leads_zero cs ≡ true → ◌≡◌ {A = ℕ} 1998 0)
value_of-itoa_example = value_of-itoa 32 1998 10 (inl refl) (omega arith) (omega arith)

-- "%d%c" of -7 and 'x', and "%%z", which prints the `z` alone
formats :
    (vsprintf false (b'%' ∷ b'd' ∷ b'%' ∷ b'c' ∷ []) (word 4294967289 ∷ word b'x' ∷ [])
      ≡ some (b'-' ∷ b'7' ∷ b'x' ∷ []))
    × (vsprintf false (b'%' ∷ b'%' ∷ b'z' ∷ []) [] ≡ some (b'z' ∷ []))
unfolding vsprintf convert print_int itoa
formats = (refl, refl)
