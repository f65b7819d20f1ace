-- ===== src/CString/Tests.antt =====
-- Strings in memory, and the theorems at them.
use os_zhenxiang.Prelude.{ℕ, ◌≡◌, refl, false, List, [], ◌∷◌, some, arith, inl, ◌==◌, if◌then◌else◌}
use os_zhenxiang.CString.{Bytes, strcat}
use os_zhenxiang.CString.Holds.{Holds}
use os_zhenxiang.CString.Copy.{inside, strcat_lem}

-- "/a/" at 100, "a" at 200
abbrev bytes : Bytes
bytes = λ p.
    if p == 100
    then b'/'
    else if p == 101
    then b'a'
    else if p == 102
    then b'/'
    else if p == 200
    then b'a'
    else 0

abbrev slashes : List ℕ
slashes = b'/' ∷ b'a' ∷ b'/' ∷ []

abbrev letter : List ℕ
letter = b'a' ∷ []

path : Holds bytes 100 slashes
path = (refl, λ e. ground arith, (refl, λ e. ground arith, (refl, λ e. ground arith, refl)))

name : Holds bytes 200 letter
name = (refl, λ e. ground arith, refl)

strcat_lem_example :
    (m' : Bytes) × (strcat 9 100 200 bytes ≡ some m')
    × Holds m' 100 (b'/' ∷ b'a' ∷ b'/' ∷ b'a' ∷ [])
    × ((a : ℕ) → inside 100 5 a ≡ false → m' a ≡ bytes a)
strcat_lem_example =
    strcat_lem 9 100 200 slashes letter bytes path name (omega arith) (inl (omega arith))
