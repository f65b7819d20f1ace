-- ===== src/Prelude/Members.antt =====
-- Membership in a list of numbers as a test, lists without repetition, and update of a function.
use Prim.Native.Nat.{ℕ}
use mathlib.Core.Path.{◌≡◌, refl}
use mathlib.Core.Bool.{Bool, false, ◌||◌}
use mathlib.Core.List.{List, [], ◌∷◌, ◌++◌}
use native.Mathlib.Omega.{arith}
use os_zhenxiang.Prelude.Tests.{◌==◌, if◌then◌else◌}

-- whether `t` stands in a list
unfoldable pub has : (t : ℕ) → List ℕ → Bool
has t [] = false
has t (y ∷ ts) = (y == t) || has t ts

-- No number stands twice in the list.
abbrev pub Distinct : List ℕ → Type 0
Distinct [] = Unit
Distinct (y ∷ ts) = (has y ts ≡ false) × Distinct ts

module _ {ℓ} {V : Type ℓ} (f : ℕ → V) where
  -- the function `f` changed at `key`
  abbrev pub update : (key : ℕ) (v : V) (at : ℕ) → V
  update key v at = if at == key then v else f at

pub has-append : (t : ℕ) (ts us : List ℕ) → has t (ts ++ us) ≡ (has t ts || has t us)
unfolding has
has-append t [] us = refl
has-append t (y ∷ ts) us = ground (arith, has-append t ts us)

pub Distinct-snoc : (t : ℕ) (ts : List ℕ) → Distinct ts → has t ts ≡ false → Distinct (ts ++ t ∷ [])
unfolding has
Distinct-snoc t [] d out = (refl, tt)
Distinct-snoc t (y ∷ ts) d out =
    (ground (arith, has-append y ts (t ∷ []), d.0), Distinct-snoc t ts d.1 (ground arith))
