-- ===== src/CString/Compare.antt =====
-- The comparisons of lib/string.c.
use os_zhenxiang.Prelude.{
  ℕ, zero, suc, ◌+◌, ◌%◌, ◌<◌, ◌≡◌, ◌≢◌, ◌↔◌, refl, ◌∙◌, ap, ap₂, subst, some, List, [], ◌∷◌,
  length, ◌==◌, if◌then◌else◌, arith, ℕ_discrete, inl, inr, ◌⊎◌,
}
use os_zhenxiang.CString.{Bytes, Sign, minus, null, plus, char_gt, strcmp}
use os_zhenxiang.CString.Holds.{Holds}

-- the order of strings by their first difference, a string before what continues it unless by a
-- negative character
pub order : List ℕ → List ℕ → Sign
order [] [] = null
order [] (d ∷ ds) = if char_gt d 0 then minus else plus
order (c ∷ cs) [] = if char_gt c 0 then plus else minus
order (c ∷ cs) (d ∷ ds) =
    let rest = order cs ds in if c == d then rest else if char_gt c d then plus else minus

-- no character is 0
abbrev pub Plain : List ℕ → Type 0
Plain [] = Unit
Plain (c ∷ cs) = (c ≢ 0) × Plain cs

-- the characters of a string are bytes
abbrev pub AreBytes : List ℕ → Type 0
AreBytes [] = Unit
AreBytes (c ∷ cs) = (c < 256) × AreBytes cs

-- Two bytes that differ differ as signed characters.
signed_apart :
    (c d : ℕ)
    → c < 256
    → d < 256
    → c ≢ d
    → ((c + 128) % 256 < (d + 128) % 256) ⊎ ((d + 128) % 256 < (c + 128) % 256)
signed_apart c d hc hd ne =
    let split : c < d ⊎ d < c = omega arith in
    elim split [ inl lt ↦ omega arith | inr gt ↦ omega arith ]

strcmp-order :
    (fuel a b : ℕ) (cs ds : List ℕ) (m : Bytes)
    → Holds m a cs
    → Holds m b ds
    → AreBytes cs
    → AreBytes ds
    → length cs < fuel
    → strcmp fuel a b m ≡ some (order cs ds)
unfolding strcmp order
strcmp-order zero a b cs ds m left right w x enough = absurd (omega arith)
strcmp-order (suc fuel) a b [] [] m left right w x enough = rw (left, right) refl
strcmp-order (suc fuel) a b [] (d ∷ ds) m left (at, ne, right) w (x, xs) enough =
    rw (left, at) (ground (arith, signed_apart d 0 x (omega arith) ne))
strcmp-order (suc fuel) a b (c ∷ cs) [] m (at, ne, left) right (w, ws) x enough =
    rw (right, at) (ground (arith, signed_apart c 0 w (omega arith) ne))
strcmp-order (suc fuel) a b (c ∷ cs) (d ∷ ds) m (at, ne, left) (at', ne', right) (w, ws) (x, xs)
      enough =
    let rest = strcmp-order fuel (a + 1) (b + 1) cs ds m left right ws xs (omega arith) in
    elim (ℕ_discrete c d) [
      | yes same ↦ rw (at, at') (ground (arith, rest, same))
      | no differ ↦ rw (at, at') (ground (arith, signed_apart c d w x differ))
    ]

order-same : (cs ds : List ℕ) → order cs ds ≡ null → cs ≡ ds
unfolding order
order-same [] [] h = refl
order-same [] (d ∷ ds) h = absurd (ground arith)
order-same (c ∷ cs) [] h = absurd (ground arith)
order-same (c ∷ cs) (d ∷ ds) h = elim (ℕ_discrete c d) [
  | yes e ↦ ap₂ (λ c cs. c ∷ cs) e (order-same cs ds (ground arith))
  | no ne ↦ absurd (ground arith)
]

order_refl : (cs : List ℕ) → order cs cs ≡ null
unfolding order
order_refl [] = refl
order_refl (c ∷ cs) = ground (arith, order_refl cs)

pub opposite : Sign → Sign
opposite minus = plus
opposite null = null
opposite plus = minus

order-opposite :
    (cs ds : List ℕ)
    → AreBytes cs
    → AreBytes ds
    → Plain cs
    → Plain ds
    → order ds cs ≡ opposite (order cs ds)
unfolding order opposite
order-opposite [] [] w x p q = refl
order-opposite [] (d ∷ ds) w (x, xs) p (q, qs) = ground (arith, signed_apart d 0 x (omega arith) q)
order-opposite (c ∷ cs) [] (w, ws) x (p, ps) q = ground (arith, signed_apart c 0 w (omega arith) p)
order-opposite (c ∷ cs) (d ∷ ds) (w, ws) (x, xs) (p, ps) (q, qs) = elim (ℕ_discrete c d) [
  | yes same ↦ ground (arith, order-opposite cs ds ws xs ps qs, same)
  | no differ ↦ ground (arith, signed_apart c d w x differ)
]

Holds-Plain : (m : Bytes) (p : ℕ) (cs : List ℕ) → Holds m p cs → Plain cs
Holds-Plain m p [] holds = tt
Holds-Plain m p (c ∷ cs) (_, ne, holds) = (ne, Holds-Plain m (p + 1) cs holds)

-- `strcmp` of two strings of bytes returns, with fuel for each character and the 0: it returns 0
-- exactly for equal strings, and the opposite when they change places.
pub strcmp_lem :
    (fuel a b : ℕ) (cs ds : List ℕ) (m : Bytes)
    → Holds m a cs
    → Holds m b ds
    → AreBytes cs
    → AreBytes ds
    → length cs < fuel
    → length ds < fuel
    → (r : Sign) × (strcmp fuel a b m ≡ some r)
      × (strcmp fuel b a m ≡ some (opposite r))
      × ((r ≡ null) ↔ (cs ≡ ds))
strcmp_lem fuel a b cs ds m left right w x enough enough' = (
  order cs ds,
  strcmp-order fuel a b cs ds m left right w x enough,
  strcmp-order fuel b a ds cs m right left x w enough'
      ∙ ap some (order-opposite cs ds w x (Holds-Plain m a cs left) (Holds-Plain m b ds right)),
  (order-same cs ds, λ e. subst (λ ds. order cs ds ≡ null) e (order_refl cs)),
)
