-- ===== src/CString/Copy.antt =====
-- The functions of lib/string.c that write.
use os_zhenxiang.Prelude.{
  ℕ, zero, suc, ◌+◌, ◌-◌, ◌<◌, ◌≤◌, ◌≡◌, ◌≢◌, refl, ◌∙◌, subst, Bool, true, false, some, List, [],
  ◌∷◌, ◌++◌, length, ltb, leb, ◌&&◌, ◌==◌, if◌then◌else◌, update, arith, ℕ_discrete, Bool-cases,
  inl, inr, ◌⊎◌,
}
use os_zhenxiang.CString.{Bytes, memset, memcpy, strcpy, strcat}
use os_zhenxiang.CString.Holds.{Holds, skip_string_lem}

-- whether `a` is one of `n` addresses from `p` on
abbrev pub inside : (p n a : ℕ) → Bool
inside p n a = leb p a && ltb a (p + n)

-- two regions without a common address
abbrev pub Apart : (p n q k : ℕ) → Type 0
Apart p n q k = (p + n ≤ q) ⊎ (q + k ≤ p)

-- `memset` fills its region and nothing else.
pub memset_lem :
    (dst value size : ℕ) (m : Bytes) (a : ℕ)
    → memset dst value size m a ≡ (if inside dst size a then value else m a)
unfolding memset
memset_lem dst value zero m a = ground arith
memset_lem dst value (suc size) m a =
    ground (arith, memset_lem (dst + 1) value size (update m dst value) a)

-- `memcpy`, if the regions are apart, makes the one like the other and changes nothing else.
pub memcpy_lem :
    (dst src size : ℕ) (m : Bytes)
    → Apart dst size src size
    → (a : ℕ) → memcpy dst src size m a ≡ (if inside dst size a then m (src + (a - dst)) else m a)
unfolding memcpy
memcpy_lem dst src zero m apart a = ground arith
memcpy_lem dst src (suc size) m apart a =
    let apart' : Apart (dst + 1) size (src + 1) size = elim apart [
      | inl lt ↦ inl (omega arith)
      | inr gt ↦ inr (omega arith)
    ] in
    let rest = memcpy_lem (dst + 1) (src + 1) size (update m dst (m src)) apart' a in
    elim (ℕ_discrete a dst) [
      | yes first ↦
          let from : src + (a - dst) ≡ src = omega arith in
          let out : inside (dst + 1) size a ≡ false = ground arith in
          let here : inside dst (suc size) a ≡ true = ground arith in
          rest ∙ rw (out, here, from) (ground arith)
      | no other ↦ elim (Bool-cases (inside (dst + 1) size a)) [
        | inl later ↦
            let from : src + 1 + (a - (dst + 1)) ≡ src + (a - dst) = ground arith in
            let here : inside dst (suc size) a ≡ true = ground arith in
            let kept : dst ≢ src + (a - dst) = ground arith in
            rest ∙ rw (later, here, from) (ground (arith, kept))
        | inr out ↦
            let there : inside dst (suc size) a ≡ false = ground arith in
            rest ∙ rw (out, there) (ground arith)
      ]
    ]

-- A string survives a change outside of it.
pub Holds-frame :
    (m m' : Bytes) (p : ℕ) (cs : List ℕ)
    → Holds m p cs
    → ((a : ℕ) → p ≤ a → a < p + length cs + 1 → m' a ≡ m a)
    → Holds m' p cs
Holds-frame m m' p [] holds same = same p (omega arith) (omega arith) ∙ holds
Holds-frame m m' p (c ∷ cs) (at, ne, holds) same = (
  same p (omega arith) (omega arith) ∙ at,
  ne,
  Holds-frame m m' (p + 1) cs holds (λ a lo hi. same a (omega arith) (omega arith)),
)

-- `strcpy` of a string whose place and destination are apart returns, with fuel for each character and
-- the 0: the destination holds the string, and nothing else changes.
pub strcpy_lem :
    (fuel dst src : ℕ) (cs : List ℕ) (m : Bytes)
    → Holds m src cs
    → length cs < fuel
    → Apart dst (length cs + 1) src (length cs + 1)
    → (m' : Bytes) × (strcpy fuel dst src m ≡ some m')
      × Holds m' dst cs
      × ((a : ℕ) → inside dst (length cs + 1) a ≡ false → m' a ≡ m a)
unfolding strcpy
strcpy_lem zero dst src cs m holds enough apart = absurd (omega arith)
strcpy_lem (suc fuel) dst src [] m holds enough apart =
    let z : (m src == 0) ≡ true = ground arith in
    (update m dst (m src), rw z refl, ground (arith, holds), λ a out. ground arith)
strcpy_lem (suc fuel) dst src (c ∷ cs) m (at, ne, holds) enough apart =
    let z : (m src == 0) ≡ false = ground arith in
    let apart' : Apart (dst + 1) (length cs + 1) (src + 1) (length cs + 1) = elim apart [
      | inl lt ↦ inl (omega arith)
      | inr gt ↦ inr (omega arith)
    ] in
    let moved = Holds-frame m (update m dst (m src)) (src + 1) cs holds (λ a lo hi. ground arith) in
    let (m', e, copied, same) =
      strcpy_lem fuel (dst + 1) (src + 1) cs (update m dst (m src)) moved (omega arith) apart' in
    (
      m',
      rw z e,
      (same dst (ground arith) ∙ ground (arith, at), ne, copied),
      λ a out. same a (ground arith) ∙ ground arith,
    )

-- The characters of a string that are left as they were, and a string in the place of its 0
joined :
    (m m' : Bytes) (p : ℕ) (cs ds : List ℕ)
    → Holds m p cs
    → Holds m' (p + length cs) ds
    → ((a : ℕ) → p ≤ a → a < p + length cs → m' a ≡ m a)
    → Holds m' p (cs ++ ds)
joined m m' p [] ds holds next same =
    let e : p + 0 ≡ p = omega arith in subst (λ q. Holds m' q ds) e next
joined m m' p (c ∷ cs) ds (at, ne, holds) next same =
    let e : p + suc (length cs) ≡ p + 1 + length cs = omega arith in
    (
      same p (omega arith) (omega arith) ∙ at,
      ne,
      joined m m' (p + 1) cs ds holds (subst (λ q. Holds m' q ds) e next)
          (λ a lo hi. same a (omega arith) (omega arith)),
    )

-- `strcat` returns, with fuel for both strings: the destination holds the one string with the other
-- behind it, and nothing else changes. The source must be apart from all of that.
pub strcat_lem :
    (fuel dst src : ℕ) (cs ds : List ℕ) (m : Bytes)
    → Holds m dst cs
    → Holds m src ds
    → length cs + length ds < fuel
    → Apart dst (length cs + length ds + 1) src (length ds + 1)
    → (m' : Bytes) × (strcat fuel dst src m ≡ some m')
      × Holds m' dst (cs ++ ds)
      × ((a : ℕ) → inside dst (length cs + length ds + 1) a ≡ false → m' a ≡ m a)
unfolding strcat
strcat_lem fuel dst src cs ds m left right enough apart =
    let apart' : Apart (dst + length cs) (length ds + 1) src (length ds + 1) = elim apart [
      | inl lt ↦ inl (omega arith)
      | inr gt ↦ inr (omega arith)
    ] in
    let (m', e, copied, same) =
      strcpy_lem fuel (dst + length cs) src ds m right (omega arith) apart' in
    let at : dst + length cs + 1 - 1 ≡ dst + length cs = omega arith in
    (
      m',
      rw (skip_string_lem fuel dst cs m left (omega arith), at) e,
      joined m m' dst cs ds left copied (λ a lo hi. same a (ground arith)),
      λ a out. same a (ground arith),
    )
