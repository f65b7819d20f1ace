-- ===== src/PathName/Names.antt =====
-- What the parser finds in a path, against the list of the names between its slashes.
use os_zhenxiang.Prelude.{
  true, ℕ, ◌+◌, ◌≤◌, ◌≡◌, ◌≢◌, refl, ◌∙◌, Option, none, some, List, [], ◌∷◌, ◌++◌, ◌==◌,
  if◌then◌else◌, arith, Bool-cases, inl, inr, length,
}
use os_zhenxiang.PathName.{fits, slash, skip_slashes, take_name, rest_or_null, path_parse}

-- a name, unless it is empty, before others
abbrev pub name_then : List ℕ → List (List ℕ) → List (List ℕ)
name_then [] names = names
name_then (c ∷ cs) names = (c ∷ cs) ∷ names

-- The names between the slashes of a path, of which the first has begun with `begun`.
unfoldable pub names_from : (begun : List ℕ) → List ℕ → List (List ℕ)
names_from begun [] = name_then begun []
names_from begun (c ∷ cs) =
    let rest = names_from [] cs in
    let longer = names_from (begun ++ c ∷ []) cs in
    if c == slash then name_then begun rest else longer

abbrev pub names : List ℕ → List (List ℕ)
names = names_from []

abbrev pub rest_names : Option (List ℕ) → List (List ℕ)
rest_names none = []
rest_names (some p) = names p

-- every name fits the buffer
unfoldable pub AllFit : List (List ℕ) → Type 0
AllFit [] = Unit
AllFit (n ∷ ns) = (fits n ≡ true) × AllFit ns

pub AllFit-name_then :
    (n : List ℕ) (ns : List (List ℕ)) → AllFit (name_then n ns) → (fits n ≡ true) × AllFit ns
unfolding AllFit
AllFit-name_then [] ns h = (refl, h)
AllFit-name_then (c ∷ cs) ns h = h

-- no 0 byte
abbrev pub Chars : List ℕ → Type 0
Chars [] = Unit
Chars (c ∷ cs) = (c ≢ 0) × Chars cs

abbrev pub RestChars : Option (List ℕ) → Type 0
RestChars none = Unit
RestChars (some p) = Chars p

skip_slashes-names : (p : List ℕ) → names (skip_slashes p) ≡ names p
unfolding skip_slashes names_from
skip_slashes-names [] = refl
skip_slashes-names (c ∷ cs) = elim (Bool-cases (c == slash)) [
  | inl e ↦ rw (e) (skip_slashes-names cs)
  | inr e ↦ rw (e, e) refl
]

append_nil : (xs : List ℕ) → xs ++ [] ≡ xs
append_nil [] = refl
append_nil (x ∷ xs) = rw (append_nil xs) refl

append_one : (xs : List ℕ) (y : ℕ) (ys : List ℕ) → (xs ++ y ∷ []) ++ ys ≡ xs ++ y ∷ ys
append_one [] y ys = refl
append_one (x ∷ xs) y ys = rw (append_one xs y ys) refl

take_name-names :
    (begun p : List ℕ)
    → names_from begun p ≡ name_then (begun ++ (take_name p).0) (names (take_name p).1)
unfolding take_name names_from
take_name-names begun [] = rw (append_nil begun) refl
take_name-names begun (c ∷ cs) = elim (Bool-cases (c == slash)) [
  | inl e ↦ rw (e, e, append_nil begun) refl
  | inr e ↦
      rw e (take_name-names (begun ++ c ∷ []) cs ∙ rw (append_one begun c (take_name cs).0) refl)
]

rest_or_null-names : (p : List ℕ) → rest_names (rest_or_null p) ≡ names p
unfolding rest_or_null names_from
rest_or_null-names [] = refl
rest_or_null-names (c ∷ cs) = refl

-- `path_parse` takes the first name off.
pub path_parse-names :
    (p : List ℕ) → names p ≡ name_then (path_parse p).0 (rest_names (path_parse p).1)
unfolding path_parse
path_parse-names p =
    let q = take_name (skip_slashes p) in
    rw (rest_or_null-names (take_name (skip_slashes p)).1)
      (rw (← skip_slashes-names p) (take_name-names [] (skip_slashes p)))

skip_slashes-Chars : (p : List ℕ) → Chars p → Chars (skip_slashes p)
unfolding skip_slashes
skip_slashes-Chars [] h = tt
skip_slashes-Chars (c ∷ cs) h = elim (Bool-cases (c == slash)) [
  | inl e ↦ rw e (skip_slashes-Chars cs h.1)
  | inr e ↦ rw e h
]

take_name-Chars : (p : List ℕ) → Chars p → Chars (take_name p).0 × Chars (take_name p).1
unfolding take_name
take_name-Chars [] h = (tt, tt)
take_name-Chars (c ∷ cs) h = elim (Bool-cases (c == slash)) [
  | inl e ↦ rw e (tt, h)
  | inr e ↦ rw e ((h.0, (take_name-Chars cs h.1).0), (take_name-Chars cs h.1).1)
]

rest_or_null-Chars : (p : List ℕ) → Chars p → RestChars (rest_or_null p)
unfolding rest_or_null
rest_or_null-Chars [] h = tt
rest_or_null-Chars (c ∷ cs) h = h

-- an empty name only at the end
abbrev pub EndsEmpty : List ℕ → Option (List ℕ) → Type 0
EndsEmpty [] p = p ≡ none
EndsEmpty (c ∷ cs) p = Unit

abbrev pub Parsed : List ℕ → Option (List ℕ) → Type 0
Parsed name p = Chars name × RestChars p × EndsEmpty name p

parsed_empty :
    (p : List ℕ)
    → EndsEmpty (take_name (skip_slashes p)).0 (rest_or_null (take_name (skip_slashes p)).1)
unfolding skip_slashes take_name rest_or_null
parsed_empty [] = refl
parsed_empty (c ∷ cs) = elim (Bool-cases (c == slash)) [
  | inl e ↦ rw e (parsed_empty cs)
  | inr e ↦ rw (e, e) tt
]

pub path_parse-Parsed : (p : List ℕ) → Chars p → Parsed (path_parse p).0 (path_parse p).1
unfolding path_parse
path_parse-Parsed p h =
    let t = take_name-Chars (skip_slashes p) (skip_slashes-Chars p h) in
    (t.0, rest_or_null-Chars (take_name (skip_slashes p)).1 t.1, parsed_empty p)

abbrev busy : List ℕ → ℕ
busy [] = 0
busy (c ∷ cs) = 1

length-name_then : (n : List ℕ) (ns : List (List ℕ)) → length (name_then n ns) ≡ busy n + length ns
length-name_then [] ns = omega arith
length-name_then (c ∷ cs) ns = omega arith

busy-append : (n : List ℕ) (c : ℕ) → busy (n ++ c ∷ []) ≡ 1
busy-append [] c = refl
busy-append (d ∷ ds) c = refl

length-names_from : (begun p : List ℕ) → length (names_from begun p) ≤ busy begun + length p
unfolding names_from
length-names_from begun [] = omega (arith, length-name_then begun [])
length-names_from begun (c ∷ cs) = elim (Bool-cases (c == slash)) [
  | inl e ↦ rw e (omega (arith, length-name_then begun (names cs), length-names_from [] cs))
  | inr e ↦ rw e (omega (arith, busy-append begun c, length-names_from (begun ++ c ∷ []) cs))
]

-- A path has no more names than characters.
pub length-names-le : (p : List ℕ) → length (names p) ≤ length p
length-names-le p = omega (arith, length-names_from [] p)
