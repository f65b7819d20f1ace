-- ===== src/Dir/Lookup.antt =====
-- What `search_dir_entry` finds.
use os_zhenxiang.Prelude.{
  ℕ, zero, suc, ◌+◌, ◌*◌, ◌<◌, ◌≤◌, ◌≡◌, refl, sym, ◌∙◌, ap, subst, Bool, true, false, Option, none,
  some, List, ◌∷◌, ◌==◌, if◌then◌else◌, arith, ℕ_discrete, Bool-cases, inl, inr,
}
use os_zhenxiang.Inode.{Inode, Bytes}
use os_zhenxiang.Volume.{all_blocks}
use os_zhenxiang.Dir.{
  chars_at, filename_at, same_name, search_sector, search_blocks, entry_or, search_dir_entry,
  sector,
}

pub chars_at-same :
    (left p q : ℕ) (m m' : Bytes)
    → ((k : ℕ) → k < left → m (p + k) ≡ m' (q + k))
    → chars_at left p m ≡ chars_at left q m'
unfolding chars_at
chars_at-same zero p q m m' h = refl
chars_at-same (suc left) p q m m' h =
    let first : m p ≡ m' q = ap m (omega arith) ∙ h 0 (omega arith) ∙ ap m' (omega arith) in
    let rest =
      chars_at-same left (p + 1) (q + 1) m m'
        (λ k lt. ap m (omega arith) ∙ h (k + 1) (omega arith) ∙ ap m' (omega arith)) in
    rw (first, rest) refl

-- The bytes of an entry of a directory; an empty block reads as entries of zeros.
abbrev pub slot : (blocks : ℕ → ℕ) → (disk : Bytes) → (k j : ℕ) → Bytes
slot blocks disk k j m = if blocks k == 0 then 0 else sector disk (blocks k) (24 * j + m)

-- whether the name of an entry is the one given
abbrev pub matches : (entry : Bytes) → (name : List ℕ) → Bool
matches entry name = same_name (filename_at entry 0) name

-- no match among the entries of a block from `lo` on
abbrev NoneIn : (buf : Bytes) → (name : List ℕ) → (lo hi : ℕ) → Type 0
NoneIn buf name lo hi =
    (j : ℕ) → lo ≤ j → j < hi → same_name (filename_at buf (24 * j)) name ≡ false

-- What the search in a sector returns
InSector : (buf : Bytes) → (name : List ℕ) → (lo hi : ℕ) → Option ℕ → Type 0
InSector buf name lo hi none = NoneIn buf name lo hi
InSector buf name lo hi (some p) =
    (j : ℕ) × (p ≡ 24 * j)
    × (lo ≤ j)
    × (j < hi)
    × (same_name (filename_at buf (24 * j)) name ≡ true)
    × NoneIn buf name lo j

NoneIn-later :
    (buf : Bytes) (name : List ℕ) (lo hi : ℕ)
    → same_name (filename_at buf (24 * lo)) name ≡ false
    → NoneIn buf name (lo + 1) hi
    → NoneIn buf name lo hi
NoneIn-later buf name lo hi no_match all j le lt = elim (ℕ_discrete j lo) [
  | yes e ↦ rw e no_match
  | no ne ↦ all j (omega arith) lt
]

InSector-later :
    (buf : Bytes) (name : List ℕ) (lo hi : ℕ) (r : Option ℕ)
    → same_name (filename_at buf (24 * lo)) name ≡ false
    → InSector buf name (lo + 1) hi r
    → InSector buf name lo hi r
unfolding InSector
InSector-later buf name lo hi none no_match all = NoneIn-later buf name lo hi no_match all
InSector-later buf name lo hi (some p) no_match (j, e, le, lt, match, before) =
    (j, e, omega arith, lt, match, NoneIn-later buf name lo j no_match before)

search_sector-InSector :
    (left idx : ℕ) (name : List ℕ) (buf : Bytes)
    → InSector buf name idx (idx + left) (search_sector left idx name buf)
unfolding search_sector InSector
search_sector-InSector zero idx name buf = λ j lo hi. absurd (omega arith)
search_sector-InSector (suc left) idx name buf =
    elim (Bool-cases (same_name (filename_at buf (24 * idx)) name)) [
      | inl match ↦
          rw match (idx, refl, omega arith, omega arith, match, λ j lo hi. absurd (omega arith))
      | inr no_match ↦
          let rest =
            subst (λ hi. InSector buf name (idx + 1) hi (search_sector left (idx + 1) name buf))
              (omega arith) (search_sector-InSector left (idx + 1) name buf) in
          rw no_match (
            InSector-later buf name idx (idx + suc left) (search_sector left (idx + 1) name buf)
              no_match rest)
    ]

module _ (blocks : ℕ → ℕ) (disk : Bytes) (name : List ℕ) where
  -- no match among the entries of the blocks from `lo` on
  abbrev pub NoMatch : (lo hi : ℕ) → Type 0
  NoMatch lo hi = (k j : ℕ) → lo ≤ k → k < hi → j < 21 → matches (slot blocks disk k j) name ≡ false

  -- the first match among the blocks from `lo` on
  pub record FirstMatch (lo hi : ℕ) (e : Bytes) : Type 0 where
    pub block : ℕ
    pub idx : ℕ
    pub above : lo ≤ block
    pub below : block < hi
    pub idx_below : idx < 21
    pub match : matches (slot blocks disk block idx) name ≡ true
    pub entry : (m : ℕ) → m < 24 → e m ≡ slot blocks disk block idx m
    pub before : NoMatch lo block
    pub before_here : (j : ℕ) → j < idx → matches (slot blocks disk block j) name ≡ false

  -- what a search among these blocks finds
  unfoldable pub Finds : (lo hi : ℕ) → Option Bytes → Type 0
  Finds lo hi none = NoMatch lo hi
  Finds lo hi (some e) = FirstMatch lo hi e

  module _ (k : ℕ) (there : (blocks k == 0) ≡ false) where
    slot_bytes : (j m : ℕ) → slot blocks disk k j m ≡ sector disk (blocks k) (24 * j + m)
    slot_bytes j m = rw there refl

    matches-slot :
        (j : ℕ)
        → matches (slot blocks disk k j) name
          ≡ same_name (filename_at (sector disk (blocks k)) (24 * j)) name
    unfolding filename_at
    matches-slot j =
        ap (λ n. same_name n name)
          (chars_at-same 24 0 (24 * j) (slot blocks disk k j) (sector disk (blocks k))
            (λ m lt. slot_bytes j (0 + m) ∙ ap (sector disk (blocks k)) (omega arith)))

  NoMatch-later :
      (lo hi : ℕ)
      → ((j : ℕ) → j < 21 → matches (slot blocks disk lo j) name ≡ false)
      → NoMatch (lo + 1) hi
      → NoMatch lo hi
  NoMatch-later lo hi here all k j le lt lt' = elim (ℕ_discrete k lo) [
    | yes e ↦ rw e (here j lt')
    | no ne ↦ all k j (omega arith) lt lt'
  ]

  Finds-later :
      (lo hi : ℕ) (r : Option Bytes)
      → ((j : ℕ) → j < 21 → matches (slot blocks disk lo j) name ≡ false)
      → Finds (lo + 1) hi r
      → Finds lo hi r
  unfolding Finds
  Finds-later lo hi none here all = NoMatch-later lo hi here all
  Finds-later lo hi (some e) here f = record {
    block = f.block;
    idx = f.idx;
    above = omega (arith, f.above);
    below = f.below;
    idx_below = f.idx_below;
    match = f.match;
    entry = f.entry;
    before = NoMatch-later lo f.block here f.before;
    before_here = f.before_here;
  }

-- An entry of a block that is not there has no name.
absent :
    (blocks : ℕ → ℕ) (disk : Bytes) (c : ℕ) (cs : List ℕ) (k j : ℕ)
    → (blocks k == 0) ≡ true
    → matches (slot blocks disk k j) (c ∷ cs) ≡ false
unfolding filename_at chars_at same_name
absent blocks disk c cs k j e = rw e refl

entry_or-Finds :
    (blocks : ℕ → ℕ) (disk : Bytes) (name : List ℕ) (idx hi : ℕ) (o : Option ℕ) (r : Option Bytes)
    → (blocks idx == 0) ≡ false
    → idx < hi
    → InSector (sector disk (blocks idx)) name 0 21 o
    → Finds blocks disk name (idx + 1) hi r
    → Finds blocks disk name idx hi (entry_or o (sector disk (blocks idx)) r)
unfolding entry_or InSector Finds
entry_or-Finds blocks disk name idx hi none r there lt here rest =
    Finds-later blocks disk name idx hi r
      (λ j l. matches-slot blocks disk name idx there j ∙ here j (omega arith) l) rest
entry_or-Finds blocks disk name idx hi (some p) r there lt (j, e, _, below, match, before) rest =
    record {
      block = idx;
      idx = j;
      above = omega arith;
      below = lt;
      idx_below = below;
      match = matches-slot blocks disk name idx there j ∙ match;
      entry = λ m h. sym (
          slot_bytes blocks disk name idx there j m
          ∙ ap (λ q. sector disk (blocks idx) (q + m)) (sym e));
      before = λ k l lo hi' lt'. absurd (omega arith);
      before_here = λ l h. matches-slot blocks disk name idx there l ∙ before l (omega arith) h;
    }

search_blocks-Finds :
    (left idx : ℕ) (blocks : ℕ → ℕ) (c : ℕ) (cs : List ℕ) (disk : Bytes)
    → Finds blocks disk (c ∷ cs) idx (idx + left) (search_blocks left idx blocks (c ∷ cs) disk)
unfolding search_blocks entry_or Finds InSector
search_blocks-Finds zero idx blocks c cs disk = λ k j lo hi lt. absurd (omega arith)
search_blocks-Finds (suc left) idx blocks c cs disk =
    let rest =
      subst
        (λ hi.
          Finds blocks disk (c ∷ cs) (idx + 1) hi
            (search_blocks left (idx + 1) blocks (c ∷ cs) disk))
        (omega arith) (search_blocks-Finds left (idx + 1) blocks c cs disk) in
    elim (Bool-cases (blocks idx == 0)) [
      | inl gone ↦ rw gone (
          Finds-later blocks disk (c ∷ cs) idx (idx + suc left) _
            (λ j lt. absent blocks disk c cs idx j gone) rest)
      | inr there ↦ rw there (
          entry_or-Finds blocks disk (c ∷ cs) idx (idx + suc left)
            (search_sector 21 0 (c ∷ cs) (sector disk (blocks idx)))
            (search_blocks left (idx + 1) blocks (c ∷ cs) disk) there (omega arith)
            (search_sector-InSector 21 0 (c ∷ cs) (sector disk (blocks idx))) rest)
    ]

-- `search_dir_entry` for a name that is not empty: when it returns false, no entry of the
-- directory has the name; when it returns true, it gives the 24 bytes of the first entry with the
-- name, in the order of the blocks and of the entries in a block.
pub search_dir_entry_lem :
    (i : Inode) (c : ℕ) (cs : List ℕ) (disk : Bytes)
    → Finds (all_blocks i disk) disk (c ∷ cs) 0 140 (search_dir_entry i (c ∷ cs) disk)
unfolding search_dir_entry
search_dir_entry_lem i c cs disk = search_blocks-Finds 140 0 (all_blocks i disk) c cs disk
