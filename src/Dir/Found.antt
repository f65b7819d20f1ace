-- ===== src/Dir/Found.antt =====
-- What a search finds once one entry of a directory is another.
use os_zhenxiang.Prelude.{
  ℕ, ◌<◌, ◌≡◌, refl, sym, ◌∙◌, ap, true, false, ◌&&◌, Option, none, some, List, [], ◌∷◌, ◌==◌,
  arith, dec_lt, Bool-cases, inl, inr,
}
use os_zhenxiang.Inode.{Inode, Bytes}
use os_zhenxiang.Volume.{all_blocks}
use os_zhenxiang.Dir.{filename_at, same_name, direct_blocks}
use os_zhenxiang.Dir.Lookup.{slot, matches, NoMatch, FirstMatch, Finds, chars_at-same}
use os_zhenxiang.Dir.Changed.{Changed}

-- Without an indirect table the blocks are the direct ones.
pub all_blocks-direct :
    (i : Inode) (disk : Bytes) → i.i_sectors 12 ≡ 0 → all_blocks i disk ≡ direct_blocks i
unfolding all_blocks
all_blocks-direct i disk no_table =
    let each : (k : ℕ) → all_blocks i disk k ≡ direct_blocks i k = λ k. ground (arith, no_table) in
    λ t k. each k t

-- An entry matches as another one does that has the same bytes.
matches-same :
    (e e' : Bytes) (name : List ℕ)
    → ((m : ℕ) → m < 24 → e m ≡ e' m)
    → matches e name ≡ matches e' name
unfolding filename_at
matches-same e e' name h =
    ap (λ n. same_name n name)
      (chars_at-same 24 0 0 e e' (λ k lt. ap e (omega arith) ∙ h k lt ∙ ap e' (omega arith)))

pub same_name_refl : (n : List ℕ) → same_name n n ≡ true
unfolding same_name
same_name_refl [] = refl
same_name_refl (c ∷ cs) = let t : (c == c) ≡ true = ground arith in rw (t, same_name_refl cs) refl

-- the same first 24 bytes, or none on both sides
pub SameEntry : Option Bytes → Option Bytes → Type 0
SameEntry none none = Unit
SameEntry none (some e') = ⊥
SameEntry (some e) none = ⊥
SameEntry (some e) (some e') = (m : ℕ) → m < 24 → e m ≡ e' m

module _ (f f' : ℕ → ℕ) (disk disk' : Bytes) (b j : ℕ) (p_de : Bytes)
    (changed : Changed f f' disk disk' b j p_de) where
  at_entry : (k l : ℕ) → k ≡ b → l ≡ j → l < 21 → (m : ℕ) → m < 24 → slot f' disk' k l m ≡ p_de m
  at_entry k l e e' hl m hm =
      let t : (k == b) && (l == j) ≡ true = ground (arith, e, e') in changed k l m hl hm ∙ rw t refl

  off_entry :
      (k l : ℕ)
      → ((k == b) && (l == j)) ≡ false
      → l < 21
      → (m : ℕ) → m < 24
      → slot f' disk' k l m ≡ slot f disk k l m
  off_entry k l t hl m hm = changed k l m hl hm ∙ rw t refl

  -- The name of the new entry, which no entry had, leads to it.
  pub found_new :
      (name : List ℕ) (r : Option Bytes)
      → matches p_de name ≡ true
      → b < 140
      → j < 21
      → NoMatch f disk name 0 140
      → Finds f' disk' name 0 140 r
      → (e : Bytes) × (r ≡ some e) × ((m : ℕ) → m < 24 → e m ≡ p_de m)
  unfolding Finds
  found_new name none named hb hj old all =
      let here = all b j (omega arith) hb hj in
      let match = matches-same (slot f' disk' b j) p_de name (at_entry b j refl refl hj) in
      cc (here, match, named)
  found_new name (some e) named hb hj old first =
      elim (Bool-cases ((first.block == b) && (first.idx == j))) [
        | inl here ↦ (
          e,
          refl,
          λ m hm.
              first.entry m hm
              ∙ at_entry first.block first.idx (ground (arith, here)) (ground (arith, here))
                  first.idx_below m hm,
        )
        | inr other ↦
            let none_there = old first.block first.idx (omega arith) first.below first.idx_below in
            let same =
              matches-same (slot f' disk' first.block first.idx) (slot f disk first.block first.idx)
                name (off_entry first.block first.idx other first.idx_below) in
            cc (none_there, same, first.match)
      ]

  module _ (name : List ℕ) (hj : j < 21) (not_named : matches p_de name ≡ false)
      (not_old : matches (slot f disk b j) name ≡ false) where
    same_match :
        (k l : ℕ) → l < 21 → matches (slot f' disk' k l) name ≡ matches (slot f disk k l) name
    same_match k l hl = elim (Bool-cases ((k == b) && (l == j))) [
      | inl here ↦
          let e : k ≡ b = ground (arith, here) in
          let e' : l ≡ j = ground (arith, here) in
          matches-same (slot f' disk' k l) p_de name (at_entry k l e e' hl)
          ∙ not_named
          ∙ sym not_old
          ∙ ap (λ k. matches (slot f disk k j) name) (sym e)
          ∙ ap (λ l. matches (slot f disk k l) name) (sym e')
      | inr other ↦ matches-same (slot f' disk' k l) (slot f disk k l) name (off_entry k l other hl)
    ]

    same_block :
        (e e' : Bytes) (h : FirstMatch f disk name 0 140 e) (h' : FirstMatch f' disk' name 0 140 e')
        → h.block ≡ h'.block
        → (m : ℕ) → m < 24
        → e m ≡ e' m
    same_block e e' h h' at m hm =
        let match_there : matches (slot f disk h'.block h.idx) name ≡ true =
          ap (λ k. matches (slot f disk k h.idx) name) (sym at) ∙ h.match in
        let match_here : matches (slot f' disk' h.block h'.idx) name ≡ true =
          ap (λ k. matches (slot f' disk' k h'.idx) name) at ∙ h'.match in
        elim (dec_lt h.idx h'.idx) [
          | yes lt ↦
              cc (h'.before_here h.idx lt, same_match h'.block h.idx h.idx_below, match_there)
          | no ge ↦ elim (dec_lt h'.idx h.idx) [
            | yes lt ↦
                cc (h.before_here h'.idx lt, same_match h.block h'.idx h'.idx_below, match_here)
            | no le ↦ elim (Bool-cases ((h'.block == b) && (h'.idx == j))) [
              | inl new ↦
                  let eb : b ≡ h'.block = ground (arith, new) in
                  let ej : j ≡ h'.idx = ground (arith, new) in
                  let p =
                    matches-same (slot f' disk' h'.block h'.idx) p_de name
                      (at_entry h'.block h'.idx (sym eb) (sym ej) h'.idx_below) in
                  cc (p, not_named, h'.match)
              | inr old ↦
                  h.entry m hm
                  ∙ ap (λ k. slot f disk k h.idx m) at
                  ∙ ap (λ l. slot f disk h'.block l m) (omega arith)
                  ∙ sym (off_entry h'.block h'.idx old h'.idx_below m hm)
                  ∙ sym (h'.entry m hm)
            ]
          ]
        ]

    -- Another name finds what it found.
    pub found_other :
        (r r' : Option Bytes)
        → Finds f disk name 0 140 r
        → Finds f' disk' name 0 140 r'
        → SameEntry r r'
    unfolding Finds SameEntry
    found_other none none h h' = tt
    found_other none (some e') h h' =
        let no_match = h h'.block h'.idx (omega arith) h'.below h'.idx_below in
        cc (no_match, same_match h'.block h'.idx h'.idx_below, h'.match)
    found_other (some e) none h h' =
        let no_match = h' h.block h.idx (omega arith) h.below h.idx_below in
        cc (no_match, same_match h.block h.idx h.idx_below, h.match)
    found_other (some e) (some e') h h' = λ m hm. elim (dec_lt h.block h'.block) [
      | yes lt ↦
          let no_match = h'.before h.block h.idx (omega arith) lt h.idx_below in
          cc (no_match, same_match h.block h.idx h.idx_below, h.match)
      | no ge ↦ elim (dec_lt h'.block h.block) [
        | yes lt ↦
            let no_match = h.before h'.block h'.idx (omega arith) lt h'.idx_below in
            cc (no_match, same_match h'.block h'.idx h'.idx_below, h'.match)
        | no le ↦ same_block e e' h h' (omega arith) m hm
      ]
    ]
