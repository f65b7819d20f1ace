-- ===== src/Inode/Opens.antt =====
-- The list of open inodes of fs/inode.c.
use os_zhenxiang.Prelude.{
  ℕ, ◌+◌, ◌-◌, ◌^◌, ◌<◌, ◌≡◌, refl, sym, ◌∙◌, ap, true, false, ◌==◌, arith, ok, u32, Bool-cases,
  Option-cases, inl, inr, List, [], ◌∷◌, Option, none, some,
}
use os_zhenxiang.Inode.{
  Inode, Partition, Bytes, behind, inode_find, inode_open, inode_close, inode_read,
}

-- Every inode in the list is open, and by less than 2 ^ 32 - 1 openers.
abbrev pub Counted : List Inode → Type 0
Counted [] = Unit
Counted (i ∷ opens) = (0 < i.i_open_cnts) × (i.i_open_cnts + 1 < 2 ^ 32) × Counted opens

pub some-injective : {A : Type 0} (a b : A) → some a ≡ some b → a ≡ b
some-injective {A} a b e = ap (value a) e
  where
    value : A → Option A → A
    value d (some x) = x
    value d none = d

-- An opener that is counted and then gives up leaves the list as it was.
close_counted :
    (inode_no : ℕ) (o : Inode) (opens : List Inode)
    → (o.i_no == inode_no) ≡ true
    → 0 < o.i_open_cnts
    → o.i_open_cnts + 1 < 2 ^ 32
    → inode_close inode_no (record o { i_open_cnts = u32 (o.i_open_cnts + 1) } ∷ opens) ≡ o ∷ opens
unfolding inode_close
close_counted inode_no o opens this positive small =
    let cnts : u32 (u32 (o.i_open_cnts + 1) + 2 ^ 32 - 1) ≡ o.i_open_cnts = omega arith in
    let more : (o.i_open_cnts == 0) ≡ false = ground arith in rw (this, cnts, more) refl

close_behind :
    (inode_no : ℕ) (o : Inode) (opens : List Inode)
    → (o.i_no == inode_no) ≡ false
    → inode_close inode_no (o ∷ opens) ≡ o ∷ inode_close inode_no opens
unfolding inode_close
close_behind inode_no o opens other = rw other refl

inode_close-inode_find :
    (inode_no : ℕ) (opens : List Inode)
    → Counted opens
    → (r : Inode × List Inode) → inode_find inode_no opens ≡ some r
    → inode_close inode_no r.1 ≡ opens
unfolding inode_find behind
inode_close-inode_find inode_no [] c r e = cc
inode_close-inode_find inode_no (o ∷ opens) (positive, small, c) r e =
    elim (Bool-cases (o.i_no == inode_no)) [
      | inl this ↦
          let found = record o { i_open_cnts = u32 (o.i_open_cnts + 1) } in
          let same : (found, found ∷ opens) ≡ r =
            some-injective (found, found ∷ opens) r (sym (rw this refl) ∙ e) in
          sym (ap (λ r. inode_close inode_no r.1) same)
          ∙ close_counted inode_no o opens this positive small
      | inr other ↦ elim (Option-cases (inode_find inode_no opens)) [
        | inl absent ↦ cc (rw (other, absent) at e)
        | inr (q, found) ↦
            let same : (q.0, o ∷ q.1) ≡ r =
              some-injective (q.0, o ∷ q.1) r (rw (other, found) at e) in
            sym (ap (λ r. inode_close inode_no r.1) same)
            ∙ close_behind inode_no o q.1 other
            ∙ ap (λ opens. o ∷ opens) (inode_close-inode_find inode_no opens c q found)
      ]
    ]

-- `inode_open` of an inode, open already or not, returns, and `inode_close` of it then leaves the list
-- of open inodes as it was. The counts of openers in the list must be positive and below
-- 2 ^ 32 - 1, and the inode on the disk must have its own number.
pub inode_close-inode_open :
    (part : Partition) (inode_no : ℕ) (buf disk : Bytes) (opens : List Inode) (stored : Inode)
    → Counted opens
    → inode_read part inode_no buf disk ≡ ok stored
    → stored.i_no ≡ inode_no
    → (i : Inode) × (opens' : List Inode) × (inode_open part inode_no buf disk opens
        ≡ ok (i, opens'))
      × (inode_close inode_no opens' ≡ opens)
unfolding inode_open inode_close
inode_close-inode_open part inode_no buf disk opens stored c read number =
    elim (Option-cases (inode_find inode_no opens)) [
      | inl absent ↦
          let this : (stored.i_no == inode_no) ≡ true = ground arith in
          let opened = record stored { i_open_cnts = 1 } in
          (opened, opened ∷ opens, rw (absent, read) refl, rw this refl)
      | inr (q, found) ↦ (q.0, q.1, rw found refl, inode_close-inode_find inode_no opens c q found)
    ]
