-- ===== src/FileOps/Deny.antt =====
-- How `file_open` and `file_close` keep a second writer out of a file, and how they fail to.
use os_zhenxiang.Prelude.{
  ℕ, ◌+◌, ◌≡◌, refl, sym, ◌∙◌, ap, true, false, Option, none, some, List, [], ◌∷◌, ok, ◌==◌, u32,
  arith, Bool-cases, Option-cases, inl, inr, update, subst, Outcome-cases, ok-injective,
}
use os_zhenxiang.Inode.{Inode, Partition, Bytes, behind, inode_find, inode_read, inode_open}
use os_zhenxiang.Inode.Opens.{some-injective}
use os_zhenxiang.FileTable.{File, get_free_slot_in_global}
use os_zhenxiang.Volume.{Volume, zeros}
use os_zhenxiang.FileOps.{
  FileSystem, inode_of, put_inode, with_opens, install, writes, deny_writers, open_in, file_open,
}

-- What stands in a list under its number
abbrev Stands : (n : ℕ) → Inode × List Inode → Type 0
Stands n r = (r.0.i_no ≡ n) × (inode_of n r.1 ≡ ok r.0)

-- What `inode_find` finds stands in the list that it leaves.
inode_find-Stands :
    (n : ℕ) (opens : List Inode) (r : Inode × List Inode) → inode_find n opens ≡ some r → Stands n r
unfolding inode_find behind inode_of
inode_find-Stands n [] r e = cc
inode_find-Stands n (o ∷ opens) r e = elim (Bool-cases (o.i_no == n)) [
  | inl this ↦
      let found : Inode = record o { i_open_cnts = u32 (o.i_open_cnts + 1) } in
      subst (Stands n) (some-injective (found, found ∷ opens) r (rw this at e))
        (ground (arith, this), rw this refl)
  | inr other ↦ elim (Option-cases (inode_find n opens)) [
    | inl absent ↦ cc (rw (other, absent) at e)
    | inr (q, found) ↦
        let s = inode_find-Stands n opens q found in
        subst (Stands n) (some-injective (q.0, o ∷ q.1) r (rw (other, found) at e))
          (s.0, rw other (s.1))
  ]
]

-- An inode put back is found again, with its mark.
inode_find-put_inode :
    (n : ℕ) (i j : Inode) (opens : List Inode)
    → i.i_no ≡ n
    → inode_of n opens ≡ ok j
    → (r : Inode × List Inode) × (inode_find n (put_inode i opens) ≡ some r)
      × (r.0.write_deny ≡ i.write_deny)
unfolding inode_find behind inode_of put_inode
inode_find-put_inode n i j [] number there = cc
inode_find-put_inode n i j (o ∷ opens) number there = elim (Bool-cases (o.i_no == n)) [
  | inl this ↦
      let same : (o.i_no == i.i_no) ≡ true = ground (arith, this, number) in
      let found : (i.i_no == n) ≡ true = ground (arith, number) in
      let counted : Inode = record i { i_open_cnts = u32 (i.i_open_cnts + 1) } in
      rw same ((counted, counted ∷ opens), rw found refl, refl)
  | inr other ↦
      let differs : (o.i_no == i.i_no) ≡ false = ground (arith, other, number) in
      let (r, e, deny) = inode_find-put_inode n i j opens number (rw other at there) in
      rw differs ((r.0, o ∷ r.1), rw (other, e) refl, deny)
]

-- an inode that `inode_open` gives stands in the list, if its number on the disk is right
inode_open-Stands :
    (part : Partition) (n : ℕ) (buf disk : Bytes) (opens : List Inode) (r : Inode × List Inode)
    → inode_open part n buf disk opens ≡ ok r
    → r.0.i_no ≡ n
    → inode_of n r.1 ≡ ok r.0
unfolding inode_open inode_of
inode_open-Stands part n buf disk opens r e number = elim (Option-cases (inode_find n opens)) [
  | inl absent ↦ elim (Outcome-cases (inode_read part n buf disk)) [
    | inl stops ↦ cc (rw (absent, stops) at e)
    | inr (stored, was_read) ↦
        let opened : Inode = record stored { i_open_cnts = 1 } in
        let same : (opened, opened ∷ opens) ≡ r =
          ok-injective (opened, opened ∷ opens) r (rw (absent, was_read) at e) in
        let this : (stored.i_no == n) ≡ true =
          ground (arith, ap (λ (r : Inode × List Inode). r.0.i_no) same, number) in
        subst (λ r. inode_of n r.1 ≡ ok r.0) same (rw this refl)
  ]
  | inr (q, found) ↦
      subst (λ r. inode_of n r.1 ≡ ok r.0) (ok-injective q r (rw found at e))
        (inode_find-Stands n opens q found).1
]

-- The inode `n` is open and kept from other writers.
record Denied (n : ℕ) (v : Volume) : Type 0 where
  found : Inode × List Inode
  finds : inode_find n v.open_inodes ≡ some found
  denies : found.0.write_deny ≡ true

-- A second open for writing gives up, and keeps the slot that it took.
Refused : (n flag : ℕ) → FileSystem → Type 0
Refused n flag fs =
    (fs' : FileSystem) × (file_open n flag fs ≡ ok (none, fs'))
    × ((s : ℕ)
        → get_free_slot_in_global fs.file_table ≡ some s
        → (fs'.file_table s).fd_inode ≡ some n)

Denied-Refused :
    (n flag : ℕ) (fs : FileSystem) → writes flag ≡ true → Denied n fs.volume → Refused n flag fs
unfolding Refused file_open open_in deny_writers inode_open
Denied-Refused n flag fs w d = elim (Option-cases (get_free_slot_in_global fs.file_table)) [
  | inl full ↦ (fs, rw full refl, λ s e. cc)
  | inr (s, free) ↦
      let slot : File = record { fd_pos = 0; fd_flag = flag; fd_inode = some n } in
      (
        record fs {
          volume = with_opens fs.volume (d.found.1);
          file_table = update fs.file_table s slot;
        },
        rw (free, d.finds, w, d.denies) refl,
        λ s' e.
            let here : (s == s) ≡ true = ground arith in
            subst (λ t. (update fs.file_table s slot t).fd_inode ≡ some n)
              (some-injective s s' (sym free ∙ e)) (rw here refl),
      )
]

-- What a successful open for writing leaves
opened-Denied :
    (n : ℕ) (i : Inode) (opens : List Inode) (v : Volume)
    → i.i_no ≡ n
    → inode_of n opens ≡ ok i
    → Denied n (with_opens v (put_inode (record i { write_deny = true }) opens))
opened-Denied n i opens v number there =
    let (r, finds, denies) =
      inode_find-put_inode n (record i { write_deny = true }) i opens number there in
    record { found = r; finds = finds; denies = denies }

file_open-Denied :
    (n flag fd : ℕ) (fs fs' : FileSystem)
    → writes flag ≡ true
    → ((r : Inode × List Inode)
        → inode_open fs.volume.part n zeros fs.volume.disk fs.volume.open_inodes ≡ ok r
        → r.0.i_no ≡ n)
    → file_open n flag fs ≡ ok (some fd, fs')
    → Denied n fs'.volume
unfolding file_open open_in deny_writers install
file_open-Denied n flag fd fs fs' w number e =
    elim (Option-cases (get_free_slot_in_global fs.file_table)) [
      | inl full ↦ cc (rw full at e)
      | inr (s, free) ↦
          elim (Outcome-cases
            (inode_open fs.volume.part n zeros fs.volume.disk fs.volume.open_inodes)) [
              | inl stops ↦ cc (rw (free, stops) at e)
              | inr (r, opens) ↦ elim (Bool-cases (r.0.write_deny)) [
                | inl denied ↦ cc (rw (free, opens, w, denied) at e)
                | inr free_to_write ↦
                    let slot : File = record { fd_pos = 0; fd_flag = flag; fd_inode = some n } in
                    let denied = record (r.0) { write_deny = true } in
                    let taken = install s (record fs {
                      volume = with_opens fs.volume (put_inode denied r.1);
                      file_table = update fs.file_table s slot;
                    }) in
                    let same : taken ≡ (some fd, fs') =
                      ok-injective taken (some fd, fs') (rw (free, opens, w, free_to_write) at e) in
                    subst (Denied n) (ap (λ (q : Option ℕ × FileSystem). q.1.volume) same) (
                      opened-Denied n r.0 r.1 fs.volume (number r opens) (
                        inode_open-Stands fs.volume.part n zeros fs.volume.disk
                          fs.volume.open_inodes r opens (number r opens)))
              ]
            ]
    ]

-- Once `file_open` has opened a file for writing, it gives up, with -1, on a second open of the
-- file for writing. Then the slot of the table of open files that it has taken, if there was a
-- free one, stays in use. The file's inode must have its own number.
pub second_writer_refused :
    (n flag flag' fd : ℕ) (fs fs' : FileSystem)
    → writes flag ≡ true
    → writes flag' ≡ true
    → ((r : Inode × List Inode)
        → inode_open fs.volume.part n zeros fs.volume.disk fs.volume.open_inodes ≡ ok r
        → r.0.i_no ≡ n)
    → file_open n flag fs ≡ ok (some fd, fs')
    → (fs'' : FileSystem) × (file_open n flag' fs' ≡ ok (none, fs''))
      × ((s : ℕ)
          → get_free_slot_in_global fs'.file_table ≡ some s
          → (fs''.file_table s).fd_inode ≡ some n)
unfolding Refused
second_writer_refused n flag flag' fd fs fs' w w' number e =
    Denied-Refused n flag' fs' w' (file_open-Denied n flag fd fs fs' w number e)
