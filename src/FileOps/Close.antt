-- ===== src/FileOps/Close.antt =====
-- What `file_close` does to an inode that others have open.
use os_zhenxiang.Prelude.{
  ℕ, ◌+◌, ◌-◌, ◌^◌, ◌<◌, ◌≤◌, ◌≡◌, refl, true, false, none, some, List, [], ◌∷◌, ok, ◌==◌, u32,
  arith, Bool-cases, inl, inr, update,
}
use os_zhenxiang.Inode.{Inode, inode_close}
use os_zhenxiang.FileTable.{File}
use os_zhenxiang.FileOps.{FileSystem, inode_of, put_inode, with_opens, close_inode, file_close}

-- one opener less
abbrev pub fewer : Inode → Inode
fewer i = record i { i_open_cnts = i.i_open_cnts - 1 }

close-put_inode :
    (n : ℕ) (i j : Inode) (opens : List Inode)
    → i.i_no ≡ n
    → 2 ≤ i.i_open_cnts
    → i.i_open_cnts < 2 ^ 32
    → inode_of n opens ≡ ok j
    → inode_of n (inode_close n (put_inode i opens)) ≡ ok (fewer i)
unfolding inode_of put_inode inode_close
close-put_inode n i j [] number many small there = cc
close-put_inode n i j (o ∷ opens) number many small there = elim (Bool-cases (o.i_no == n)) [
  | inl this ↦
      let same : (o.i_no == i.i_no) ≡ true = ground (arith, this, number) in
      let found : (i.i_no == n) ≡ true = ground (arith, number) in
      let cnts : u32 (i.i_open_cnts + 2 ^ 32 - 1) ≡ i.i_open_cnts - 1 = omega arith in
      let left : (i.i_open_cnts - 1 == 0) ≡ false = ground (arith, many) in
      rw (same, found, cnts, left, found) refl
  | inr other ↦
      let differs : (o.i_no == i.i_no) ≡ false = ground (arith, other, number) in
      rw (differs, other, other) (close-put_inode n i j opens number many small (rw other at there))
]

-- `file_close` of a slot of an inode that is open 2 times or more, with a count of 32 bits and
-- under its own number, returns, empties the slot, and leaves the inode with one opener less and
-- open to writers, whether the slot was a writer's or not.
pub file_close_admits :
    (fd_idx n : ℕ) (i : Inode) (fs : FileSystem)
    → (fs.file_table fd_idx).fd_inode ≡ some n
    → inode_of n fs.volume.open_inodes ≡ ok i
    → i.i_no ≡ n
    → 2 ≤ i.i_open_cnts
    → i.i_open_cnts < 2 ^ 32
    → (fs' : FileSystem) × (file_close fd_idx fs ≡ ok fs')
      × ((fs'.file_table fd_idx).fd_inode ≡ none)
      × (inode_of n fs'.volume.open_inodes
          ≡ ok (record i { i_open_cnts = i.i_open_cnts - 1; write_deny = false }))
unfolding file_close close_inode
file_close_admits fd_idx n i fs slot there number many small =
    let allowed : Inode = record i { write_deny = false } in
    let opens = inode_close n (put_inode allowed fs.volume.open_inodes) in
    let closed : File = record (fs.file_table fd_idx) { fd_inode = none } in
    let here : (fd_idx == fd_idx) ≡ true = ground arith in
    (
      record fs {
        volume = with_opens fs.volume opens;
        file_table = update fs.file_table fd_idx closed;
      },
      rw (slot, there) refl,
      rw here refl,
      close-put_inode n allowed i fs.volume.open_inodes number many small there,
    )
