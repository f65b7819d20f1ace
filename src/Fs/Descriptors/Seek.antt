-- ===== src/Fs/Descriptors/Seek.antt =====
-- Where `sys_lseek` may put the position of a file.
use os_zhenxiang.Prelude.{
  ◌%◌, Option, ℕ, ◌+◌, ◌-◌, ◌^◌, ◌<◌, ◌≡◌, refl, true, false, not, ◌||◌, none, some, ok, ltb,
  if◌then◌else◌, u32, update, arith, Bool-cases, inl, inr,
}
use os_zhenxiang.Inode.{Inode}
use os_zhenxiang.FileTable.{max_file_open}
use os_zhenxiang.FileOps.{FileSystem, inode_of}
use os_zhenxiang.Fs.Descriptors.{
  negative, int_gt, seek_pos, fd_local2global, inode_at_slot, sys_lseek,
}

-- What a descriptor stands for
pub record Opened (fd global inode_no : ℕ) (i : Inode) (fs : FileSystem) : Type 0 where
  pub entry : fs.fd_table fd ≡ some global
  pub slot : global < max_file_open
  pub inode : (fs.file_table global).fd_inode ≡ some inode_no
  pub there : inode_of inode_no fs.volume.open_inodes ≡ ok i
  pub size : i.i_size < 2 ^ 31

seek_pos_small :
    (whence offset fd_pos size : ℕ) → offset < 2 ^ 32 → seek_pos whence offset fd_pos size < 2 ^ 32
unfolding seek_pos
seek_pos_small whence offset fd_pos size h = ground (arith, h)

-- The test of the two int32_t against the file's size
out_of_file :
    (p size : ℕ)
    → p < 2 ^ 32
    → size < 2 ^ 31
    → (negative p || int_gt p (u32 (size + 2 ^ 32 - 1))) ≡ not (ltb p size)
out_of_file p size h h' = ground (arith, h, h')

-- What `sys_lseek` returns when it is to set the position `p`
abbrev pub moved_to : (p global : ℕ) → Inode → FileSystem → Option ℕ × FileSystem
moved_to p global i fs =
    let moved = record fs {
      file_table = update fs.file_table global (record (fs.file_table global) { fd_pos = p });
    } in
    if ltb p i.i_size then (some p, moved) else (none, fs)

sys_lseek-seek_pos :
    (fd offset whence global inode_no : ℕ) (i : Inode) (fs : FileSystem)
    → negative fd ≡ false
    → Opened fd global inode_no i fs
    → 0 < whence
    → whence < 4
    → offset < 2 ^ 32
    → sys_lseek fd offset whence fs
      ≡ ok (moved_to (seek_pos whence offset (fs.file_table global).fd_pos i.i_size) global i fs)
unfolding sys_lseek fd_local2global
sys_lseek-seek_pos fd offset whence global inode_no i fs there o low high small =
    let p = seek_pos whence offset (fs.file_table global).fd_pos i.i_size in
    let test =
      out_of_file p i.i_size
        (seek_pos_small whence offset (fs.file_table global).fd_pos i.i_size small) o.size in
    let w : ltb 0 whence ≡ true = ground (arith, low) in
    let w' : ltb whence 4 ≡ true = ground (arith, high) in
    let s : ltb global 32 ≡ true = ground (arith, o.slot) in
    let at : inode_at_slot global fs ≡ ok i = rw (inode_at_slot, o.inode) o.there in
    rw (there, w, w', o.entry, s, at, test)
      (elim (Bool-cases (ltb p i.i_size)) [ inl e ↦ rw e refl | inr e ↦ rw e refl ])

-- `sys_lseek` of an open file of less than 2 GB, with one of the three values of whence and a
-- 32-bit offset: the new position is, with SEEK_SET, the offset, with SEEK_CUR, the position of
-- the open file and the offset, and with SEEK_END, its size and the offset, each as a 32-bit
-- number. If the new position is in the file, it is set and returned, and nothing else changes;
-- otherwise the result is -1, and nothing changes.
pub sys_lseek_lem :
    (fd offset global inode_no : ℕ) (i : Inode) (fs : FileSystem)
    → negative fd ≡ false
    → Opened fd global inode_no i fs
    → offset < 2 ^ 32
    → (sys_lseek fd offset 1 fs ≡ ok (moved_to offset global i fs))
      × (sys_lseek fd offset 2 fs
          ≡ ok (moved_to (((fs.file_table global).fd_pos + offset) % 2 ^ 32) global i fs))
      × (sys_lseek fd offset 3 fs ≡ ok (moved_to ((i.i_size + offset) % 2 ^ 32) global i fs))
unfolding seek_pos
sys_lseek_lem fd offset global inode_no i fs there o small = (
  sys_lseek-seek_pos fd offset 1 global inode_no i fs there o (omega arith) (omega arith) small,
  sys_lseek-seek_pos fd offset 2 global inode_no i fs there o (omega arith) (omega arith) small,
  sys_lseek-seek_pos fd offset 3 global inode_no i fs there o (omega arith) (omega arith) small,
)
