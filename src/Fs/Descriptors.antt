-- ===== src/Fs/Descriptors.antt =====
-- fs/fs.c: the calls on descriptors. A descriptor and an offset are int32_t, kept as the unsigned
-- number of the same bits; a negative result other than -1 does not occur, and -1 is `none`. What the
-- console shows is left out.
pub mod Seek
use os_zhenxiang.Prelude.{
  ℕ, ◌+◌, ◌-◌, ◌^◌, Bool, not, ◌&&◌, ◌||◌, Option, none, some, Outcome, ok, panic, ◌>>=◌, ◌>>◌,
  assert, ltb, leb, ◌==◌, if◌then◌else◌, u32, update,
}
use os_zhenxiang.Inode.{Inode, Bytes}
use os_zhenxiang.FileTable.{File, max_file_open}
use os_zhenxiang.Volume.{Volume}
use os_zhenxiang.FileOps.{FileSystem, inode_of, put_inode, with_opens, file_close, writes}
use os_zhenxiang.FileData.{file_read}
use os_zhenxiang.FileData.Writing.{file_write}

-- `n < 0` for an int32_t
abbrev pub negative : ℕ → Bool
negative n = leb (2 ^ 31) n

-- `cur->fd_table[local_fd]`; the ASSERT refuses -1.
unfoldable pub fd_local2global : (local_fd : ℕ) → FileSystem → Outcome ℕ
fd_local2global local_fd fs = in_range (fs.fd_table local_fd)
  where
    in_range : Option ℕ → Outcome ℕ
    in_range none = panic
    in_range (some global_fd) = do assert (ltb global_fd max_file_open); ok global_fd

-- 0 is `some 0`.
pub sys_close : (fd : ℕ) → FileSystem → Outcome (Option ℕ × FileSystem)
sys_close fd fs =
    let close = do
      global ← fd_local2global fd fs
      fs' ← file_close global fs
      ok (some 0, record fs' { fd_table = update fs'.fd_table fd none })
    in if not (negative fd) && ltb 2 fd then close else ok (none, fs)

-- The inode of an open file; NULL would be followed.
abbrev pub inode_at_slot : (global : ℕ) → FileSystem → Outcome Inode
inode_at_slot global fs = elim ((fs.file_table global).fd_inode) [
  | none ↦ panic
  | some inode_no ↦ inode_of inode_no fs.volume.open_inodes
]

-- The file, its inode and the partition, put back
put_written : (global : ℕ) → FileSystem → File × Inode × Volume → FileSystem
put_written global fs (f, i, v) = record fs {
  volume = with_opens v (put_inode i v.open_inodes);
  file_table = update fs.file_table global f;
}

-- Descriptor 1 goes to the console.
pub sys_write :
    (fd : ℕ) → (buf : Bytes) → (count : ℕ) → FileSystem → Outcome (Option ℕ × FileSystem)
unfolding put_written
sys_write fd buf count fs =
    let to_file = do
      global ← fd_local2global fd fs
      let f = fs.file_table global
      let write = do
        i ← inode_at_slot global fs
        (n, f', i', v) ← file_write count buf f i fs.volume
        ok (n, put_written global fs (f', i', v))
      if writes f.fd_flag then write else ok (none, fs)
    in if negative fd then ok (none, fs) else if fd == 1 then ok (some count, fs) else to_file

-- The buffer is not NULL.
pub sys_read :
    (fd : ℕ) → (buf : Bytes) → (count : ℕ) → FileSystem → Outcome (Option ℕ × FileSystem × Bytes)
sys_read fd buf count fs =
    let from_file = do
      global ← fd_local2global fd fs
      i ← inode_at_slot global fs
      (n, f, buf') ← file_read count (fs.file_table global) i fs.volume.disk buf
      ok (n, record fs { file_table = update fs.file_table global f }, buf')
    in if negative fd then ok (none, fs, buf) else from_file

-- `enum whence`
abbrev pub seek_set : ℕ
seek_set = 1

abbrev pub seek_cur : ℕ
seek_cur = 2

-- The switch, in which 3 is what is left
unfoldable pub seek_pos : (whence offset fd_pos file_size : ℕ) → ℕ
seek_pos whence offset fd_pos file_size =
    if whence == seek_set
    then offset
    else if whence == seek_cur
    then u32 (fd_pos + offset)
    else u32 (file_size + offset)

-- `a > b` for two int32_t
abbrev pub int_gt : ℕ → ℕ → Bool
int_gt a b = ltb (u32 (b + 2 ^ 31)) (u32 (a + 2 ^ 31))

pub sys_lseek : (fd offset whence : ℕ) → FileSystem → Outcome (Option ℕ × FileSystem)
sys_lseek fd offset whence fs =
    let seek = do
      assert (ltb 0 whence && ltb whence 4)
      global ← fd_local2global fd fs
      i ← inode_at_slot global fs
      let f = fs.file_table global
      let new_pos = seek_pos whence offset f.fd_pos i.i_size
      let moved = record fs {
        file_table = update fs.file_table global (record f { fd_pos = new_pos });
      }
      if negative new_pos || int_gt new_pos (u32 (i.i_size + 2 ^ 32 - 1))
          then ok (none, fs)
          else ok (some new_pos, moved)
    in if negative fd then ok (none, fs) else seek
