-- ===== src/Fs/Tree.antt =====
-- fs/fs.c: the calls on directories, and `sys_unlink`, `sys_chdir` and `sys_stat`.
use os_zhenxiang.Prelude.{
  ℕ, zero, suc, ◌+◌, ◌*◌, Bool, true, false, not, ◌||◌, Option, none, some, List, [], ◌∷◌, Outcome,
  ok, ◌>>=◌, ◌>>◌, assert, ltb, ◌==◌, if◌then◌else◌, length,
}
use os_zhenxiang.Bitmap.{bitmap_set}
use os_zhenxiang.Inode.{Inode, Bytes, byte_of, copy_to, inode_init, inode_sync}
use os_zhenxiang.FileTable.{File, inode_bitmap_alloc, bitmap_sync, max_file_open}
use os_zhenxiang.Volume.{
  Volume, zeros, bit_of, write_sector, alloc_block, sync_block, inode_release,
}
use os_zhenxiang.Dir.{dir_entry_size, ft_directory, create_dir_entry, sync_dir_entry}
use os_zhenxiang.Dir.Delete.{delete_dir_entry}
use os_zhenxiang.FileOps.{FileSystem, inode_of, put_inode, with_opens}
use os_zhenxiang.Fs.{DirRef, dir_no, dir_close, SearchRecord, search_file}
use os_zhenxiang.Fs.Open.{Chance, depth_differs, after_slash}

-- `fd_inode != NULL && inode_no == fd_inode->i_no`
is_open : (inode_no : ℕ) → File → Bool
is_open inode_no f = elim (f.fd_inode) [ none ↦ false | some n ↦ inode_no == n ]

-- The loop over the table of open files
unfoldable pub in_use : (left file_idx inode_no : ℕ) → (file_table : ℕ → File) → Bool
unfolding is_open
in_use zero file_idx inode_no file_table = false
in_use (suc left) file_idx inode_no file_table =
    is_open inode_no (file_table file_idx) || in_use left (file_idx + 1) inode_no file_table

-- The entry deleted from the parent, and the inode given back; the result of the first is not used.
unfoldable pub unlink_in : (parent_no inode_no : ℕ) → Volume → Outcome Volume
unlink_in parent_no inode_no v = do
  parent ← inode_of parent_no v.open_inodes
  (_, parent', v') ← delete_dir_entry inode_no parent v
  inode_release inode_no (with_opens v' (put_inode parent' v'.open_inodes))

-- `sys_unlink` after the search
unfoldable pub unlink_found :
    Option ℕ → SearchRecord → (file_table : ℕ → File) → Volume → Outcome (Option ℕ × Volume)
unlink_found none r file_table v = ok (none, dir_close r.parent_dir v)
unlink_found (some inode_no) r file_table v =
    let refused = ok (none, dir_close r.parent_dir v) in
    let unlink = do
      v' ← unlink_in (dir_no r.parent_dir) inode_no v
      ok (some 0, dir_close r.parent_dir v')
    in do
      assert (not (inode_no == 0))
      if r.file_type == ft_directory
          then refused
          else if in_use max_file_open 0 inode_no file_table
          then refused
          else unlink

-- There is memory for the buffer.
unfoldable pub sys_unlink :
    (garbage : ℕ) → (pathname : List ℕ) → FileSystem → Outcome (Option ℕ × FileSystem)
sys_unlink garbage pathname fs = do
  assert (ltb (length pathname) 512)
  (inode_no, r, v) ← search_file garbage pathname fs.volume
  (ret, v') ← unlink_found inode_no r fs.file_table v
  ok (ret, record fs { volume = v' })

-- one entry in a cleared buffer
entry_at : (p : ℕ) → (name : List ℕ) → (inode_no : ℕ) → (buf : Bytes) → Bytes
entry_at p name inode_no buf =
    copy_to (p + 20) 4 (byte_of ft_directory)
      (copy_to (p + 16) 4 (byte_of inode_no) (copy_to p (length name) (name_byte name) buf))
  where
    name_byte : List ℕ → ℕ → ℕ
    name_byte [] k = 0
    name_byte (c ∷ cs) zero = c
    name_byte (c ∷ cs) (suc k) = name_byte cs k

-- The sector with `.` and `..`
first_entries : (inode_no parent_no : ℕ) → Bytes
unfolding entry_at
first_entries inode_no parent_no =
    entry_at 24 (b'.' ∷ b'.' ∷ []) parent_no (entry_at 0 (b'.' ∷ []) inode_no zeros)

-- `case 2` of the rollback: the block is not given back.
undo_mkdir : (inode_no : ℕ) → DirRef → Volume → Outcome (Option ℕ × Volume)
undo_mkdir inode_no parent_dir v = do
  b ← bitmap_set v.inode_bitmap inode_no 0
  ok (none, dir_close parent_dir (record v { inode_bitmap = b }))

-- What follows the entry in the parent
finish_mkdir : (inode_no : ℕ) → Inode → DirRef → Bool × Inode × Volume → Outcome (Option ℕ × Volume)
unfolding undo_mkdir
finish_mkdir inode_no new_dir_inode parent_dir (false, parent, v) =
    undo_mkdir inode_no parent_dir (with_opens v (put_inode parent v.open_inodes))
finish_mkdir inode_no new_dir_inode parent_dir (true, parent, v) = do
  disk ← inode_sync v.part parent zeros v.disk
  disk' ← inode_sync v.part new_dir_inode zeros disk
  let v' = record v {
    disk = bitmap_sync v.inode_bitmap_lba inode_no v.inode_bitmap disk';
    open_inodes = put_inode parent v.open_inodes;
  }
  ok (some 0, dir_close parent_dir v')

-- With a block for the new directory, or none
mkdir_block :
    (inode_no : ℕ) → (dirname : List ℕ) → DirRef → Option ℕ → Volume → Outcome (Option ℕ × Volume)
unfolding undo_mkdir finish_mkdir first_entries
mkdir_block inode_no dirname parent_dir none v = undo_mkdir inode_no parent_dir v
mkdir_block inode_no dirname parent_dir (some block_lba) v =
    let unset : Inode = record {
      i_no = 0;
      i_size = 0;
      i_open_cnts = 0;
      write_deny = false;
      i_sectors = λ _. 0;
    } in
    let synced = sync_block (bit_of v block_lba) v in
    let entries = first_entries inode_no (dir_no parent_dir) in
    let new_dir_inode = record (inode_init inode_no unset) {
      i_size = 2 * dir_entry_size;
      i_sectors = λ k. if k == 0 then block_lba else 0;
    } in
    do
      assert (not (bit_of v block_lba == 0))
      p_de ← create_dir_entry dirname inode_no ft_directory zeros
      parent ← inode_of (dir_no parent_dir) synced.open_inodes
      r ← sync_dir_entry p_de parent (write_sector block_lba entries synced)
      finish_mkdir inode_no new_dir_inode parent_dir r

-- With a number for the inode, or none
mkdir_numbered : (dirname : List ℕ) → DirRef → Option ℕ → Volume → Outcome (Option ℕ × Volume)
unfolding mkdir_block
mkdir_numbered dirname parent_dir none v = ok (none, dir_close parent_dir v)
mkdir_numbered dirname parent_dir (some inode_no) v = do
  (block_lba, v') ← alloc_block v
  mkdir_block inode_no dirname parent_dir block_lba v'

-- `sys_mkdir` after the search
mkdir_searched :
    Chance → (pathname : List ℕ) → Option ℕ × SearchRecord × Volume → Outcome (Option ℕ × Volume)
unfolding mkdir_numbered
mkdir_searched c pathname (some inode_no, r, v) = ok (none, dir_close r.parent_dir v)
mkdir_searched c pathname (none, r, v) =
    let make = do
      (inode_no, b) ← inode_bitmap_alloc v.inode_bitmap
      mkdir_numbered (after_slash [] r.searched_path) r.parent_dir inode_no
          (record v { inode_bitmap = b })
    in do
      differs ← depth_differs c.garbage pathname r.searched_path
      if differs then ok (none, dir_close r.parent_dir v) else make

pub sys_mkdir : Chance → (pathname : List ℕ) → Volume → Outcome (Option ℕ × Volume)
unfolding mkdir_searched
sys_mkdir c pathname v =
    let rest = do r ← search_file c.garbage pathname v; mkdir_searched c pathname r
    in if c.io_mem then rest else ok (none, v)
