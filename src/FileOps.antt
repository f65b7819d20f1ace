-- ===== src/FileOps.antt =====
-- fs/file.c: `file_create`, `file_open` and `file_close`, on the partition, the table of open files
-- and the running task's descriptors. The number of an open inode stands for its address; -1 is
-- `none`. Whether `sys_malloc` gives memory is an argument where the code tests it.
pub mod Deny
pub mod Close
mod Tests
use os_zhenxiang.Prelude.{
  ℕ, zero, suc, ◌+◌, ◌-◌, ◌*◌, ◌/◌, ◌%◌, ◌^◌, Bool, true, false, not, ◌||◌, Option, none, some,
  List, [], ◌∷◌, Outcome, ok, panic, ◌>>=◌, ◌==◌, if◌then◌else◌, test_bit, update,
}
use os_zhenxiang.Bitmap.{Bitmap, bitmap_set}
use os_zhenxiang.Inode.{Inode, inode_init, inode_open, inode_close, inode_sync}
use os_zhenxiang.FileTable.{
  File, get_free_slot_in_global, pcb_fd_install, inode_bitmap_alloc, bitmap_sync,
}
use os_zhenxiang.Volume.{Volume, zeros}
use os_zhenxiang.Dir.{ft_regular, create_dir_entry, sync_dir_entry}

pub record FileSystem : Type 0 where
  pub volume : Volume
  pub file_table : ℕ → File
  pub fd_table : ℕ → Option ℕ

-- The inode at an address; none there is a pointer into memory that has been freed.
unfoldable pub inode_of : (inode_no : ℕ) → List Inode → Outcome Inode
inode_of inode_no [] = panic
inode_of inode_no (i ∷ opens) =
    let rest = inode_of inode_no opens in if i.i_no == inode_no then ok i else rest

-- The inode changed where it stands
unfoldable pub put_inode : Inode → List Inode → List Inode
put_inode i [] = []
put_inode i (j ∷ opens) =
    let rest = put_inode i opens in if j.i_no == i.i_no then i ∷ opens else j ∷ rest

abbrev pub with_volume : FileSystem → Volume → FileSystem
with_volume fs v = record fs { volume = v }

abbrev pub with_opens : Volume → List Inode → Volume
with_opens v opens = record v { open_inodes = opens }

-- `return pcb_fd_install(fd_idx);`
unfoldable pub install : (fd_idx : ℕ) → FileSystem → Option ℕ × FileSystem
install fd_idx fs =
    let (fd, fd_table) = pcb_fd_install fd_idx fs.fd_table in
    (fd, record fs { fd_table = fd_table })

-- `case 1` of the rollback, where every other case ends
give_up : (inode_no : ℕ) → FileSystem → Outcome (Option ℕ × FileSystem)
give_up inode_no fs = do
  b ← bitmap_set fs.volume.inode_bitmap inode_no 0
  ok (none, with_volume fs (record (fs.volume) { inode_bitmap = b }))

-- After `sync_dir_entry`: `case 3`, or the steps a to e
finish_create :
    (inode_no fd_idx : ℕ)
    → Inode
    → FileSystem
    → Bool × Inode × Volume
    → Outcome (Option ℕ × FileSystem)
unfolding give_up
finish_create inode_no fd_idx new_file_inode fs (false, parent, v) =
    let closed : File = record { fd_pos = 0; fd_flag = 0; fd_inode = none } in
    give_up inode_no (record fs {
      volume = with_opens v (put_inode parent v.open_inodes);
      file_table = update fs.file_table fd_idx closed;
    })
finish_create inode_no fd_idx new_file_inode fs (true, parent, v) =
    let opens = put_inode parent v.open_inodes in
    do
      disk ← inode_sync v.part parent zeros v.disk
      disk' ← inode_sync v.part new_file_inode zeros disk
      let v' = record v {
        disk = bitmap_sync v.inode_bitmap_lba inode_no v.inode_bitmap disk';
        open_inodes = record new_file_inode { i_open_cnts = 1 } ∷ opens;
      }
      ok (install fd_idx (with_volume fs v'))

-- With a number for the inode and memory for it, and a slot of the table or none
create_in :
    (parent_no : ℕ)
    → (filename : List ℕ) → (flag inode_no : ℕ) → Option ℕ
    → FileSystem
    → Outcome (Option ℕ × FileSystem)
unfolding give_up finish_create
create_in parent_no filename flag inode_no none fs = give_up inode_no fs
create_in parent_no filename flag inode_no (some fd_idx) fs =
    let unset : Inode = record {
      i_no = 0;
      i_size = 0;
      i_open_cnts = 0;
      write_deny = false;
      i_sectors = λ _. 0;
    } in
    let slot : File = record { fd_pos = 0; fd_flag = flag; fd_inode = some inode_no } in
    do
      p_de ← create_dir_entry filename inode_no ft_regular zeros
      parent ← inode_of parent_no fs.volume.open_inodes
      r ← sync_dir_entry p_de parent fs.volume
      finish_create inode_no fd_idx (inode_init inode_no unset)
          (record fs { file_table = update fs.file_table fd_idx slot }) r

-- With a number for the inode, or none
create_numbered :
    (inode_mem : Bool)
    → (parent_no : ℕ) → (filename : List ℕ) → (flag : ℕ) → Option ℕ
    → FileSystem
    → Outcome (Option ℕ × FileSystem)
unfolding give_up create_in
create_numbered inode_mem parent_no filename flag none fs = ok (none, fs)
create_numbered inode_mem parent_no filename flag (some inode_no) fs =
    if inode_mem
    then create_in parent_no filename flag inode_no (get_free_slot_in_global fs.file_table) fs
    else give_up inode_no fs

pub file_create :
    (io_mem inode_mem : Bool)
    → (parent_no : ℕ) → (filename : List ℕ) → (flag : ℕ) → FileSystem
    → Outcome (Option ℕ × FileSystem)
unfolding create_numbered
file_create io_mem inode_mem parent_no filename flag fs =
    let rest = do
      (inode_no, b) ← inode_bitmap_alloc fs.volume.inode_bitmap
      create_numbered inode_mem parent_no filename flag inode_no
          (with_volume fs (record (fs.volume) { inode_bitmap = b }))
    in if io_mem then rest else ok (none, fs)

-- `flag & O_WRONLY || flag & O_RDWR`
abbrev pub writes : (flag : ℕ) → Bool
writes flag = test_bit flag 0 || test_bit flag 1

-- The inode is open, and its slot filled: other writers are kept out, or the call gives up.
deny_writers : (fd_idx flag : ℕ) → Inode → FileSystem → Option ℕ × FileSystem
deny_writers fd_idx flag i fs =
    let denied = record i { write_deny = true } in
    let v = with_opens fs.volume (put_inode denied fs.volume.open_inodes) in
    let taken = install fd_idx (with_volume fs v) in
    let shared = install fd_idx fs in
    if writes flag then (if i.write_deny then (none, fs) else taken) else shared

open_in : (inode_no flag : ℕ) → Option ℕ → FileSystem → Outcome (Option ℕ × FileSystem)
unfolding deny_writers
open_in inode_no flag none fs = ok (none, fs)
open_in inode_no flag (some fd_idx) fs =
    let slot : File = record { fd_pos = 0; fd_flag = flag; fd_inode = some inode_no } in
    do
      (i, opens) ← inode_open fs.volume.part inode_no zeros fs.volume.disk fs.volume.open_inodes
      ok (
          deny_writers fd_idx flag i (record fs {
            volume = with_opens fs.volume opens;
            file_table = update fs.file_table fd_idx slot;
          }))

pub file_open : (inode_no flag : ℕ) → FileSystem → Outcome (Option ℕ × FileSystem)
unfolding open_in
file_open inode_no flag fs = open_in inode_no flag (get_free_slot_in_global fs.file_table) fs

-- A slot without an inode would be a NULL pointer followed.
close_inode : (fd_idx : ℕ) → Option ℕ → FileSystem → Outcome FileSystem
close_inode fd_idx none fs = panic
close_inode fd_idx (some inode_no) fs = do
  i ← inode_of inode_no fs.volume.open_inodes
  let opens = put_inode (record i { write_deny = false }) fs.volume.open_inodes
  let closed = record (fs.file_table fd_idx) { fd_inode = none }
  ok (record fs {
    volume = with_opens fs.volume (inode_close inode_no opens);
    file_table = update fs.file_table fd_idx closed;
  })

-- The file by its slot; NULL is not passed.
pub file_close : (fd_idx : ℕ) → FileSystem → Outcome FileSystem
unfolding close_inode
file_close fd_idx fs = close_inode fd_idx (fs.file_table fd_idx).fd_inode fs
