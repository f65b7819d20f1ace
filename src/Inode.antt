-- ===== src/Inode.antt =====
-- fs/inode.c and inode.h: where an inode stands on the disk, and how it is written there. A disk is
-- its bytes; `ide_read` and `ide_write` of device/ide.c, which move whole sectors through ports, are
-- taken as the moves of bytes that they make.
pub mod Layout
pub mod Store
pub mod Opens
mod Tests
use os_zhenxiang.Prelude.{
  ℕ, zero, suc, ◌+◌, ◌-◌, ◌*◌, ◌/◌, ◌%◌, ◌^◌, Bool, true, false, not, ◌&&◌, Outcome, ok, panic,
  ◌>>=◌, ◌>>◌, assert, ltb, leb, ◌==◌, if◌then◌else◌, u32, List, [], ◌∷◌, Option, none, some,
}

-- `struct inode`, less the tag that links it into the list of open inodes
pub record Inode : Type 0 where
  pub i_no : ℕ
  pub i_size : ℕ
  pub i_open_cnts : ℕ
  pub write_deny : Bool
  pub i_sectors : ℕ → ℕ

-- The parts of `struct partition` and of its super block that inodes need
pub record Partition : Type 0 where
  pub start_lba : ℕ
  pub sec_cnt : ℕ
  pub inode_table_lba : ℕ

pub record InodePosition : Type 0 where
  pub two_sec : Bool
  pub sec_lba : ℕ
  pub off_size : ℕ

abbrev pub Bytes : Type 0
Bytes = ℕ → ℕ

-- `sizeof(struct inode)`
abbrev pub inode_size : ℕ
inode_size = 76

pub inode_locate : Partition → ℕ → Outcome InodePosition
inode_locate part inode_no =
    let off_size = inode_no * inode_size in
    let off_sec = off_size / 512 in
    let off_size_in_sec = off_size % 512 in
    let left_in_sec = 512 - off_size_in_sec in
    do
      assert (ltb inode_no 4096)
      ok (record {
        two_sec = ltb left_in_sec inode_size;
        sec_lba = u32 (part.inode_table_lba + off_sec);
        off_size = off_size_in_sec;
      })

-- `sec_cnt` sectors from `lba` on, read to the start of the buffer
abbrev pub ide_read : (lba sec_cnt : ℕ) → (disk buf : Bytes) → Bytes
ide_read lba sec_cnt disk buf a = if ltb a (512 * sec_cnt) then disk (512 * lba + a) else buf a

abbrev pub ide_write : (lba sec_cnt : ℕ) → (buf disk : Bytes) → Bytes
ide_write lba sec_cnt buf disk a =
    if leb (512 * lba) a && ltb a (512 * (lba + sec_cnt)) then buf (a - 512 * lba) else disk a

-- `memcpy(buf + off, src, size)`
abbrev pub copy_to : (off size : ℕ) → (src buf : Bytes) → Bytes
copy_to off size src buf a = if leb off a && ltb a (off + size) then src (a - off) else buf a

-- byte `k` of a 32-bit number in memory
abbrev pub byte_of : ℕ → ℕ → ℕ
byte_of v k = v / 256 ^ k % 256

-- The bytes of an inode whose tag is NULL; the three bytes behind `write_deny` are taken to be 0.
pub layout : Inode → Bytes
layout i k =
    if ltb k 4
    then byte_of i.i_no k
    else if ltb k 8
    then byte_of i.i_size (k - 4)
    else if ltb k 12
    then byte_of i.i_open_cnts (k - 8)
    else if k == 12
    then (if i.write_deny then 1 else 0)
    else if ltb k 16
    then 0
    else if ltb k 68
    then byte_of (i.i_sectors ((k - 16) / 4)) ((k - 16) % 4)
    else 0

-- four bytes as a number
abbrev pub number_at : Bytes → ℕ → ℕ
number_at m p = m p + 256 * m (p + 1) + 65536 * m (p + 2) + 16777216 * m (p + 3)

-- The inode that 76 bytes are
pub inode_at : Bytes → ℕ → Inode
inode_at m p = record {
  i_no = number_at m p;
  i_size = number_at m (p + 4);
  i_open_cnts = number_at m (p + 8);
  write_deny = not (m (p + 12) == 0);
  i_sectors = λ k. number_at m (p + 16 + 4 * k);
}

abbrev pub sectors_of : InodePosition → ℕ
sectors_of inode_pos = if inode_pos.two_sec then 2 else 1

-- Both branches on `two_sec`, which differ in the number of sectors
pub patch : InodePosition → (src buf disk : Bytes) → Bytes
patch inode_pos src buf disk =
    let read = ide_read inode_pos.sec_lba (sectors_of inode_pos) disk buf in
    ide_write inode_pos.sec_lba (sectors_of inode_pos)
      (copy_to inode_pos.off_size inode_size src read) disk

pub inode_sync : Partition → Inode → (io_buf disk : Bytes) → Outcome Bytes
inode_sync part inode io_buf disk =
    let inode_no = inode.i_no % 256 in
    do
      inode_pos ← inode_locate part inode_no
      assert (leb inode_pos.sec_lba (u32 (part.start_lba + part.sec_cnt)))
      let pure_inode = record inode { i_open_cnts = 0; write_deny = false }
      ok (patch inode_pos (layout pure_inode) io_buf disk)

pub inode_delete : Partition → ℕ → (io_buf disk : Bytes) → Outcome Bytes
inode_delete part inode_no io_buf disk = do
  assert (ltb inode_no 4096)
  inode_pos ← inode_locate part inode_no
  assert (leb inode_pos.sec_lba (u32 (part.start_lba + part.sec_cnt)))
  ok (patch inode_pos (λ _. 0) io_buf disk)

-- `inode_open` of an inode that is not open: what it reads, before the count is set. The memory for
-- the inode and for the buffer is there.
pub inode_read : Partition → ℕ → (buf disk : Bytes) → Outcome Inode
inode_read part inode_no buf disk = do
  inode_pos ← inode_locate part inode_no
  ok (inode_at (ide_read inode_pos.sec_lba (sectors_of inode_pos) disk buf) inode_pos.off_size)

-- a result found behind an inode of the list
unfoldable pub behind : Inode → Option (Inode × List Inode) → Option (Inode × List Inode)
behind i none = none
behind i (some (found, opens)) = some (found, i ∷ opens)

-- The list of open inodes, the one opened last first; their addresses are left out, and the number
-- of an inode stands for it.
unfoldable pub inode_find : ℕ → List Inode → Option (Inode × List Inode)
inode_find inode_no [] = none
inode_find inode_no (i ∷ opens) =
    let rest = inode_find inode_no opens in
    if i.i_no == inode_no
    then (let found = record i { i_open_cnts = u32 (i.i_open_cnts + 1) } in
        some (found, found ∷ opens))
    else behind i rest

unfoldable pub inode_open :
    Partition → ℕ → (buf disk : Bytes) → List Inode → Outcome (Inode × List Inode)
inode_open part inode_no buf disk opens = found_or_read (inode_find inode_no opens)
  where
    found_or_read : Option (Inode × List Inode) → Outcome (Inode × List Inode)
    found_or_read (some r) = ok r
    found_or_read none = do
      i ← inode_read part inode_no buf disk
      let opened = record i { i_open_cnts = 1 }
      ok (opened, opened ∷ opens)

unfoldable pub inode_close : ℕ → List Inode → List Inode
inode_close inode_no [] = []
inode_close inode_no (i ∷ opens) =
    let rest = inode_close inode_no opens in
    let cnts = u32 (i.i_open_cnts + 2 ^ 32 - 1) in
    if i.i_no == inode_no
    then (if cnts == 0 then opens else record i { i_open_cnts = cnts } ∷ opens)
    else i ∷ rest

pub inode_init : ℕ → Inode → Inode
inode_init inode_no new_inode = record {
  i_no = inode_no;
  i_size = 0;
  i_open_cnts = 0;
  write_deny = false;
  i_sectors = λ sec_idx. if ltb sec_idx 13 then 0 else new_inode.i_sectors sec_idx;
}
