-- ===== src/FileData.antt =====
-- fs/file.c: `file_read`, on an open file, its inode and the partition; `file_write` is in Gathering
-- and Writing. -1 is `none`. `sys_malloc` gives the two buffers, cleared; what `printk` prints is left
-- out. The memory of the caller is passed from the buffer's address on.
pub mod Gathering
pub mod Writing
pub mod Chunks
pub mod Fill
pub mod Grow
pub mod Direct
pub mod Stored
pub mod Append
pub mod Write
pub mod Read
mod Tests
use os_zhenxiang.Prelude.{
  ℕ, zero, suc, ◌+◌, ◌-◌, ◌*◌, ◌/◌, ◌%◌, ◌^◌, Bool, true, false, not, ◌&&◌, Option, none, some,
  Outcome, ok, ◌>>=◌, ◌>>◌, assert, ltb, leb, ◌==◌, if◌then◌else◌, u32, update,
}
use os_zhenxiang.Inode.{Inode, Bytes, number_at, copy_to, ide_read, ide_write, inode_sync}
use os_zhenxiang.FileTable.{File}
use os_zhenxiang.Volume.{Volume, zeros, bit_of, numbers, write_sector, alloc_block, sync_block}

-- the indirect table, read into `all_blocks + 12`
abbrev pub table_of : Inode → (disk : Bytes) → ℕ → ℕ
table_of i disk k =
    if leb 12 k && ltb k 140 then number_at disk (512 * i.i_sectors 12 + 4 * (k - 12)) else 0

-- direct blocks from `lo` on, up to and with `hi`
abbrev pub direct_part : (lo hi : ℕ) → Inode → ℕ → ℕ
direct_part lo hi i k = if leb lo k && leb k hi then i.i_sectors k else 0

-- The addresses that `file_read` collects
unfoldable pub collect_blocks : (start end : ℕ) → Inode → (disk : Bytes) → Outcome (ℕ → ℕ)
collect_blocks start end i disk =
    let table = table_of i disk in
    let one = if ltb end 12 then direct_part end end i else table in
    let both =
      assert (not (i.i_sectors 12 == 0))
      >> ok (λ k. if ltb k 12 then direct_part start 11 i k else table k) in
    let indirect = assert (not (i.i_sectors 12 == 0)) >> ok table in
    if start == end
    then ok one
    else if ltb end 12
    then ok (direct_part start end i)
    else if ltb start 12
    then both
    else indirect

-- What the loop of `file_read` changes
pub record Reading : Type 0 where
  pub fd_pos : ℕ
  pub bytes_read : ℕ
  pub size_left : ℕ
  pub buf : Bytes

abbrev pub chunk : (pos size_left : ℕ) → ℕ
chunk pos size_left =
    let sec_left_bytes = 512 - pos % 512 in
    if ltb size_left sec_left_bytes then size_left else sec_left_bytes

unfoldable pub read_chunk : (blocks : ℕ → ℕ) → (disk : Bytes) → Reading → Reading
read_chunk blocks disk r =
    let chunk_size = chunk r.fd_pos r.size_left in
    let io_buf = ide_read (blocks (r.fd_pos / 512)) 1 disk zeros in
    record {
      fd_pos = u32 (r.fd_pos + chunk_size);
      bytes_read = u32 (r.bytes_read + chunk_size);
      size_left = r.size_left - chunk_size;
      buf = copy_to r.bytes_read chunk_size (λ a. io_buf (r.fd_pos % 512 + a)) r.buf;
    }

-- `while (bytes_read < size)`: a round reads a byte or more, so `size` rounds are enough.
unfoldable pub read_chunks : (fuel size : ℕ) → (blocks : ℕ → ℕ) → (disk : Bytes) → Reading → Reading
read_chunks zero size blocks disk r = r
read_chunks (suc fuel) size blocks disk r =
    let rest = read_chunks fuel size blocks disk (read_chunk blocks disk r) in
    if ltb r.bytes_read size then rest else r

-- `size` bytes, which the file has
read_bytes : (size : ℕ) → File → Inode → (disk buf : Bytes) → Outcome (Option ℕ × File × Bytes)
read_bytes size f i disk buf =
    let start = f.fd_pos / 512 in
    let end = u32 (f.fd_pos + size) / 512 in
    let reading : Reading = record {
      fd_pos = f.fd_pos;
      bytes_read = 0;
      size_left = size;
      buf = buf;
    } in
    do
      assert (ltb start 139 && ltb end 139)
      blocks ← collect_blocks start end i disk
      let r = read_chunks size size blocks disk reading
      ok (some r.bytes_read, record f { fd_pos = r.fd_pos }, r.buf)

pub file_read : (count : ℕ) → File → Inode → (disk buf : Bytes) → Outcome (Option ℕ × File × Bytes)
unfolding read_bytes
file_read count f i disk buf =
    let left = u32 (i.i_size + 2 ^ 32 - f.fd_pos) in
    let rest = read_bytes left f i disk buf in
    let all = read_bytes count f i disk buf in
    if ltb i.i_size (u32 (f.fd_pos + count))
    then (if left == 0 then ok (none, f, buf) else rest)
    else all
