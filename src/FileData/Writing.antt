-- ===== src/FileData/Writing.antt =====
-- fs/file.c: `file_write` from line 400 on, where the data is written, and the whole of it.
use os_zhenxiang.Prelude.{
  ℕ, zero, suc, ◌+◌, ◌-◌, ◌/◌, ◌%◌, ◌^◌, Bool, true, false, Option, none, some, Outcome, ok, ◌>>=◌,
  ◌>>◌, assert, ltb, leb, if◌then◌else◌, u32,
}
use os_zhenxiang.Inode.{Inode, Bytes, copy_to, ide_read, ide_write, inode_sync}
use os_zhenxiang.FileTable.{File}
use os_zhenxiang.Volume.{Volume, zeros}
use os_zhenxiang.FileData.{chunk}
use os_zhenxiang.FileData.Gathering.{Gather, first_block, gather_blocks}

-- What the loop of `file_write` changes
pub record Writing : Type 0 where
  pub i_size : ℕ
  pub bytes_written : ℕ
  pub size_left : ℕ
  pub first_write_block : Bool
  pub disk : Bytes

unfoldable pub write_chunk : (blocks : ℕ → ℕ) → (src : Bytes) → Writing → Writing
write_chunk blocks src w =
    let chunk_size = chunk w.i_size w.size_left in
    let sec_lba = blocks (w.i_size / 512) in
    let io_buf = if w.first_write_block then ide_read sec_lba 1 w.disk zeros else zeros in
    let filled = copy_to (w.i_size % 512) chunk_size (λ a. src (w.bytes_written + a)) io_buf in
    record {
      i_size = u32 (w.i_size + chunk_size);
      bytes_written = u32 (w.bytes_written + chunk_size);
      size_left = w.size_left - chunk_size;
      first_write_block = false;
      disk = ide_write sec_lba 1 filled w.disk;
    }

-- `while (bytes_written < count)`: a round writes a byte or more, so `count` rounds are enough.
unfoldable pub write_chunks :
    (fuel count : ℕ) → (blocks : ℕ → ℕ) → (src : Bytes) → Writing → Writing
write_chunks zero count blocks src w = w
write_chunks (suc fuel) count blocks src w =
    let rest = write_chunks fuel count blocks src (write_chunk blocks src w) in
    if ltb w.bytes_written count then rest else w

-- What `file_write` returns: the number of bytes, with the file, its inode and the partition
abbrev pub Written : Type 0
Written = Outcome (Option ℕ × File × Inode × Volume)

-- The data written to the blocks, and the inode stored; false is a failed allocation.
unfoldable pub write_data : (count : ℕ) → (src : Bytes) → File → Bool × Gather → Written
write_data count src f (false, g) = ok (none, f, g.inode, g.volume)
write_data count src f (true, g) =
    let f' = record f { fd_pos = u32 (g.inode.i_size + 2 ^ 32 - 1) } in
    let w = write_chunks count count g.blocks src (record {
      i_size = g.inode.i_size;
      bytes_written = 0;
      size_left = count;
      first_write_block = true;
      disk = g.volume.disk;
    }) in
    let i = record (g.inode) { i_size = w.i_size } in
    do
      disk ← inode_sync g.volume.part i zeros w.disk
      ok (some w.bytes_written, f', i, record (g.volume) { disk = disk })

-- A file with a first block
unfoldable pub write_on : (count : ℕ) → (src : Bytes) → File → Bool × Inode × Volume → Written
unfolding write_data
write_on count src f (false, i, v) = ok (none, f, i, v)
write_on count src f (true, i, v) =
    let used = i.i_size / 512 + 1 in
    let will = u32 (i.i_size + count) / 512 + 1 in
    do
      assert (leb will 140)
      r ← gather_blocks used will (record { blocks = λ _. 0; inode = i; volume = v })
      write_data count src f r

unfoldable pub file_write : (count : ℕ) → (src : Bytes) → File → Inode → Volume → Written
unfolding write_on
file_write count src f i v =
    let rest = first_block i v >>= write_on count src f in
    if ltb 71680 (u32 (i.i_size + count)) then ok (none, f, i, v) else rest
