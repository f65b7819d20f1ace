-- ===== src/Dir.antt =====
-- fs/dir.c: directories, whose sectors hold entries of 24 bytes. A name is its characters up to the
-- 0 byte, and `strcmp` of two strings is the comparison of their characters. What `printk` prints is
-- left out, and `sys_malloc` gives the buffers. A directory is passed by its inode.
pub mod Lookup
pub mod Changed
pub mod Inserted
pub mod Insert
pub mod Found
pub mod RoundTrip
pub mod Entry
pub mod Delete
mod Tests
use os_zhenxiang.Prelude.{
  ℕ, zero, suc, ◌+◌, ◌-◌, ◌*◌, ◌/◌, ◌%◌, ◌^◌, Bool, true, false, not, ◌&&◌, ◌||◌, Option, none,
  some, List, [], ◌∷◌, Outcome, ok, panic, ◌>>=◌, ◌>>◌, assert, ltb, leb, ◌==◌, if◌then◌else◌, u32,
  update, length, get_or,
}
use os_zhenxiang.Inode.{Inode, Bytes, byte_of, number_at, copy_to, ide_read, inode_sync}
use os_zhenxiang.Volume.{
  Volume, zeros, bit_of, numbers, write_sector, alloc_block, sync_block, clear_block, free_block,
  all_blocks, inode_release,
}

-- `sizeof(struct dir_entry)`, which `partition_format` puts into the super block
abbrev pub dir_entry_size : ℕ
dir_entry_size = 24

-- `SECTOR_SIZE / dir_entry_size`
abbrev pub dir_entry_cnt : ℕ
dir_entry_cnt = 21

-- `enum file_types`
abbrev pub ft_unknown : ℕ
ft_unknown = 0

abbrev pub ft_regular : ℕ
ft_regular = 1

abbrev pub ft_directory : ℕ
ft_directory = 2

-- the characters of a string, up to the 0 byte
unfoldable pub chars_at : (left p : ℕ) → Bytes → List ℕ
chars_at zero p m = []
chars_at (suc left) p m = let rest = m p ∷ chars_at left (p + 1) m in if m p == 0 then [] else rest

-- The fields of the entry at a place. A name of 16 characters runs on into the bytes of `i_no`.
unfoldable pub filename_at : Bytes → ℕ → List ℕ
unfolding chars_at
filename_at buf p = chars_at 24 p buf

abbrev pub i_no_at : Bytes → ℕ → ℕ
i_no_at buf p = number_at buf (p + 16)

abbrev pub f_type_at : Bytes → ℕ → ℕ
f_type_at buf p = number_at buf (p + 20)

-- `!strcmp(a, b)`
unfoldable pub same_name : List ℕ → List ℕ → Bool
same_name [] [] = true
same_name [] (b ∷ bs) = false
same_name (a ∷ as') [] = false
same_name (a ∷ as') (b ∷ bs) = (a == b) && same_name as' bs

-- The loop over the entries of a sector in `search_dir_entry`: where the entry found begins
unfoldable pub search_sector : (left idx : ℕ) → (name : List ℕ) → (buf : Bytes) → Option ℕ
search_sector zero idx name buf = none
search_sector (suc left) idx name buf =
    let rest = search_sector left (idx + 1) name buf in
    if same_name (filename_at buf (24 * idx)) name then some (24 * idx) else rest

-- the sector read into a buffer
abbrev pub sector : (disk : Bytes) → (lba : ℕ) → Bytes
sector disk lba = ide_read lba 1 disk zeros

-- The 24 bytes copied to `dir_e`, or what the rest of the blocks gives
entry_or : Option ℕ → (buf : Bytes) → Option Bytes → Option Bytes
entry_or none buf rest = rest
entry_or (some p) buf rest = some (λ k. buf (p + k))

-- The loop over the blocks
unfoldable pub search_blocks :
    (left block_idx : ℕ) → (blocks : ℕ → ℕ) → (name : List ℕ) → (disk : Bytes) → Option Bytes
unfolding entry_or
search_blocks zero block_idx blocks name disk = none
search_blocks (suc left) block_idx blocks name disk =
    let rest = search_blocks left (block_idx + 1) blocks name disk in
    let buf = sector disk (blocks block_idx) in
    if blocks block_idx == 0
    then rest
    else entry_or (search_sector dir_entry_cnt 0 name buf) buf rest

-- The entry, if the result is true
unfoldable pub search_dir_entry : Inode → (name : List ℕ) → (disk : Bytes) → Option Bytes
search_dir_entry i name disk = search_blocks 140 0 (all_blocks i disk) name disk

-- `file_type` is a uint8_t.
unfoldable pub create_dir_entry :
    (filename : List ℕ) → (inode_no file_type : ℕ) → (p_de : Bytes) → Outcome Bytes
create_dir_entry filename inode_no file_type p_de = do
  assert (leb (length filename) 16)
  let named = copy_to 0 (length filename) (λ k. get_or filename k 0) p_de
  ok (copy_to 20 4 (byte_of (file_type % 2 ^ 8)) (copy_to 16 4 (byte_of inode_no) named))

-- What `sync_dir_entry` and `delete_dir_entry` return, with the directory's inode and the partition
abbrev pub Result : Type 0
Result = Outcome (Bool × Inode × Volume)

pub grow : Inode → Inode
grow i = record i { i_size = u32 (i.i_size + dir_entry_size) }

-- The entry alone in the new block
pub place_new : (lba : ℕ) → (p_de : Bytes) → Inode → Volume → Result
unfolding grow
place_new lba p_de i v = ok (true, grow i, write_sector lba (copy_to 0 dir_entry_size p_de zeros) v)

pub sector_is : (k lba : ℕ) → Inode → Inode
sector_is k lba i = record i { i_sectors = update i.i_sectors k lba }

-- The second block, behind a new indirect table; without one the table's bit is cleared again.
indirect_block : Option ℕ → (blocks : ℕ → ℕ) → (p_de : Bytes) → Inode → Volume → Result
unfolding sector_is place_new
indirect_block none blocks p_de i v = do
  v' ← clear_block (bit_of v (i.i_sectors 12)) v
  ok (false, sector_is 12 0 i, v')
indirect_block (some block_lba) blocks p_de i v = do
  assert (not (bit_of v block_lba == 2 ^ 32 - 1))
  let blocks' = update blocks 12 block_lba
  place_new block_lba p_de i (
      write_sector (i.i_sectors 12) (numbers (λ k. blocks' (12 + k)))
        (sync_block (bit_of v block_lba) v))

-- The three cases of a block that is not there
pub new_block :
    Option ℕ → (block_idx : ℕ) → (blocks : ℕ → ℕ) → (p_de : Bytes) → Inode → Volume → Result
unfolding sector_is place_new indirect_block
new_block none block_idx blocks p_de i v = ok (false, i, v)
new_block (some block_lba) block_idx blocks p_de i v =
    let synced = sync_block (bit_of v block_lba) v in
    let blocks' = update blocks block_idx block_lba in
    do
      assert (not (bit_of v block_lba == 2 ^ 32 - 1))
      if ltb block_idx 12
          then place_new block_lba p_de (sector_is block_idx block_lba i) synced
          else if block_idx == 12
          then (do
            (second, v') ← alloc_block synced
            indirect_block second blocks p_de (sector_is 12 block_lba i) v')
          else place_new block_lba p_de i
              (write_sector (i.i_sectors 12) (numbers (λ k. blocks' (12 + k))) synced)

-- The first entry of a sector that is not used
unfoldable pub free_entry : (left idx : ℕ) → (buf : Bytes) → Option ℕ
free_entry zero idx buf = none
free_entry (suc left) idx buf =
    let rest = free_entry left (idx + 1) buf in
    if f_type_at buf (24 * idx) == ft_unknown then some (24 * idx) else rest

-- The entry put into a sector that is there, or what the rest of the blocks gives
pub place : Option ℕ → (lba : ℕ) → (p_de buf : Bytes) → Inode → Volume → Result → Result
unfolding grow
place none lba p_de buf i v rest = rest
place (some p) lba p_de buf i v rest =
    ok (true, grow i, write_sector lba (copy_to p dir_entry_size p_de buf) v)

unfoldable pub sync_blocks :
    (left block_idx : ℕ) → (blocks : ℕ → ℕ) → (p_de : Bytes) → Inode → Volume → Result
unfolding new_block place
sync_blocks zero block_idx blocks p_de i v = ok (false, i, v)
sync_blocks (suc left) block_idx blocks p_de i v =
    let rest = sync_blocks left (block_idx + 1) blocks p_de i v in
    let buf = sector v.disk (blocks block_idx) in
    let found = place (free_entry dir_entry_cnt 0 buf) (blocks block_idx) p_de buf i v rest in
    let new = do (block_lba, v') ← alloc_block v; new_block block_lba block_idx blocks p_de i v'
    in if blocks block_idx == 0 then new else found

-- The direct blocks alone, which is all that `sync_dir_entry` puts into its array
abbrev pub direct_blocks : Inode → ℕ → ℕ
direct_blocks i k = if ltb k 12 then i.i_sectors k else 0

unfoldable pub sync_dir_entry : (p_de : Bytes) → Inode → Volume → Result
unfolding sync_blocks
sync_dir_entry p_de i v = do
  assert (i.i_size % dir_entry_size == 0)
  sync_blocks 140 0 (direct_blocks i) p_de i v
