-- ===== src/Dir/Delete.antt =====
-- fs/dir.c: `delete_dir_entry`, `dir_read`, `dir_is_empty` and `dir_remove`.
use os_zhenxiang.Prelude.{
  ℕ, zero, suc, ◌+◌, ◌-◌, ◌*◌, Bool, true, false, not, ◌&&◌, Option, none, some, [], ◌∷◌, Outcome,
  ok, panic, ◌>>=◌, ◌>>◌, assert, ltb, leb, ◌==◌, if◌then◌else◌, u32, update,
}
use os_zhenxiang.Inode.{Inode, Bytes, copy_to, inode_sync}
use os_zhenxiang.Volume.{
  Volume, zeros, bit_of, numbers, write_sector, free_block, all_blocks, inode_release,
}
use os_zhenxiang.Dir.{
  dir_entry_size, dir_entry_cnt, ft_unknown, filename_at, i_no_at, f_type_at, same_name, sector,
  Result,
}

-- What the loop over the entries of a sector keeps
pub record SectorScan : Type 0 where
  pub is_dir_first_block : Bool
  pub cnt : ℕ
  pub dir_entry_found : Option ℕ

abbrev pub dot : ℕ
dot = b'.'

-- One entry in use: `.` marks the first block, `..` is passed over, and others count.
scan_entry : (inode_no p : ℕ) → (buf : Bytes) → SectorScan → Outcome SectorScan
scan_entry inode_no p buf s =
    let name = filename_at buf p in
    let counted = record s { cnt = s.cnt + 1 } in
    let matched =
      assert (is_none s.dir_entry_found) >> ok (record counted { dir_entry_found = some p }) in
    if same_name name (dot ∷ [])
    then ok (record s { is_dir_first_block = true })
    else if same_name name (dot ∷ dot ∷ [])
    then ok s
    else if i_no_at buf p == inode_no
    then matched
    else ok counted
  where
    is_none : Option ℕ → Bool
    is_none none = true
    is_none (some p) = false

unfoldable pub scan_entries :
    (left idx inode_no : ℕ) → (buf : Bytes) → SectorScan → Outcome SectorScan
unfolding scan_entry
scan_entries zero idx inode_no buf s = ok s
scan_entries (suc left) idx inode_no buf s = do
  s' ← if f_type_at buf (24 * idx) == ft_unknown then ok s else scan_entry inode_no (24 * idx) buf s
  scan_entries left (idx + 1) inode_no buf s'

-- `while (indirect_blocks < 140) { if (all_blocks[12] != 0) indirect_blocks++; }`, with fuel: the
-- index stays 12.
unfoldable pub count_indirect : (fuel : ℕ) → (blocks : ℕ → ℕ) → (indirect_blocks : ℕ) → Option ℕ
count_indirect zero blocks indirect_blocks = none
count_indirect (suc fuel) blocks indirect_blocks =
    let more = if blocks 12 == 0 then indirect_blocks else indirect_blocks + 1 in
    let rest = count_indirect fuel blocks more in
    if ltb indirect_blocks 140 then rest else some indirect_blocks

-- What follows the count; a loop that does not end is like the endless one of a failed ASSERT.
drop_indirect :
    Option ℕ → (block_idx : ℕ) → (blocks : ℕ → ℕ) → Inode → Volume → Outcome (Inode × Volume)
drop_indirect none block_idx blocks i v = panic
drop_indirect (some indirect_blocks) block_idx blocks i v =
    let blocks' = update blocks block_idx 0 in
    let others = ok (i, write_sector (i.i_sectors 12) (numbers (λ k. blocks' (12 + k))) v) in
    let alone = do
      v' ← free_block (bit_of v (i.i_sectors 12)) v
      ok (record i { i_sectors = update i.i_sectors 12 0 }, v')
    in do assert (leb 1 indirect_blocks); if ltb 1 indirect_blocks then others else alone

-- The sector of the last entry is given back; 141 rounds are enough for the count.
give_back : (block_idx : ℕ) → (blocks : ℕ → ℕ) → Inode → Volume → Outcome (Inode × Volume)
unfolding drop_indirect
give_back block_idx blocks i v = do
  v' ← free_block (bit_of v (blocks block_idx)) v
  if ltb block_idx 12
      then ok (record i { i_sectors = update i.i_sectors block_idx 0 }, v')
      else drop_indirect (count_indirect 141 blocks 0) block_idx blocks i v'

-- `memset(dir_entry_found, 0, dir_entry_size)` and the write of the sector
clear_entry : (p lba : ℕ) → (buf : Bytes) → Inode → Volume → Outcome (Inode × Volume)
clear_entry p lba buf i v = ok (i, write_sector lba (copy_to p dir_entry_size zeros buf) v)

-- The size is lowered and the inode stored.
shrink : Inode → Volume → Result
shrink i v =
    let i' = record i { i_size = i.i_size - dir_entry_size } in
    do
      assert (leb dir_entry_size i.i_size)
      disk ← inode_sync v.part i' zeros v.disk
      ok (true, i', record v { disk = disk })

-- What follows the scan of a sector
delete_found :
    Option ℕ
    → (block_idx : ℕ) → (blocks : ℕ → ℕ) → SectorScan
    → (buf : Bytes) → Inode
    → Volume
    → Result
    → Result
unfolding give_back clear_entry shrink
delete_found none block_idx blocks s buf i v rest = rest
delete_found (some p) block_idx blocks s buf i v rest = do
  assert (leb 1 s.cnt)
  (i', v') ←
      if s.cnt == 1 && not s.is_dir_first_block
      then give_back block_idx blocks i v
      else clear_entry p (blocks block_idx) buf i v
  shrink i' v'

unfoldable pub delete_blocks :
    (left block_idx inode_no : ℕ) → (blocks : ℕ → ℕ) → Inode → Volume → Result
unfolding delete_found
delete_blocks zero block_idx inode_no blocks i v = ok (false, i, v)
delete_blocks (suc left) block_idx inode_no blocks i v =
    let rest = delete_blocks left (block_idx + 1) inode_no blocks i v in
    let buf = sector v.disk (blocks block_idx) in
    let here = do
      s ←
          scan_entries dir_entry_cnt 0 inode_no buf
            (record { is_dir_first_block = false; cnt = 0; dir_entry_found = none })
      delete_found s.dir_entry_found block_idx blocks s buf i v rest
    in if blocks block_idx == 0 then rest else here

unfoldable pub delete_dir_entry : (inode_no : ℕ) → Inode → Volume → Result
delete_dir_entry inode_no i v = delete_blocks 140 0 inode_no (all_blocks i v.disk) i v

-- The loop over the entries of a sector in `dir_read`: the entries in use passed over count by
-- their size, until the position is reached. What is found, and the count.
unfoldable pub read_entries :
    (left idx cur_dir_entry_pos dir_pos : ℕ) → (buf : Bytes) → Outcome (Option ℕ × ℕ)
read_entries zero idx cur_dir_entry_pos dir_pos buf = ok (none, cur_dir_entry_pos)
read_entries (suc left) idx cur_dir_entry_pos dir_pos buf =
    let unused = f_type_at buf (24 * idx) == ft_unknown in
    let passed = ltb cur_dir_entry_pos dir_pos in
    let cur' = if unused then cur_dir_entry_pos else u32 (cur_dir_entry_pos + dir_entry_size) in
    let rest = read_entries left (idx + 1) cur' dir_pos buf in
    let found = assert (cur_dir_entry_pos == dir_pos) >> ok (some (24 * idx), cur_dir_entry_pos) in
    if unused then rest else if passed then rest else found

-- The entry with the position behind it, or what the rest of the blocks gives
read_or :
    Option ℕ
    → (buf : Bytes) → (dir_pos : ℕ) → Outcome (Option Bytes × ℕ)
    → Outcome (Option Bytes × ℕ)
read_or none buf dir_pos rest = rest
read_or (some p) buf dir_pos rest = ok (some (λ k. buf (p + k)), u32 (dir_pos + dir_entry_size))

-- The loop over the blocks; a step behind the array, which is not defined, is taken to stop.
unfoldable pub read_blocks :
    (left block_idx cur_dir_entry_pos dir_pos : ℕ)
    → (blocks : ℕ → ℕ) → (disk : Bytes) → Outcome (Option Bytes × ℕ)
unfolding read_or
read_blocks zero block_idx cur_dir_entry_pos dir_pos blocks disk = panic
read_blocks (suc left) block_idx cur_dir_entry_pos dir_pos blocks disk =
    let buf = sector disk (blocks block_idx) in
    let empty = read_blocks left (block_idx + 1) cur_dir_entry_pos dir_pos blocks disk in
    let here = do
      (found, cur') ← read_entries dir_entry_cnt 0 cur_dir_entry_pos dir_pos buf
      read_or found buf dir_pos (read_blocks left (block_idx + 1) cur' dir_pos blocks disk)
    in if blocks block_idx == 0 then empty else here

-- The entry, `none` for NULL, and the position after the call
pub dir_read : Inode → (dir_pos : ℕ) → (disk : Bytes) → Outcome (Option Bytes × ℕ)
dir_read i dir_pos disk =
    let rest = read_blocks 140 0 0 dir_pos (all_blocks i disk) disk in
    if ltb dir_pos i.i_size then rest else ok (none, dir_pos)

pub dir_is_empty : Inode → Bool
dir_is_empty i = i.i_size == dir_entry_size * 2

-- The ASSERTs on the sectors 1 to 12 of the child
sectors_free : (left block_idx : ℕ) → Inode → Bool
sectors_free zero block_idx i = true
sectors_free (suc left) block_idx i =
    (i.i_sectors block_idx == 0) && sectors_free left (block_idx + 1) i

-- The result of `delete_dir_entry` is not looked at.
pub dir_remove : (child : Inode) → (parent : Inode) → Volume → Outcome (Inode × Volume)
unfolding sectors_free
dir_remove child parent v = do
  assert (sectors_free 12 1 child)
  (_, parent', v') ← delete_dir_entry child.i_no parent v
  v'' ← inode_release child.i_no v'
  ok (parent', v'')
