-- ===== src/Volume.antt =====
-- A mounted partition with its super block (`struct partition` of device/ide.h, fs/super_block.h),
-- its two bitmaps and its open inodes, and what fs/file.c and fs/inode.c do with its sectors.
-- `cur_part` is the partition. Buffers come from `sys_malloc`, which clears them.
pub mod Blocks
pub mod Release
pub mod Samples
mod Tests
use os_zhenxiang.Prelude.{
  ℕ, zero, suc, ◌+◌, ◌-◌, ◌*◌, ◌/◌, ◌%◌, ◌^◌, Bool, true, false, not, ◌&&◌, Option, none, some,
  List, Outcome, ok, ◌>>=◌, ◌>>◌, assert, ltb, ◌==◌, if◌then◌else◌, u32,
}
use os_zhenxiang.Bitmap.{Bitmap, bitmap_set}
use os_zhenxiang.Inode.{
  Inode, Partition, Bytes, byte_of, number_at, ide_write, inode_open, inode_close, inode_delete,
}
use os_zhenxiang.FileTable.{block_bitmap_alloc, bitmap_sync}

pub record Volume : Type 0 where
  pub part : Partition
  pub data_start_lba : ℕ
  pub block_bitmap_lba : ℕ
  pub inode_bitmap_lba : ℕ
  pub block_bitmap : Bitmap
  pub inode_bitmap : Bitmap
  pub open_inodes : List Inode
  pub disk : Bytes

-- a buffer that has been cleared
abbrev pub zeros : Bytes
zeros a = 0

-- `block_lba - sb->data_start_lba`
abbrev pub bit_of : Volume → ℕ → ℕ
bit_of v lba = u32 (lba + 2 ^ 32 - v.data_start_lba)

-- The numbers of an array as they stand in memory, and on the disk.
abbrev pub numbers : (ℕ → ℕ) → Bytes
numbers f a = byte_of (f (a / 4)) (a % 4)

unfoldable pub write_sector : (lba : ℕ) → (buf : Bytes) → Volume → Volume
write_sector lba buf v = record v { disk = ide_write lba 1 buf v.disk }

-- `block_bitmap_alloc(cur_part)`
unfoldable pub alloc_block : Volume → Outcome (Option ℕ × Volume)
alloc_block v = do
  (block_lba, b) ← block_bitmap_alloc v.data_start_lba v.block_bitmap
  ok (block_lba, record v { block_bitmap = b })

-- `bitmap_sync(cur_part, block_bitmap_idx, BLOCK_BITMAP)`
unfoldable pub sync_block : (bit_idx : ℕ) → Volume → Volume
sync_block bit_idx v = record v {
  disk = bitmap_sync v.block_bitmap_lba bit_idx v.block_bitmap v.disk;
}

-- `bitmap_set(&part->block_bitmap, bit_idx, 0)`
unfoldable pub clear_block : (bit_idx : ℕ) → Volume → Outcome Volume
clear_block bit_idx v = do
  b ← bitmap_set v.block_bitmap bit_idx 0
  ok (record v { block_bitmap = b })

-- a block given back: `bitmap_set` and `bitmap_sync`
unfoldable pub free_block : (bit_idx : ℕ) → Volume → Outcome Volume
unfolding clear_block sync_block
free_block bit_idx v = do v' ← clear_block bit_idx v; ok (sync_block bit_idx v')

-- The array `all_blocks`: the 12 direct blocks, and from 12 on those of the indirect table, if there
-- is one.
unfoldable pub all_blocks : Inode → (disk : Bytes) → ℕ → ℕ
all_blocks i disk k =
    if ltb k 12
    then i.i_sectors k
    else if not (i.i_sectors 12 == 0) && ltb k 140
    then number_at disk (512 * i.i_sectors 12 + 4 * (k - 12))
    else 0

-- A block of the inode given back, with the ASSERT that it is not the first of the data area.
unfoldable pub release_block : (lba : ℕ) → Volume → Outcome Volume
release_block lba v = do assert (not (bit_of v lba == 0)); free_block (bit_of v lba) v

-- `while (block_idx < block_cnt)`, with the rounds left
unfoldable pub release_blocks : (left block_idx : ℕ) → (blocks : ℕ → ℕ) → Volume → Outcome Volume
release_blocks zero block_idx blocks v = ok v
release_blocks (suc left) block_idx blocks v = do
  v' ← if blocks block_idx == 0 then ok v else release_block (blocks block_idx) v
  release_blocks left (block_idx + 1) blocks v'

-- The sectors of an inode: the indirect table first, then the blocks.
unfoldable pub release_sectors : Inode → Volume → Outcome Volume
release_sectors i v =
    let blocks = all_blocks i v.disk in
    let direct = release_blocks 12 0 blocks v in
    let indirect = release_block (i.i_sectors 12) v >>= release_blocks 140 0 blocks in
    if i.i_sectors 12 == 0 then direct else indirect

pub inode_release : (inode_no : ℕ) → Volume → Outcome Volume
inode_release inode_no v = do
  (inode_to_del, opens) ← inode_open v.part inode_no zeros v.disk v.open_inodes
  assert (inode_to_del.i_no == inode_no)
  v' ← release_sectors inode_to_del (record v { open_inodes = opens })
  b ← bitmap_set v'.inode_bitmap inode_no 0
  disk ← inode_delete v'.part inode_no zeros (bitmap_sync v'.inode_bitmap_lba inode_no b v'.disk)
  ok (record v' {
    inode_bitmap = b;
    disk = disk;
    open_inodes = inode_close inode_no v'.open_inodes;
  })
