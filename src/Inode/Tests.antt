-- ===== src/Inode/Tests.antt =====
-- A partition, inodes on it, and the theorems at them.
use os_zhenxiang.Prelude.{ℕ, ◌+◌, ◌<◌, ◌≡◌, true, false, ok, arith, if◌then◌else◌, ltb}
use os_zhenxiang.Inode.{Inode, Partition, Bytes, inode_sync, inode_read}
use os_zhenxiang.Inode.Layout.{InodeIsValid, Same}
use os_zhenxiang.Inode.Store.{
  PartitionIsValid, in_slot, pure, inode_read-inode_sync, inode_sync_misses,
}

abbrev part : Partition
part = record { start_lba = 2048; sec_cnt = 20000; inode_table_lba = 2060 }

part-PartitionIsValid : PartitionIsValid part
part-PartitionIsValid = record { inside = omega arith; small = omega arith }

-- a file of 700 bytes
abbrev file : ℕ → Inode
file inode_no = record {
  i_no = inode_no;
  i_size = 700;
  i_open_cnts = 2;
  write_deny = true;
  i_sectors = λ k. if ltb k 2 then 3000 + k else 0;
}

file-InodeIsValid : (inode_no : ℕ) → inode_no < 4096 → InodeIsValid (file inode_no)
file-InodeIsValid inode_no h = record {
  no = omega arith;
  size = omega arith;
  cnts = omega arith;
  sectors = λ k. ground arith;
}

abbrev zeros : Bytes
zeros _ = 0

inode_read-inode_sync_example :
    (disk' : Bytes) × (inode_sync part (file 13) zeros zeros ≡ ok disk')
    × ((a : ℕ) → in_slot part 13 a ≡ false → disk' a ≡ 0)
    × ((buf : Bytes)
        → (j : Inode) × (inode_read part 13 buf disk' ≡ ok j) × Same j (pure (file 13)))
inode_read-inode_sync_example =
    inode_read-inode_sync part (file 13) zeros zeros part-PartitionIsValid
      (file-InodeIsValid 13 (omega arith)) (omega arith)

inode_sync_misses_example :
    (disk' : Bytes) × (inode_sync part (file 300) zeros zeros ≡ ok disk')
    × ((a : ℕ) → in_slot part 300 a ≡ true → disk' a ≡ 0)
    × ((buf : Bytes)
        → (j : Inode) × (inode_read part 44 buf disk' ≡ ok j) × Same j (pure (file 300)))
inode_sync_misses_example =
    inode_sync_misses part (file 300) zeros zeros part-PartitionIsValid
      (file-InodeIsValid 300 (omega arith)) (omega arith)
