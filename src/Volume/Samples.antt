-- ===== src/Volume/Samples.antt =====
-- A partition for the tests: the root directory in block 700 with one entry, the file `a` of inode 5,
-- whose data is in block 701.
use os_zhenxiang.Prelude.{refl, false, [], ◌∷◌, ◌==◌, if◌then◌else◌, arith, test_bit}
use os_zhenxiang.Bitmap.{Bitmap, bitmap_scan_test}
use os_zhenxiang.Inode.{Inode, Bytes, Partition}
use os_zhenxiang.Volume.{Volume}
use os_zhenxiang.Volume.Blocks.{VolumeIsValid, Taken}

abbrev pub part : Partition
part = record { start_lba = 1; sec_cnt = 4000; inode_table_lba = 10 }

abbrev pub two_taken : Bitmap
two_taken = record { btmp_bytes_len = 2; bits = λ i. if i == 0 then 3 else 0 }

abbrev pub root_inode : Inode
root_inode = record {
  i_no = 0;
  i_size = 24;
  i_open_cnts = 1;
  write_deny = false;
  i_sectors = λ k. if k == 0 then 700 else 0;
}

abbrev pub file_inode : Inode
file_inode = record {
  i_no = 5;
  i_size = 3;
  i_open_cnts = 1;
  write_deny = false;
  i_sectors = λ k. if k == 0 then 701 else 0;
}

-- The bytes of the entry begin at 358400, those of the file at 358912.
abbrev pub disk : Bytes
disk a =
    if a == 358400
    then b'a'
    else if a == 358416
    then 5
    else if a == 358420
    then 1
    else if a == 358913
    then 65
    else 0

abbrev pub volume : Volume
volume = record {
  part = part;
  data_start_lba = 700;
  block_bitmap_lba = 5;
  inode_bitmap_lba = 6;
  block_bitmap = two_taken;
  inode_bitmap = two_taken;
  open_inodes = root_inode ∷ file_inode ∷ [];
  disk = disk;
}

pub volume-VolumeIsValid : VolumeIsValid volume
unfolding bitmap_scan_test test_bit
volume-VolumeIsValid = record {
  bitmap = record { bytes = λ i. ground arith; small = omega arith };
  partition = record { inside = omega arith; small = omega arith };
  bits_first = omega arith;
  table_first = omega arith;
  addresses = omega arith;
  root_taken = refl;
}

pub file-Taken : Taken volume 701
unfolding bitmap_scan_test test_bit
file-Taken = record { low = omega arith; high = omega arith; set = refl }

pub root_dir-Taken : Taken volume 700
unfolding bitmap_scan_test test_bit
root_dir-Taken = record { low = omega arith; high = omega arith; set = refl }
