-- ===== src/FileData/Tests.antt =====
-- The theorems about `file_read` and `file_write` at a file of three bytes.
use os_zhenxiang.Prelude.{◌+◌, ◌≡◌, refl, some, ok, arith}
use os_zhenxiang.Inode.{Inode, Bytes}
use os_zhenxiang.FileTable.{File}
use os_zhenxiang.Volume.{Volume, zeros, all_blocks}
use os_zhenxiang.Volume.Samples.{file_inode, disk}
use os_zhenxiang.FileData.{file_read}
use os_zhenxiang.FileData.Read.{Holds, file_byte, file_read_lem}

abbrev at_start : File
at_start = record { fd_pos = 0; fd_flag = 2; fd_inode = some 5 }

abbrev at_end : File
at_end = record { fd_pos = 3; fd_flag = 0; fd_inode = some 5 }

abbrev letters : Bytes
letters a = 97 + a

file_read_lem_example :
    (buf' : Bytes) × (file_read 8 at_start file_inode disk zeros
      ≡ ok (some 3, record at_start { fd_pos = 3 }, buf'))
    × Holds 3 0 file_inode disk zeros buf'
file_read_lem_example =
    file_read_lem 8 at_start file_inode disk zeros (omega arith) (omega arith) (omega arith)
      (λ h. absurd (omega (arith, h)))

-- The second byte of the file is 65.
second_byte : file_byte file_inode disk 1 ≡ 65
unfolding all_blocks
second_byte = refl
