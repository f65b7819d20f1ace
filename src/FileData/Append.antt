-- ===== src/FileData/Append.antt =====
-- What `file_write` stores, for a file that stays within its direct blocks.
use os_zhenxiang.Prelude.{ℕ, ◌+◌, ◌≡◌, some, ok}
use os_zhenxiang.Inode.{Inode, Bytes}
use os_zhenxiang.FileTable.{File}
use os_zhenxiang.Volume.{Volume}
use os_zhenxiang.Volume.Blocks.{VolumeIsValid}
use os_zhenxiang.FileData.Writing.{Writing, file_write}
use os_zhenxiang.FileData.Direct.{FileIsValid}
use os_zhenxiang.FileData.Stored.{Stored}

-- the loop's start after the blocks have been collected
abbrev with_disk : Volume → Bytes → Volume
with_disk v disk = record v { disk = disk }

-- What the theorem below states of a run
abbrev pub Appends : (count : ℕ) → (src : Bytes) → File → Inode → Volume → Type 0
Appends count src f i v =
    (f' : File) × (i' : Inode) × (v' : Volume) × (file_write count src f i v
      ≡ ok (some count, f', i', v'))
    × (i'.i_size ≡ i.i_size + count)
    × Stored count src v i i' v'.disk
    × FileIsValid v' i'
    × VolumeIsValid v'
