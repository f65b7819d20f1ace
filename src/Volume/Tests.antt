-- ===== src/Volume/Tests.antt =====
-- The blocks of a file of the sample partition given back.
use os_zhenxiang.Prelude.{◌≡◌, refl, false, ok}
use os_zhenxiang.Volume.{Volume, all_blocks, release_sectors}
use os_zhenxiang.Volume.Release.{Freed, has_bit, inode_bit, release_sectors_lem}
use os_zhenxiang.Volume.Samples.{volume, volume-VolumeIsValid, file_inode}

-- The file has no block with the bit 0.
bit_0 : inode_bit file_inode volume 0 ≡ false
unfolding inode_bit has_bit all_blocks
bit_0 = refl

release_sectors_lem_example :
    (v' : Volume) × (release_sectors file_inode volume ≡ ok v')
    × Freed (inode_bit file_inode volume) volume v'
release_sectors_lem_example =
    release_sectors_lem file_inode volume volume-VolumeIsValid.bitmap bit_0
