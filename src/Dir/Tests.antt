-- ===== src/Dir/Tests.antt =====
-- The theorems about directories at a root directory with one entry.
use os_zhenxiang.Prelude.{
  ℕ, zero, suc, ◌<◌, ◌≡◌, ◌≢◌, refl, true, false, none, some, List, [], ◌∷◌, ok, ◌==◌,
  if◌then◌else◌, arith, test_bit,
}
use os_zhenxiang.Inode.{Inode, Bytes}
use os_zhenxiang.Volume.{Volume, zeros, all_blocks}
use os_zhenxiang.Bitmap.{bitmap_scan_test}
use os_zhenxiang.Bitmap.Count.{clear_bits}
use os_zhenxiang.Volume.Blocks.{Taken, free_blocks}
use os_zhenxiang.Volume.Samples.{volume, volume-VolumeIsValid, root_inode, root_dir-Taken, disk}
use os_zhenxiang.Dir.{
  filename_at, i_no_at, f_type_at, same_name, chars_at, search_dir_entry, search_blocks,
  search_sector, create_dir_entry, sync_dir_entry, direct_blocks,
}
use os_zhenxiang.Dir.Delete.{count_indirect}
use os_zhenxiang.Dir.Lookup.{slot, Finds, search_dir_entry_lem}
use os_zhenxiang.Dir.Entry.{create_dir_entry_lem, count_indirect_lem}
use os_zhenxiang.Dir.Inserted.{DirIsValid}
use os_zhenxiang.Dir.Found.{SameEntry}
use os_zhenxiang.Dir.RoundTrip.{Cleared, search_dir_entry-sync_dir_entry}

search_dir_entry_lem_example :
    Finds
      (all_blocks root_inode disk)
      disk
      (b'a' ∷ [])
      0
      140
      (search_dir_entry root_inode (b'a' ∷ []) disk)
search_dir_entry_lem_example = search_dir_entry_lem root_inode b'a' [] disk

create_dir_entry_lem_example :
    (p_de : Bytes) × (create_dir_entry (b'b' ∷ b'c' ∷ []) 300 1 zeros ≡ ok p_de)
    × (filename_at p_de 0 ≡ b'b' ∷ b'c' ∷ [])
    × (i_no_at p_de 0 ≡ 300)
    × (f_type_at p_de 0 ≡ 1)
create_dir_entry_lem_example =
    create_dir_entry_lem (b'b' ∷ b'c' ∷ []) 300 1 (omega arith) (omega arith) (omega arith)
      (omega arith)

count_indirect_lem_example : count_indirect 141 (λ k. if k == 12 then 900 else 0) 0 ≡ some 140
count_indirect_lem_example = count_indirect_lem 141 (λ k. if k == 12 then 900 else 0)

root_inode-DirIsValid : DirIsValid volume root_inode
root_inode-DirIsValid = record {
  taken = first;
  apart = λ j k hj hk h e. ground (arith, h, e);
  no_table = refl;
  whole = refl;
}
  where
    first : (k : ℕ) → k < 12 → root_inode.i_sectors k ≢ 0 → Taken volume (root_inode.i_sectors k)
    first zero h ne = root_dir-Taken
    first (suc k) h ne = absurd (ne (ground arith))

-- an entry for the file `b` of inode 6
abbrev entry_b : Bytes
entry_b k = if k == 0 then b'b' else if k == 16 then 6 else if k == 20 then 1 else 0

-- A string whose first byte is 0 is empty.
empty_name : (m : Bytes) → m 0 ≡ 0 → filename_at m 0 ≡ []
unfolding filename_at chars_at
empty_name m z = rw z refl

cleared : Cleared volume root_inode
cleared zero zero hk hj e = cc e
cleared zero (suc j) hk hj e =
    empty_name (slot (direct_blocks root_inode) disk 0 (suc j)) (ground (arith, hj))
cleared (suc k) j hk hj e =
    empty_name (slot (direct_blocks root_inode) disk (suc k) j) (ground arith)

entry_b-named : filename_at entry_b 0 ≡ b'b' ∷ []
unfolding filename_at chars_at
entry_b-named = refl

b_absent : search_dir_entry root_inode (b'b' ∷ []) volume.disk ≡ none
unfolding search_dir_entry search_blocks search_sector same_name filename_at chars_at all_blocks
b_absent = refl

some_free : 0 < free_blocks volume
unfolding clear_bits bitmap_scan_test test_bit
some_free = omega arith

search_dir_entry-sync_dir_entry_example :
    (i' : Inode) × (v' : Volume) × (e : Bytes) × (sync_dir_entry entry_b root_inode volume
      ≡ ok (true, i', v'))
    × (search_dir_entry i' (b'b' ∷ []) v'.disk ≡ some e)
    × ((m : ℕ) → m < 24 → e m ≡ entry_b m)
    × ((d : ℕ) (ds : List ℕ)
        → same_name (b'b' ∷ []) (d ∷ ds) ≡ false
        → SameEntry
            (search_dir_entry root_inode (d ∷ ds) volume.disk)
            (search_dir_entry i' (d ∷ ds) v'.disk))
search_dir_entry-sync_dir_entry_example =
    search_dir_entry-sync_dir_entry b'b' [] 1 entry_b volume root_inode volume-VolumeIsValid
      root_inode-DirIsValid cleared some_free (omega arith) refl entry_b-named b_absent
