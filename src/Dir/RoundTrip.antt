-- ===== src/Dir/RoundTrip.antt =====
-- What `search_dir_entry` finds after `sync_dir_entry`.
use os_zhenxiang.Prelude.{
  ℕ, ◌%◌, ◌<◌, ◌≡◌, ◌∙◌, ap, subst, true, false, none, some, List, [], ◌∷◌, ok, ◌==◌, arith,
}
use os_zhenxiang.Inode.{Inode, Bytes}
use os_zhenxiang.Volume.{Volume}
use os_zhenxiang.Volume.Blocks.{VolumeIsValid, free_blocks}
use os_zhenxiang.Dir.{
  f_type_at, filename_at, same_name, direct_blocks, sync_dir_entry, search_dir_entry,
}
use os_zhenxiang.Dir.Lookup.{slot, Finds, search_dir_entry_lem}
use os_zhenxiang.Dir.Insert.{sync_blocks-Inserted}
use os_zhenxiang.Dir.Inserted.{DirIsValid, Inserted}
use os_zhenxiang.Dir.Found.{all_blocks-direct, same_name_refl, SameEntry, found_new, found_other}

-- An entry that is not used has no name.
abbrev pub Cleared : Volume → Inode → Type 0
Cleared v i =
    (k j : ℕ)
    → k < 12
    → j < 21
    → f_type_at (slot (direct_blocks i) v.disk k j) 0 ≡ 0
    → filename_at (slot (direct_blocks i) v.disk k j) 0 ≡ []

-- A search in a directory without an indirect table
Finds-direct :
    (i : Inode) (v : Volume) (c : ℕ) (cs : List ℕ)
    → i.i_sectors 12 ≡ 0
    → Finds (direct_blocks i) v.disk (c ∷ cs) 0 140 (search_dir_entry i (c ∷ cs) v.disk)
Finds-direct i v c cs no_table =
    subst (λ f. Finds f v.disk (c ∷ cs) 0 140 (search_dir_entry i (c ∷ cs) v.disk))
      (all_blocks-direct i v.disk no_table) (search_dir_entry_lem i c cs v.disk)

sync_dir_entry-Inserted :
    (room : ℕ) (p_de : Bytes) (v : Volume) (i : Inode)
    → VolumeIsValid v
    → DirIsValid v i
    → 0 < free_blocks v
    → room < 12
    → i.i_sectors room ≡ 0
    → (i' : Inode) × (v' : Volume) × (sync_dir_entry p_de i v ≡ ok (true, i', v'))
      × Inserted p_de v i v' i'
unfolding sync_dir_entry
sync_dir_entry-Inserted room p_de v i vv valid free low missing =
    let whole : (i.i_size % 24 == 0) ≡ true = ground (arith, valid.whole) in
    let (i', v', e, inserted) =
      sync_blocks-Inserted 140 0 room p_de v i vv valid free missing low (omega arith)
        (omega arith) in
    (i', v', rw whole e, inserted)

module _ (c : ℕ) (cs : List ℕ) (p_de : Bytes) (v v' : Volume) (i i' : Inode)
    (valid : DirIsValid v i) (inserted : Inserted p_de v i v' i')
    (named : filename_at p_de 0 ≡ c ∷ cs) where
  old_and_new : inserted.block < 140
  old_and_new = omega (arith, inserted.block_below)

  no_table' : i'.i_sectors 12 ≡ 0
  no_table' = inserted.no_table ∙ valid.no_table

  lookup_new :
      search_dir_entry i (c ∷ cs) v.disk ≡ none
      → (e : Bytes) × (search_dir_entry i' (c ∷ cs) v'.disk ≡ some e)
        × ((m : ℕ) → m < 24 → e m ≡ p_de m)
  unfolding Finds
  lookup_new absent =
      let old =
        subst (Finds (direct_blocks i) v.disk (c ∷ cs) 0 140) absent
          (Finds-direct i v c cs valid.no_table) in
      found_new (direct_blocks i) (direct_blocks i') v.disk v'.disk inserted.block inserted.idx p_de
        inserted.changed (c ∷ cs) (search_dir_entry i' (c ∷ cs) v'.disk)
        (ap (λ n. same_name n (c ∷ cs)) named ∙ same_name_refl (c ∷ cs)) old_and_new
        inserted.idx_below old (Finds-direct i' v' c cs no_table')

  lookup_other :
      (d : ℕ) (ds : List ℕ)
      → Cleared v i
      → same_name (c ∷ cs) (d ∷ ds) ≡ false
      → SameEntry (search_dir_entry i (d ∷ ds) v.disk) (search_dir_entry i' (d ∷ ds) v'.disk)
  unfolding same_name
  lookup_other d ds cleared differs =
      let no_name =
        cleared inserted.block inserted.idx inserted.block_below inserted.idx_below
          inserted.unused in
      found_other (direct_blocks i) (direct_blocks i') v.disk v'.disk inserted.block inserted.idx
        p_de inserted.changed (d ∷ ds) inserted.idx_below
        (ap (λ n. same_name n (d ∷ ds)) named ∙ differs) (ap (λ n. same_name n (d ∷ ds)) no_name)
        (search_dir_entry i (d ∷ ds) v.disk) (search_dir_entry i' (d ∷ ds) v'.disk)
        (Finds-direct i v d ds valid.no_table) (Finds-direct i' v' d ds no_table')

-- In a valid directory without an indirect table, with one of its direct blocks missing, a free
-- block in the partition and no name in its unused entries, `sync_dir_entry` of an entry with a
-- name that is not there returns true. Then `search_dir_entry` finds the entry under its name,
-- and under every other name what it found before, or still nothing.
pub search_dir_entry-sync_dir_entry :
    (c : ℕ) (cs : List ℕ) (room : ℕ) (p_de : Bytes) (v : Volume) (i : Inode)
    → VolumeIsValid v
    → DirIsValid v i
    → Cleared v i
    → 0 < free_blocks v
    → room < 12
    → i.i_sectors room ≡ 0
    → filename_at p_de 0 ≡ c ∷ cs
    → search_dir_entry i (c ∷ cs) v.disk ≡ none
    → (i' : Inode) × (v' : Volume) × (e : Bytes) × (sync_dir_entry p_de i v ≡ ok (true, i', v'))
      × (search_dir_entry i' (c ∷ cs) v'.disk ≡ some e)
      × ((m : ℕ) → m < 24 → e m ≡ p_de m)
      × ((d : ℕ) (ds : List ℕ)
          → same_name (c ∷ cs) (d ∷ ds) ≡ false
          → SameEntry (search_dir_entry i (d ∷ ds) v.disk) (search_dir_entry i' (d ∷ ds) v'.disk))
search_dir_entry-sync_dir_entry c cs room p_de v i vv valid cleared free low missing named absent =
    let (i', v', e, inserted) = sync_dir_entry-Inserted room p_de v i vv valid free low missing in
    let (entry, found, bytes) = lookup_new c cs p_de v v' i i' valid inserted named absent in
    (
      i',
      v',
      entry,
      e,
      found,
      bytes,
      λ d ds differs. lookup_other c cs p_de v v' i i' valid inserted named d ds cleared differs,
    )
