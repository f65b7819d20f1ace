-- ===== src/Dir/Insert.antt =====
-- Where `sync_dir_entry` puts an entry, in a directory with room in its direct blocks.
use os_zhenxiang.Prelude.{
  ℕ, zero, suc, ◌+◌, ◌-◌, ◌*◌, ◌^◌, ◌<◌, ◌≤◌, ◌≡◌, ◌≢◌, refl, sym, ◌∙◌, ap, true, false, none, some,
  ok, ltb, ◌==◌, arith, Bool-cases, Option-cases, inl, inr,
}
use os_zhenxiang.Inode.{Inode, Bytes, copy_to}
use os_zhenxiang.Inode.Opens.{some-injective}
use os_zhenxiang.Volume.{Volume, zeros, bit_of, write_sector, sync_block}
use os_zhenxiang.Volume.Blocks.{VolumeIsValid, NewBlock, free_blocks, alloc_block_lem}
use os_zhenxiang.Dir.{
  f_type_at, sector, direct_blocks, free_entry, grow, sector_is, place_new, new_block, place,
  sync_blocks, Result,
}
use os_zhenxiang.Dir.Inserted.{DirIsValid, Inserted, direct, new-Inserted, place-Inserted}

-- The first unused entry of a sector
free_entry_lem :
    (left idx : ℕ) (buf : Bytes) (p : ℕ)
    → free_entry left idx buf ≡ some p
    → (j : ℕ) × (p ≡ 24 * j) × (j < idx + left) × (f_type_at buf (24 * j) ≡ 0)
unfolding free_entry
free_entry_lem zero idx buf p e = cc
free_entry_lem (suc left) idx buf p e = elim (Bool-cases (f_type_at buf (24 * idx) == 0)) [
  | inl unused ↦
      (idx, sym (some-injective (24 * idx) p (rw unused at e)), omega arith, ground (arith, unused))
  | inr used ↦
      let (j, at, lt, free) = free_entry_lem left (idx + 1) buf p (rw used at e) in
      (j, at, omega arith, free)
]

-- The case of a direct block
new_block_direct :
    (b lba : ℕ) (blocks : ℕ → ℕ) (p_de : Bytes) (i : Inode) (v v' : Volume)
    → b < 12
    → bit_of v' lba ≡ lba - v.data_start_lba
    → NewBlock v (sync_block (bit_of v' lba) v') lba
    → new_block (some lba) b blocks p_de i v'
      ≡ ok (
        true,
        grow (sector_is b lba i),
        write_sector lba (copy_to 0 24 p_de zeros) (sync_block (bit_of v' lba) v'),
      )
unfolding new_block place_new
new_block_direct b lba blocks p_de i v v' hb bit new =
    let t : (bit_of v' lba == 2 ^ 32 - 1) ≡ false = ground (
      arith, bit, new.now.high, new.now.low, new.valid.addresses, new.valid.bits_first,
      new.later.start,
    ) in
    let d : ltb b 12 ≡ true = ground (arith, hb) in rw (t, d) refl

not_room :
    (idx room : ℕ) (i : Inode)
    → i.i_sectors room ≡ 0
    → room < 12
    → (direct_blocks i idx == 0) ≡ false
    → idx ≢ room
not_room idx room i missing low there e =
    let z : direct_blocks i idx ≡ 0 = ap (direct_blocks i) e ∙ direct i room low ∙ missing in
    ground (arith, z, there)

place-none :
    (lba : ℕ) (p_de buf : Bytes) (i : Inode) (v : Volume) (rest : Result)
    → place none lba p_de buf i v rest ≡ rest
unfolding place
place-none lba p_de buf i v rest = refl

place-some :
    (p lba : ℕ) (p_de buf : Bytes) (i : Inode) (v : Volume) (rest : Result)
    → place (some p) lba p_de buf i v rest
      ≡ ok (true, grow i, write_sector lba (copy_to p 24 p_de buf) v)
unfolding place
place-some p lba p_de buf i v rest = refl

-- With a direct block missing at `room`, the entry is put there or before it.
pub sync_blocks-Inserted :
    (left idx room : ℕ) (p_de : Bytes) (v : Volume) (i : Inode)
    → VolumeIsValid v
    → DirIsValid v i
    → 0 < free_blocks v
    → i.i_sectors room ≡ 0
    → room < 12
    → idx ≤ room
    → room < idx + left
    → (i' : Inode) × (v' : Volume) × (sync_blocks left idx (direct_blocks i) p_de i v
        ≡ ok (true, i', v'))
      × Inserted p_de v i v' i'
unfolding sync_blocks
sync_blocks-Inserted zero idx room p_de v i vv valid free missing low le lt = absurd (omega arith)
sync_blocks-Inserted (suc left) idx room p_de v i vv valid free missing low le lt =
    elim (Bool-cases (direct_blocks i idx == 0)) [
      | inl gone ↦
          let (lba, v', allocated, bit, new) = alloc_block_lem v vv free in
          (
            grow (sector_is idx lba i),
            write_sector lba (copy_to 0 24 p_de zeros) (sync_block (bit_of v' lba) v'),
            rw (gone, allocated)
                (new_block_direct idx lba (direct_blocks i) p_de i v v' (omega arith) bit new),
            new-Inserted p_de v (sync_block (bit_of v' lba) v') i idx lba valid (omega arith) gone
                new,
          )
      | inr there ↦
          let buf = sector v.disk (direct_blocks i idx) in
          elim (Option-cases (free_entry 21 0 buf)) [
            | inl full ↦
                let ne = not_room idx room i missing low there in
                let (i', v', e, inserted) =
                  sync_blocks-Inserted left (idx + 1) room p_de v i vv valid free missing low
                    (omega arith) (omega arith) in
                (
                  i',
                  v',
                  rw (there, full) (place-none (direct_blocks i idx) p_de buf i v _ ∙ e),
                  inserted,
                )
            | inr (p, found) ↦
                let (j, at, hj, unused) = free_entry_lem 21 0 buf p found in
                (
                  grow i,
                  write_sector (direct_blocks i idx) (copy_to (24 * j) 24 p_de buf) v,
                  rw (there, found, at)
                      (place-some (24 * j) (direct_blocks i idx) p_de buf i v
                        (sync_blocks left (idx + 1) (direct_blocks i) p_de i v)),
                  place-Inserted p_de v i idx j valid (omega arith) there hj unused,
                )
          ]
    ]
