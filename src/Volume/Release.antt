-- ===== src/Volume/Release.antt =====
-- The blocks of an inode given back by `inode_release` (fs/inode.c).
use os_zhenxiang.Prelude.{
  ℕ, zero, suc, ◌+◌, ◌≡◌, ◌≢◌, refl, ◌∙◌, Bool, false, not, ◌&&◌, ◌||◌, ok, ◌==◌, if◌then◌else◌,
  arith, Bool-cases, inl, inr,
}
use os_zhenxiang.Bitmap.{bitmap_scan_test}
use os_zhenxiang.Bitmap.Laws.{IsValid, bitmap_set_lem}
use os_zhenxiang.Inode.{Inode}
use os_zhenxiang.Volume.{
  Volume, bit_of, all_blocks, sync_block, clear_block, free_block, release_block, release_blocks,
  release_sectors,
}

abbrev pub block_used : Volume → ℕ → Bool
block_used v = bitmap_scan_test v.block_bitmap

-- whether `bit` is the bit of a block from `idx` on
unfoldable pub has_bit : (left idx : ℕ) → (blocks : ℕ → ℕ) → Volume → (bit : ℕ) → Bool
has_bit zero idx blocks v bit = false
has_bit (suc left) idx blocks v bit =
    (not (blocks idx == 0) && (bit_of v (blocks idx) == bit)) || has_bit left (idx + 1) blocks v bit

-- The bits of a partition, changed by nothing but what `cleared` says
pub record Freed (cleared : ℕ → Bool) (v v' : Volume) : Type 0 where
  pub valid : IsValid v'.block_bitmap
  pub start : v'.data_start_lba ≡ v.data_start_lba
  pub bits : (j : ℕ) → block_used v' j ≡ (if cleared j then false else block_used v j)

release_block_lem :
    (lba : ℕ) (v : Volume)
    → IsValid v.block_bitmap
    → bit_of v lba ≢ 0
    → (v' : Volume) × (release_block lba v ≡ ok v') × Freed (λ j. bit_of v lba == j) v v'
unfolding release_block free_block clear_block sync_block
release_block_lem lba v valid ne =
    let (b, set, valid', _, bits) =
      bitmap_set_lem {b = v.block_bitmap} (bit_of v lba) 0 valid (omega arith) in
    let t : (bit_of v lba == 0) ≡ false = ground (arith, ne) in
    (
      sync_block (bit_of v lba) (record v { block_bitmap = b }),
      rw (t, set) refl,
      record { valid = valid'; start = refl; bits = bits },
    )

has_bit-start :
    (left idx : ℕ) (blocks : ℕ → ℕ) (v v' : Volume) (j : ℕ)
    → v'.data_start_lba ≡ v.data_start_lba
    → has_bit left idx blocks v' j ≡ has_bit left idx blocks v j
unfolding has_bit
has_bit-start zero idx blocks v v' j e = refl
has_bit-start (suc left) idx blocks v v' j e =
    rw (has_bit-start left (idx + 1) blocks v v' j e, e) refl

release_blocks_lem :
    (left idx : ℕ) (blocks : ℕ → ℕ) (v : Volume)
    → IsValid v.block_bitmap
    → has_bit left idx blocks v 0 ≡ false
    → (v' : Volume) × (release_blocks left idx blocks v ≡ ok v')
      × Freed (has_bit left idx blocks v) v v'
unfolding release_blocks has_bit
release_blocks_lem zero idx blocks v valid ne =
    (v, refl, record { valid = valid; start = refl; bits = λ j. refl })
release_blocks_lem (suc left) idx blocks v valid ne = elim (Bool-cases (blocks idx == 0)) [
  | inl gone ↦
      let (v', e, f) = release_blocks_lem left (idx + 1) blocks v valid (ground (arith, ne)) in
      (v', rw gone e, record { valid = f.valid; start = f.start; bits = λ j. rw gone (f.bits j) })
  | inr there ↦
      let other : bit_of v (blocks idx) ≢ 0 = λ z. ground (arith, ne, there, z) in
      let (v₁, e, f) = release_block_lem (blocks idx) v valid other in
      let none_later : has_bit left (idx + 1) blocks v₁ 0 ≡ false =
        has_bit-start left (idx + 1) blocks v v₁ 0 f.start ∙ ground (arith, ne) in
      let (v', e', f') = release_blocks_lem left (idx + 1) blocks v₁ f.valid none_later in
      (
        v',
        rw (there, e) e',
        record {
          valid = f'.valid;
          start = f'.start ∙ f.start;
          bits = λ j.
              f'.bits j
              ∙ rw (there, has_bit-start left (idx + 1) blocks v v₁ j f.start, f.bits j)
                  (ground arith);
        },
      )
]

-- whether `bit` is the bit of a block of an inode, of its indirect table included
unfoldable pub inode_bit : Inode → Volume → (bit : ℕ) → Bool
inode_bit i v bit =
    let blocks = all_blocks i v.disk in
    let indirect = (bit_of v (i.i_sectors 12) == bit) || has_bit 140 0 blocks v bit in
    if i.i_sectors 12 == 0 then has_bit 12 0 blocks v bit else indirect

-- With a block bitmap in order, and no block of the inode with the bit 0, the part of
-- `inode_release` that gives back the blocks of an inode returns, and clears the bits of its
-- indirect table, of the blocks in it and of its direct blocks, and no others.
pub release_sectors_lem :
    (i : Inode) (v : Volume)
    → IsValid v.block_bitmap
    → inode_bit i v 0 ≡ false
    → (v' : Volume) × (release_sectors i v ≡ ok v') × Freed (inode_bit i v) v v'
unfolding release_sectors inode_bit
release_sectors_lem i v valid ne = elim (Bool-cases (i.i_sectors 12 == 0)) [
  | inl gone ↦
      let (v', e, f) =
        release_blocks_lem 12 0 (all_blocks i v.disk) v valid (ground (arith, ne, gone)) in
      (v', rw gone e, record { valid = f.valid; start = f.start; bits = λ j. rw gone (f.bits j) })
  | inr there ↦
      let blocks = all_blocks i v.disk in
      let other : bit_of v (i.i_sectors 12) ≢ 0 = λ z. ground (arith, ne, there, z) in
      let (v₁, e, f) = release_block_lem (i.i_sectors 12) v valid other in
      let none_later : has_bit 140 0 blocks v₁ 0 ≡ false =
        has_bit-start 140 0 blocks v v₁ 0 f.start ∙ ground (arith, ne, there) in
      let (v', e', f') = release_blocks_lem 140 0 blocks v₁ f.valid none_later in
      (
        v',
        rw (there, e) e',
        record {
          valid = f'.valid;
          start = f'.start ∙ f.start;
          bits = λ j.
              f'.bits j
              ∙ rw (there, has_bit-start 140 0 blocks v v₁ j f.start, f.bits j) (ground arith);
        },
      )
]
