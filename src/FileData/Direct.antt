-- ===== src/FileData/Direct.antt =====
-- The blocks of a file that stays within its direct blocks, before `file_write` writes to them.
use os_zhenxiang.Prelude.{
  ℕ, ◌+◌, ◌-◌, ◌/◌, ◌<◌, ◌≤◌, ◌≡◌, ◌≢◌, refl, subst, true, false, ◌==◌, leb, if◌then◌else◌, ok,
  arith, ℕ_discrete, update, Bool-cases, inl, inr,
}
use os_zhenxiang.Inode.{Inode}
use os_zhenxiang.Volume.{Volume, bit_of, sync_block}
use os_zhenxiang.Volume.Blocks.{VolumeIsValid, Taken, free_blocks, alloc_block_lem, new_not_first}
use os_zhenxiang.FileData.Gathering.{
  Gather, first_block, same_blocks, situation_1, gather_blocks, set_sector,
}
use os_zhenxiang.FileData.Grow.{FileBlocks, Grown, Grown-refl, Grown-more, alloc_blocks_lem}

-- how many direct blocks a file has
abbrev pub block_cnt : Inode → ℕ
block_cnt i = if i.i_sectors 0 == 0 then 0 else i.i_size / 512 + 1

-- A file in its direct blocks; one without a block is empty.
pub record FileIsValid (v : Volume) (i : Inode) : Type 0 where
  pub blocks : FileBlocks v i (block_cnt i)
  pub empty : i.i_sectors 0 ≡ 0 → i.i_size ≡ 0

Taken-ne : {v : Volume} (lba : ℕ) → VolumeIsValid v → Taken v lba → lba ≢ 0
Taken-ne lba valid t e = omega (arith, valid.bits_first, t.low, e)

pub first_block_lem :
    (i : Inode) (v : Volume)
    → VolumeIsValid v
    → FileIsValid v i
    → 1 ≤ free_blocks v + block_cnt i
    → (i' : Inode) × (v' : Volume) × (first_block i v ≡ ok (true, i', v'))
      × Grown v i (block_cnt i) v' i' (i.i_size / 512 + 1)
unfolding first_block
first_block_lem i v valid file free = elim (Bool-cases (i.i_sectors 0 == 0)) [
  | inl none_yet ↦
      let n : block_cnt i ≡ 0 = rw none_yet refl in
      let size : i.i_size / 512 + 1 ≡ 0 + 1 =
        omega (arith, file.empty (ground (arith, none_yet))) in
      let (lba, v', allocated, bit, b) = alloc_block_lem v valid (omega arith) in
      let used : (bit_of v' lba == 0) ≡ false = ground (arith, bit, new_not_first lba valid b) in
      (
        set_sector 0 lba i,
        sync_block (bit_of v' lba) v',
        rw (none_yet, allocated, used) refl,
        rw (n, size)
            (Grown-more 0 lba (omega arith)
              (Grown-refl valid (subst (FileBlocks v i) n file.blocks)) b),
      )
  | inr there ↦
      let n : block_cnt i ≡ i.i_size / 512 + 1 = rw there refl in
      (i, v, rw there refl, rw n (Grown-refl valid (subst (FileBlocks v i) n file.blocks)))
]

-- Whether new blocks are needed or not, the addresses that are used are collected.
pub gather_blocks_lem :
    {v₀ : Volume} {i₀ : Inode} {n₀ : ℕ} (used will : ℕ) (i : Inode) (v : Volume)
    → 0 < used
    → n₀ ≤ used
    → used ≤ will
    → will ≤ 12
    → will ≤ free_blocks v + used
    → Grown v₀ i₀ n₀ v i used
    → (h : Gather) × (gather_blocks used will (record { blocks = λ _. 0; inode = i; volume = v })
        ≡ ok (true, h))
      × Grown v₀ i₀ n₀ h.volume h.inode will
      × ((k : ℕ) → used ≤ k + 1 → k < will → h.blocks k ≡ h.inode.i_sectors k)
unfolding gather_blocks same_blocks situation_1
gather_blocks_lem {v₀} {i₀} {n₀} used will i v positive le more direct free gr =
    let few : leb will 12 ≡ true = ground (arith, direct) in
    let last = update (λ _. 0) (used - 1) (i.i_sectors (used - 1)) in
    elim (Bool-cases (will == used)) [
      | inl same ↦
          let e : used ≡ will = ground (arith, same) in
          (
            record { blocks = last; inode = i; volume = v },
            rw (same, few) refl,
            subst (Grown v₀ i₀ n₀ v i) e gr,
            λ k lo hi. ground (arith, e),
          )
      | inr new ↦
          let t = gr.blocks.taken (used - 1) (omega arith) in
          let there : (i.i_sectors (used - 1) == 0) ≡ false =
            ground (arith, gr.valid.bits_first, t.low) in
          let (h, e, gr', a) =
            alloc_blocks_lem (will - used) used (record { blocks = last; inode = i; volume = v }) le
              (omega arith) (omega arith) gr in
          (
            h,
            rw (new, few, there) e,
            subst (Grown v₀ i₀ n₀ h.volume h.inode) (omega arith) gr',
            λ k lo hi. elim (ℕ_discrete (k + 1) used) [
              | yes at ↦ ground (arith, a.old_blocks k, a.old_sectors k, at)
              | no later ↦ a.new_blocks k (omega arith) (omega arith)
            ],
          )
    ]
