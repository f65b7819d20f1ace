-- ===== src/FileData/Grow.antt =====
-- How a file gets its direct blocks in `file_write`.
use os_zhenxiang.Prelude.{
  ℕ, zero, suc, ◌+◌, ◌-◌, ◌<◌, ◌≤◌, ◌≡◌, ◌≢◌, refl, sym, ◌∙◌, ap, subst, true, false, ◌==◌, some,
  ok, arith, ℕ_discrete, update,
}
use os_zhenxiang.Bitmap.{bitmap_scan_test}
use os_zhenxiang.Inode.{Inode}
use os_zhenxiang.Volume.{Volume, bit_of, alloc_block, sync_block}
use os_zhenxiang.Volume.Blocks.{
  VolumeIsValid, Taken, Later, Later-refl, Later-trans, Later-Taken, NewBlock, NewBlock-ne,
  free_blocks, alloc_block_lem,
}
use os_zhenxiang.FileData.Gathering.{set_sector, Gather, keep_direct, alloc_blocks}

-- The first `n` direct blocks of a file are there, and the others are not.
pub record FileBlocks (v : Volume) (i : Inode) (n : ℕ) : Type 0 where
  pub taken : (k : ℕ) → k < n → Taken v (i.i_sectors k)
  pub apart : (j k : ℕ) → j < n → k < n → i.i_sectors j ≡ i.i_sectors k → j ≡ k
  pub missing : (k : ℕ) → n ≤ k → k < 12 → i.i_sectors k ≡ 0

-- From `n₀` blocks to `n` blocks
pub record Grown (v₀ : Volume) (i₀ : Inode) (n₀ : ℕ) (v : Volume) (i : Inode) (n : ℕ) : Type 0 where
  pub later : Later v₀ v
  pub valid : VolumeIsValid v
  pub blocks : FileBlocks v i n
  pub old : (k : ℕ) → k < n₀ → i.i_sectors k ≡ i₀.i_sectors k
  pub fresh :
      (k : ℕ)
      → n₀ ≤ k
      → k < n
      → bitmap_scan_test v₀.block_bitmap (i.i_sectors k - v₀.data_start_lba) ≡ false
  pub same : i ≡ record i₀ { i_sectors = i.i_sectors }
  pub count : free_blocks v + n ≡ free_blocks v₀ + n₀

pub Grown-refl :
    {v : Volume} {i : Inode} {n : ℕ} → VolumeIsValid v → FileBlocks v i n → Grown v i n v i n
Grown-refl {v} {i} valid blocks = record {
  later = Later-refl v;
  valid = valid;
  blocks = blocks;
  old = λ k h. refl;
  fresh = λ k lo hi. absurd (omega arith);
  same = refl;
  count = refl;
}

set_at : (n lba k : ℕ) (i : Inode) → k ≡ n → (set_sector n lba i).i_sectors k ≡ lba
set_at n lba k i e = ground (arith, e)

set_off : (n lba k : ℕ) (i : Inode) → k ≢ n → (set_sector n lba i).i_sectors k ≡ i.i_sectors k
set_off n lba k i ne = ground (arith, ne)

module _ {v v' : Volume} {i : Inode} (n lba : ℕ) (f : FileBlocks v i n)
    (b : NewBlock v v' lba) where
  abbrev wider : Inode
  wider = set_sector n lba i

  more-Taken : (k : ℕ) → k < n + 1 → Taken v' (wider.i_sectors k)
  more-Taken k h = elim (ℕ_discrete k n) [
    | yes e ↦ subst (Taken v') (sym (set_at n lba k i e)) b.now
    | no ne ↦
        subst (Taken v') (sym (set_off n lba k i ne))
          (Later-Taken (i.i_sectors k) b.later (f.taken k (omega arith)))
  ]

  -- The new block is none of the file's.
  new_apart : (j k : ℕ) → j ≡ n → k < n → wider.i_sectors j ≢ wider.i_sectors k
  new_apart j k e h same =
      NewBlock-ne lba (i.i_sectors k) b (f.taken k h)
        (sym (set_at n lba j i e) ∙ same ∙ set_off n lba k i (λ e'. omega (arith, e')))

  more_apart : (j k : ℕ) → j < n + 1 → k < n + 1 → wider.i_sectors j ≡ wider.i_sectors k → j ≡ k
  more_apart j k hj hk same = elim (ℕ_discrete j n) [
    | yes e ↦ elim (ℕ_discrete k n) [
      | yes e' ↦ e ∙ sym e'
      | no ne' ↦ absurd (new_apart j k e (omega arith) same)
    ]
    | no ne ↦ elim (ℕ_discrete k n) [
      | yes e' ↦ absurd (new_apart k j e' (omega arith) (sym same))
      | no ne' ↦
          f.apart j k (omega arith) (omega arith)
            (sym (set_off n lba j i ne) ∙ same ∙ set_off n lba k i ne')
    ]
  ]

  FileBlocks-more : FileBlocks v' wider (n + 1)
  FileBlocks-more = record {
    taken = more-Taken;
    apart = more_apart;
    missing = λ k lo hi. set_off n lba k i (λ e. omega (arith, e)) ∙ f.missing k (omega arith) hi;
  }

-- What was free for a later partition was free before.
free_before :
    {v₀ v : Volume} (j : ℕ)
    → Later v₀ v
    → bitmap_scan_test v.block_bitmap j ≡ false
    → bitmap_scan_test v₀.block_bitmap j ≡ false
free_before j l h = ground (arith, l.taken j, h)

pub Grown-more :
    {v₀ : Volume} {i₀ : Inode} {n₀ : ℕ} {v v' : Volume} {i : Inode} (n lba : ℕ)
    → n₀ ≤ n
    → Grown v₀ i₀ n₀ v i n
    → NewBlock v v' lba
    → Grown v₀ i₀ n₀ v' (set_sector n lba i) (n + 1)
Grown-more {v₀} {i₀} {n₀} {v} {v'} {i} n lba le g b = record {
  later = Later-trans g.later b.later;
  valid = b.valid;
  blocks = FileBlocks-more n lba g.blocks b;
  old = λ k h. set_off n lba k i (λ e. omega (arith, e)) ∙ g.old k h;
  fresh = λ k lo hi. elim (ℕ_discrete k n) [
    | yes e ↦
        let here : bitmap_scan_test v.block_bitmap (lba - v₀.data_start_lba) ≡ false =
          subst (λ s. bitmap_scan_test v.block_bitmap (lba - s) ≡ false) g.later.start b.fresh in
        subst (λ l. bitmap_scan_test v₀.block_bitmap (l - v₀.data_start_lba) ≡ false)
          (sym (set_at n lba k i e)) (free_before (lba - v₀.data_start_lba) g.later here)
    | no ne ↦
        subst (λ l. bitmap_scan_test v₀.block_bitmap (l - v₀.data_start_lba) ≡ false)
          (sym (set_off n lba k i ne)) (g.fresh k lo (omega arith))
  ];
  same = ap (λ (j : Inode). record j { i_sectors = update i.i_sectors n lba }) g.same;
  count = omega (arith, g.count, b.count);
}

-- What the loop of the first situation leaves
pub record Allocates (n left : ℕ) (g h : Gather) : Type 0 where
  pub old_blocks : (k : ℕ) → k < n → h.blocks k ≡ g.blocks k
  pub old_sectors : (k : ℕ) → k < n → h.inode.i_sectors k ≡ g.inode.i_sectors k
  pub new_blocks : (k : ℕ) → n ≤ k → k < n + left → h.blocks k ≡ h.inode.i_sectors k

abbrev next_gather : (n lba : ℕ) → Gather → Volume → Gather
next_gather n lba g v' = record {
  blocks = update g.blocks n lba;
  inode = set_sector n lba g.inode;
  volume = sync_block (bit_of v' lba) v';
}

alloc_one :
    (left n lba : ℕ) (g : Gather) (v' : Volume)
    → alloc_block g.volume ≡ ok (some lba, v')
    → g.inode.i_sectors n ≡ 0
    → alloc_blocks (suc left) n keep_direct g
      ≡ alloc_blocks left (n + 1) keep_direct (next_gather n lba g v')
unfolding alloc_blocks keep_direct
alloc_one left n lba g v' allocated missing =
    let t : (g.inode.i_sectors n == 0) ≡ true = ground (arith, missing) in rw (allocated, t) refl

Allocates-step :
    (n left lba : ℕ) (g h : Gather) (v' : Volume)
    → Allocates (n + 1) left (next_gather n lba g v') h
    → Allocates n (suc left) g h
Allocates-step n left lba g h v' a = record {
  old_blocks = λ k lt. ground (arith, a.old_blocks k, lt);
  old_sectors = λ k lt. ground (arith, a.old_sectors k, lt);
  new_blocks = λ k lo hi. elim (ℕ_discrete k n) [
    | yes e ↦ ground (arith, a.old_blocks k, a.old_sectors k, e)
    | no ne ↦ a.new_blocks k (omega arith) (omega arith)
  ];
}

pub alloc_blocks_lem :
    {v₀ : Volume} {i₀ : Inode} {n₀ : ℕ} (left n : ℕ) (g : Gather)
    → n₀ ≤ n
    → n + left ≤ 12
    → left ≤ free_blocks g.volume
    → Grown v₀ i₀ n₀ g.volume g.inode n
    → (h : Gather) × (alloc_blocks left n keep_direct g ≡ ok (true, h))
      × Grown v₀ i₀ n₀ h.volume h.inode (n + left)
      × Allocates n left g h
unfolding alloc_blocks
alloc_blocks_lem {v₀} {i₀} {n₀} zero n g le fits free gr = (
  g,
  refl,
  subst (Grown v₀ i₀ n₀ g.volume g.inode) (omega arith) gr,
  record {
    old_blocks = λ k h. refl;
    old_sectors = λ k h. refl;
    new_blocks = λ k lo hi. absurd (omega arith);
  },
)
alloc_blocks_lem {v₀} {i₀} {n₀} (suc left) n g le fits free gr =
    let (lba, v', allocated, _, b) = alloc_block_lem g.volume gr.valid (omega arith) in
    let (h, e, gr', a) =
      alloc_blocks_lem left (n + 1) (next_gather n lba g v') (omega arith) (omega arith)
        (omega (arith, b.count)) (Grown-more n lba le gr b) in
    (
      h,
      alloc_one left n lba g v' allocated (gr.blocks.missing n (omega arith) (omega arith)) ∙ e,
      subst (Grown v₀ i₀ n₀ h.volume h.inode) (omega arith) gr',
      Allocates-step n left lba g h v' a,
    )
