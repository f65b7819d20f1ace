-- ===== src/FileData/Gathering.antt =====
-- fs/file.c: `file_write` up to line 399, where the addresses of the blocks to be written are collected,
-- and blocks allocated.
use os_zhenxiang.Prelude.{
  ℕ, zero, suc, ◌+◌, ◌-◌, Bool, true, false, not, Option, none, some, Outcome, ok, ◌>>=◌, ◌>>◌,
  assert, ltb, leb, ◌==◌, if◌then◌else◌, update,
}
use os_zhenxiang.Inode.{Inode}
use os_zhenxiang.Volume.{Volume, bit_of, numbers, write_sector, alloc_block, sync_block}
use os_zhenxiang.FileData.{table_of}

-- What `file_write` changes before it writes data
pub record Gather : Type 0 where
  pub blocks : ℕ → ℕ
  pub inode : Inode
  pub volume : Volume

abbrev pub set_sector : (k lba : ℕ) → Inode → Inode
set_sector k lba i = record i { i_sectors = update i.i_sectors k lba }

-- A direct block: it must not be there yet.
unfoldable pub keep_direct : (block_idx block_lba : ℕ) → Gather → Outcome Gather
keep_direct block_idx block_lba g = do
  assert (g.inode.i_sectors block_idx == 0)
  ok (record g {
    blocks = update g.blocks block_idx block_lba;
    inode = set_sector block_idx block_lba g.inode;
  })

-- A direct or an indirect block in the second situation, where the address of an indirect block is
-- stored nowhere.
keep_low : (block_idx block_lba : ℕ) → Gather → Outcome Gather
unfolding keep_direct
keep_low block_idx block_lba g =
    if ltb block_idx 12 then keep_direct block_idx block_lba g else ok g

keep_indirect : (block_idx block_lba : ℕ) → Gather → Outcome Gather
keep_indirect block_idx block_lba g = ok (record g { blocks = update g.blocks block_idx block_lba })

abbrev pub synced : (block_lba : ℕ) → Gather → Gather
synced block_lba g = record g { volume = sync_block (bit_of g.volume block_lba) g.volume }

-- `while (block_idx < file_will_use_blocks)`, with the rounds left; false when no block is left.
unfoldable pub alloc_blocks :
    (left block_idx : ℕ)
    → (keep : (block_idx block_lba : ℕ) → Gather → Outcome Gather) → Gather
    → Outcome (Bool × Gather)
alloc_blocks zero block_idx keep g = ok (true, g)
alloc_blocks (suc left) block_idx keep g = do
  (block_lba, v) ← alloc_block g.volume
  keep_next block_lba (record g { volume = v }) (alloc_blocks left (block_idx + 1) keep)
  where
    keep_next : Option ℕ → Gather → (Gather → Outcome (Bool × Gather)) → Outcome (Bool × Gather)
    keep_next none g' next = ok (false, g')
    keep_next (some block_lba) g' next = do
      g'' ← keep block_idx block_lba g'
      next (synced block_lba g'')

-- The table of the addresses from 12 on, written to its sector when all blocks are there
write_table : (table : ℕ) → Bool × Gather → Bool × Gather
write_table table (false, g) = (false, g)
write_table table (true, g) =
    (true, record g { volume = write_sector table (numbers (λ k. g.blocks (12 + k))) g.volume })

-- The block of a file that is written first
unfoldable pub first_block : Inode → Volume → Outcome (Bool × Inode × Volume)
first_block i v =
    let new = do (block_lba, v') ← alloc_block v; placed block_lba v'
    in if i.i_sectors 0 == 0 then new else ok (true, i, v)
  where
    placed : Option ℕ → Volume → Outcome (Bool × Inode × Volume)
    placed none v' = ok (false, i, v')
    placed (some block_lba) v' = do
      assert (not (bit_of v' block_lba == 0))
      ok (true, set_sector 0 block_lba i, sync_block (bit_of v' block_lba) v')

-- No new block
unfoldable pub same_blocks : (used will : ℕ) → Gather → Outcome (Bool × Gather)
same_blocks used will g =
    let direct = update g.blocks (used - 1) (g.inode.i_sectors (used - 1)) in
    let indirect = do
      assert (not (g.inode.i_sectors 12 == 0))
      ok (true, record g { blocks = table_of g.inode g.volume.disk })
    in if leb will 12 then ok (true, record g { blocks = direct }) else indirect

-- Direct blocks alone
unfoldable pub situation_1 : (used will : ℕ) → Gather → Outcome (Bool × Gather)
unfolding keep_direct
situation_1 used will g = do
  assert (not (g.inode.i_sectors (used - 1) == 0))
  let last = update g.blocks (used - 1) (g.inode.i_sectors (used - 1))
  alloc_blocks (will - used) used keep_direct (record g { blocks = last })

-- The data goes on from direct into indirect blocks.
situation_2 : (used will : ℕ) → Gather → Outcome (Bool × Gather)
unfolding keep_low write_table
situation_2 used will g = do
  let last = update g.blocks (used - 1) (g.inode.i_sectors (used - 1))
  (block_lba, v) ← alloc_block g.volume
  with_table block_lba (record g { blocks = last; volume = v })
  where
    with_table : Option ℕ → Gather → Outcome (Bool × Gather)
    with_table none g' = ok (false, g')
    with_table (some block_lba) g' = do
      assert (g'.inode.i_sectors 12 == 0)
      r ←
          alloc_blocks (will - used) used keep_low
            (record g' { inode = set_sector 12 block_lba g'.inode })
      ok (write_table block_lba r)

-- Indirect blocks alone
situation_3 : (used will : ℕ) → Gather → Outcome (Bool × Gather)
unfolding keep_indirect write_table
situation_3 used will g = do
  assert (not (g.inode.i_sectors 12 == 0))
  r ←
      alloc_blocks (will - used) used keep_indirect
        (record g { blocks = table_of g.inode g.volume.disk })
  ok (write_table (g.inode.i_sectors 12) r)

unfoldable pub gather_blocks : (used will : ℕ) → Gather → Outcome (Bool × Gather)
unfolding same_blocks situation_1 situation_2 situation_3
gather_blocks used will g =
    if will == used
    then same_blocks used will g
    else if leb will 12
    then situation_1 used will g
    else if leb used 12
    then situation_2 used will g
    else situation_3 used will g
