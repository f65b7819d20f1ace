-- ===== src/Volume/Blocks.antt =====
-- A block taken from a partition.
use os_zhenxiang.Prelude.{
  ℕ, ◌+◌, ◌-◌, ◌/◌, ◌^◌, ◌<◌, ◌≤◌, ◌≡◌, ◌≢◌, refl, sym, ◌∙◌, ap, true, false, some, ok, arith, u32,
}
use os_zhenxiang.Bitmap.{bitmap_scan_test}
use os_zhenxiang.Bitmap.Laws.{IsValid, total_bits}
use os_zhenxiang.Bitmap.Count.{clear_bits, some_clear, clear_bits-set}
use os_zhenxiang.Inode.Store.{PartitionIsValid}
use os_zhenxiang.FileTable.Alloc.{block_bitmap_alloc_lem, bitmap_sync_off}
use os_zhenxiang.Volume.{Volume, bit_of, alloc_block, sync_block}

abbrev pub blocks_of : Volume → ℕ
blocks_of v = total_bits v.block_bitmap

-- The bitmap of the blocks and the table of the inodes lie before the data, in 32-bit sectors, and
-- the first block is taken.
pub record VolumeIsValid (v : Volume) : Type 0 where
  pub bitmap : IsValid v.block_bitmap
  pub partition : PartitionIsValid v.part
  pub bits_first : v.block_bitmap_lba + blocks_of v / 4096 < v.data_start_lba
  pub table_first : v.part.inode_table_lba + 608 ≤ v.data_start_lba
  pub addresses : v.data_start_lba + blocks_of v < 2 ^ 32
  -- the block of the root directory
  pub root_taken : bitmap_scan_test v.block_bitmap 0 ≡ true

-- a block of the data area whose bit is set
pub record Taken (v : Volume) (lba : ℕ) : Type 0 where
  pub low : v.data_start_lba ≤ lba
  pub high : lba - v.data_start_lba < blocks_of v
  pub set : bitmap_scan_test v.block_bitmap (lba - v.data_start_lba) ≡ true

abbrev pub free_blocks : Volume → ℕ
free_blocks v = clear_bits v.block_bitmap (blocks_of v)

-- The partition later: what was taken still is, and the data is as before.
pub record Later (v v' : Volume) : Type 0 where
  pub part : v'.part ≡ v.part
  pub start : v'.data_start_lba ≡ v.data_start_lba
  pub bits : v'.block_bitmap_lba ≡ v.block_bitmap_lba
  pub same_length : v'.block_bitmap.btmp_bytes_len ≡ v.block_bitmap.btmp_bytes_len
  pub taken :
      (j : ℕ) → bitmap_scan_test v.block_bitmap j ≡ true → bitmap_scan_test v'.block_bitmap j ≡ true
  pub same_data : (a : ℕ) → v.data_start_lba ≤ a / 512 → v'.disk a ≡ v.disk a

pub Later-refl : (v : Volume) → Later v v
Later-refl v = record {
  part = refl;
  start = refl;
  bits = refl;
  same_length = refl;
  taken = λ j h. h;
  same_data = λ a h. refl;
}

pub Later-trans : {u v w : Volume} → Later u v → Later v w → Later u w
Later-trans l m = record {
  part = m.part ∙ l.part;
  start = m.start ∙ l.start;
  bits = m.bits ∙ l.bits;
  same_length = m.same_length ∙ l.same_length;
  taken = λ j h. m.taken j (l.taken j h);
  same_data = λ a h. m.same_data a (omega (arith, l.start)) ∙ l.same_data a h;
}

pub Later-Taken : {v v' : Volume} (lba : ℕ) → Later v v' → Taken v lba → Taken v' lba
Later-Taken {v} {v'} lba l t = record {
  low = omega (arith, l.start, t.low);
  high = omega (arith, l.start, l.same_length, t.high);
  set =
      ap (λ s. bitmap_scan_test v'.block_bitmap (lba - s)) l.start
      ∙ l.taken (lba - v.data_start_lba) t.set;
}

-- a block that was free, and is taken
pub record NewBlock (v v' : Volume) (lba : ℕ) : Type 0 where
  pub low : v.data_start_lba ≤ lba
  pub fresh : bitmap_scan_test v.block_bitmap (lba - v.data_start_lba) ≡ false
  pub now : Taken v' lba
  pub later : Later v v'
  pub valid : VolumeIsValid v'
  pub count : free_blocks v' + 1 ≡ free_blocks v

-- A new block is none of those taken before.
pub NewBlock-ne : {v v' : Volume} (lba old : ℕ) → NewBlock v v' lba → Taken v old → lba ≢ old
NewBlock-ne {v} lba old n t e =
    cc (n.fresh, t.set, ap (λ l. bitmap_scan_test v.block_bitmap (l - v.data_start_lba)) e)

-- It is not the first block.
pub new_not_first :
    {v v' : Volume} (lba : ℕ) → VolumeIsValid v → NewBlock v v' lba → lba - v.data_start_lba ≢ 0
new_not_first {v} lba valid n e =
    cc (n.fresh, valid.root_taken, ap (bitmap_scan_test v.block_bitmap) e)

-- While a block is free, one is allocated and its bit stored.
pub alloc_block_lem :
    (v : Volume)
    → VolumeIsValid v
    → 0 < free_blocks v
    → (lba : ℕ) × (v' : Volume) × (alloc_block v ≡ ok (some lba, v'))
      × (bit_of v' lba ≡ lba - v.data_start_lba)
      × NewBlock v (sync_block (bit_of v' lba) v') lba
unfolding alloc_block sync_block
alloc_block_lem v valid free =
    let (k, lt, clear) = some_clear v.block_bitmap (blocks_of v) free in
    let (s, b, allocated, t) =
      block_bitmap_alloc_lem v.data_start_lba k v.block_bitmap valid.bitmap lt clear
        valid.addresses in
    let lba = v.data_start_lba + s in
    let back : lba - v.data_start_lba ≡ s = omega arith in
    let bit : u32 (lba + 2 ^ 32 - v.data_start_lba) ≡ s =
      omega (arith, t.first.within, valid.addresses) in
    let v' : Volume = record v { block_bitmap = b } in
    (
      lba,
      v',
      rw allocated refl,
      bit ∙ sym back,
      record {
        low = omega arith;
        fresh = rw back (t.first.free);
        now = record {
          low = omega arith;
          high = omega (arith, t.first.within, t.same_length);
          set = rw back (ground (arith, t.sets s));
        };
        later = record {
          part = refl;
          start = refl;
          bits = refl;
          same_length = t.same_length;
          taken = λ j h. ground (arith, t.sets j, h);
          same_data = λ a h. rw bit (
              bitmap_sync_off v.block_bitmap_lba s v.data_start_lba b v.disk a
                (omega (arith, valid.bits_first, t.first.within)) (omega (arith, valid.addresses))
                h);
        };
        valid = record {
          bitmap = t.valid;
          partition = valid.partition;
          bits_first = rw (t.same_length) valid.bits_first;
          table_first = valid.table_first;
          addresses = rw (t.same_length) valid.addresses;
          root_taken = ground (arith, t.sets 0, valid.root_taken);
        };
        count =
            rw (t.same_length)
              (clear_bits-set v.block_bitmap b s (blocks_of v) t.sets t.first.free t.first.within);
      },
    )
