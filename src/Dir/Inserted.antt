-- ===== src/Dir/Inserted.antt =====
-- What `sync_dir_entry` leaves when it puts an entry into a direct block, one that was there or a new one.
use os_zhenxiang.Prelude.{
  ℕ, ◌+◌, ◌-◌, ◌*◌, ◌%◌, ◌<◌, ◌≡◌, ◌≢◌, refl, sym, ◌∙◌, ap, subst, true, false, ◌&&◌, ltb, leb,
  ◌==◌, if◌then◌else◌, u32, arith, ℕ_discrete, Bool-cases, inl, inr,
}
use os_zhenxiang.Inode.{Inode, Bytes, copy_to, ide_write}
use os_zhenxiang.Volume.{Volume, zeros, write_sector}
use os_zhenxiang.Volume.Blocks.{Taken, Later, NewBlock, NewBlock-ne}
use os_zhenxiang.Dir.{f_type_at, sector, direct_blocks, grow, sector_is}
use os_zhenxiang.Dir.Lookup.{slot}
use os_zhenxiang.Dir.Changed.{sector_written, sector_kept, Changed, changed_lem}

-- the direct blocks that are there are taken and different, and there is no indirect table
pub record DirIsValid (v : Volume) (i : Inode) : Type 0 where
  pub taken : (k : ℕ) → k < 12 → i.i_sectors k ≢ 0 → Taken v (i.i_sectors k)
  pub apart :
      (j k : ℕ) → j < 12 → k < 12 → i.i_sectors j ≢ 0 → i.i_sectors j ≡ i.i_sectors k → j ≡ k
  pub no_table : i.i_sectors 12 ≡ 0
  pub whole : i.i_size % 24 ≡ 0

-- What `sync_dir_entry` leaves when it returns true
pub record Inserted (p_de : Bytes) (v : Volume) (i : Inode) (v' : Volume) (i' : Inode)
    : Type 0 where
  pub block : ℕ
  pub idx : ℕ
  pub block_below : block < 12
  pub idx_below : idx < 21
  pub unused : f_type_at (slot (direct_blocks i) v.disk block idx) 0 ≡ 0
  pub changed : Changed (direct_blocks i) (direct_blocks i') v.disk v'.disk block idx p_de
  pub no_table : i'.i_sectors 12 ≡ i.i_sectors 12
  pub size : i'.i_size ≡ u32 (i.i_size + 24)

pub direct : (i : Inode) (k : ℕ) → k < 12 → direct_blocks i k ≡ i.i_sectors k
direct i k h = let t : ltb k 12 ≡ true = ground (arith, h) in rw t refl

type_shift : (buf : Bytes) (p : ℕ) → f_type_at (λ m. buf (p + m)) 0 ≡ f_type_at buf p
type_shift buf p =
    let at : (k : ℕ) → buf (p + (0 + 20 + k)) ≡ buf (p + 20 + k) = λ k. ap buf (omega arith) in
    let first : buf (p + (0 + 20)) ≡ buf (p + 20) = ap buf (omega arith) in
    rw (first, at 1, at 2, at 3) refl

copy_entry :
    (j l m : ℕ) (p_de buf : Bytes)
    → m < 24
    → copy_to (24 * j) 24 p_de buf (24 * l + m) ≡ (if l == j then p_de m else buf (24 * l + m))
copy_entry j l m p_de buf h = elim (ℕ_discrete l j) [
  | yes e ↦
      let same : (l == j) ≡ true = ground (arith, e) in
      let inside : leb (24 * j) (24 * l + m) && ltb (24 * l + m) (24 * j + 24) ≡ true =
        ground (arith, e, h) in
      let back : 24 * l + m - 24 * j ≡ m = omega (arith, e) in rw (same, inside, back) refl
  | no ne ↦
      let differs : (l == j) ≡ false = ground (arith, ne) in
      let out : (leb (24 * j) (24 * l + m) && ltb (24 * l + m) (24 * j + 24)) ≡ false =
        ground (arith, ne, h) in
      rw (differs, out) refl
]

-- Two blocks that are there are different.
blocks_differ :
    {v : Volume} {i : Inode} (b k : ℕ)
    → DirIsValid v i
    → b < 12
    → k ≢ b
    → (direct_blocks i k == 0) ≡ false
    → direct_blocks i k ≢ direct_blocks i b
blocks_differ {v} {i} b k valid hb ne old e = elim (Bool-cases (ltb k 12)) [
  | inl low ↦
      let hk : k < 12 = ground (arith, low) in
      let here : i.i_sectors k ≢ 0 = λ z. ground (arith, old, direct i k hk, z) in
      ne (valid.apart k b hk hb here (sym (direct i k hk) ∙ e ∙ direct i b hb))
  | inr high ↦ cc (rw high at old)
]

-- In a block that is there
pub place-Inserted :
    (p_de : Bytes) (v : Volume) (i : Inode) (b j : ℕ)
    → DirIsValid v i
    → b < 12
    → (direct_blocks i b == 0) ≡ false
    → j < 21
    → f_type_at (sector v.disk (direct_blocks i b)) (24 * j) ≡ 0
    → Inserted p_de v i
        (write_sector
          (direct_blocks i b)
          (copy_to (24 * j) 24 p_de (sector v.disk (direct_blocks i b)))
          v)
        (grow i)
unfolding write_sector grow
place-Inserted p_de v i b j valid hb there hj unused =
    let lba = direct_blocks i b in
    let put = copy_to (24 * j) 24 p_de (sector v.disk lba) in
    record {
      block = b;
      idx = j;
      block_below = hb;
      idx_below = hj;
      unused = rw there (type_shift (sector v.disk lba) (24 * j) ∙ unused);
      changed =
          changed_lem (direct_blocks i) (direct_blocks (grow i)) v.disk (ide_write lba 1 put v.disk)
            b j p_de there (λ k ne. refl)
            (λ k x ne old.
              sector_kept lba (direct_blocks i k) put v.disk x (blocks_differ b k valid hb ne old))
            (λ l m hl hm.
              sector_written lba put v.disk (24 * l + m) (omega arith)
              ∙ copy_entry j l m p_de (sector v.disk lba) hm
              ∙ rw there refl);
      no_table = refl;
      size = refl;
    }

old-Taken :
    {v : Volume} {i : Inode} (k : ℕ)
    → DirIsValid v i
    → (direct_blocks i k == 0) ≡ false
    → Taken v (direct_blocks i k)
old-Taken {v} {i} k valid old = elim (Bool-cases (ltb k 12)) [
  | inl low ↦
      let hk : k < 12 = ground (arith, low) in
      subst (Taken v) (sym (direct i k hk))
        (valid.taken k hk (λ z. ground (arith, old, direct i k hk, z)))
  | inr high ↦ cc (rw high at old)
]

sector-Later :
    {v v' : Volume} (lba x : ℕ)
    → Taken v lba
    → Later v v'
    → sector v'.disk lba x ≡ sector v.disk lba x
sector-Later lba x t l = elim (Bool-cases (ltb x (512 * 1))) [
  | inl inside ↦ rw inside (l.same_data (512 * lba + x) (omega (arith, t.low)))
  | inr out ↦ rw out refl
]

-- In a new block
pub new-Inserted :
    (p_de : Bytes) (v v' : Volume) (i : Inode) (b lba : ℕ)
    → DirIsValid v i
    → b < 12
    → (direct_blocks i b == 0) ≡ true
    → NewBlock v v' lba
    → Inserted p_de v i (write_sector lba (copy_to 0 24 p_de zeros) v') (grow (sector_is b lba i))
unfolding write_sector grow sector_is
new-Inserted p_de v v' i b lba valid hb gone new =
    let f = direct_blocks i in
    let f' = direct_blocks (sector_is b lba i) in
    let put = copy_to 0 24 p_de zeros in
    let at : f' b ≡ lba = ground (arith, hb) in
    let positive : 0 < lba = omega (arith, new.now.low, new.valid.bits_first) in
    record {
      block = b;
      idx = 0;
      block_below = hb;
      idx_below = omega arith;
      unused = rw gone refl;
      changed =
          changed_lem f f' v.disk (ide_write lba 1 put v'.disk) b 0 p_de
            (ground (arith, at, positive)) (λ k ne. ground (arith, ne))
            (λ k x ne old.
              let t = old-Taken k valid old in
              sector_kept lba (f k) put v'.disk x (λ e. NewBlock-ne lba (f k) new t (sym e))
              ∙ sector-Later (f k) x t new.later)
            (λ l m hl hm.
              ap (λ s. sector (ide_write lba 1 put v'.disk) s (24 * l + m)) at
              ∙ sector_written lba put v'.disk (24 * l + m) (omega arith)
              ∙ copy_entry 0 l m p_de zeros hm
              ∙ rw gone refl);
      no_table = ground (arith, hb);
      size = refl;
    }
