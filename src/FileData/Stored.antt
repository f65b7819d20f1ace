-- ===== src/FileData/Stored.antt =====
-- What the loop of `file_write` leaves of a file in its direct blocks, and of the other data.
use os_zhenxiang.Prelude.{
  ℕ, ◌+◌, ◌-◌, ◌*◌, ◌/◌, ◌%◌, ◌<◌, ◌≤◌, ◌≡◌, ◌≢◌, refl, sym, ◌∙◌, ap, true, ltb, arith, ℕ_discrete,
  dec_lt,
}
use os_zhenxiang.Inode.{Inode, Bytes}
use os_zhenxiang.Volume.{Volume, all_blocks}
use os_zhenxiang.Volume.Blocks.{Taken}
use os_zhenxiang.FileData.Writing.{Writing}
use os_zhenxiang.FileData.Gathering.{Gather}
use os_zhenxiang.FileData.Chunks.{byte_in}
use os_zhenxiang.FileData.Read.{file_byte}
use os_zhenxiang.FileData.Fill.{ToWrite, Writes}
use os_zhenxiang.FileData.Grow.{Grown}
use os_zhenxiang.FileData.Direct.{block_cnt}

abbrev pub start : (count : ℕ) → Gather → Writing
start count g = record {
  i_size = g.inode.i_size;
  bytes_written = 0;
  size_left = count;
  first_write_block = true;
  disk = g.volume.disk;
}

-- An address in a sector of the file
file_address : (f : ℕ → ℕ) (n : ℕ) → (512 * f (n / 512) + n % 512) / 512 ≡ f (n / 512)
file_address f n = omega arith

-- what the write leaves of the disk `disk`, given the partition and the inode before
pub record Stored (count : ℕ) (src : Bytes) (v : Volume) (i i' : Inode) (disk : Bytes)
    : Type 0 where
  pub put : (n : ℕ) → i.i_size ≤ n → n < i.i_size + count → file_byte i' disk n ≡ src (n - i.i_size)
  pub kept : (n : ℕ) → n < i.i_size → file_byte i' disk n ≡ file_byte i v.disk n
  pub others :
      (a : ℕ)
      → Taken v (a / 512)
      → ((k : ℕ) → k < block_cnt i → i.i_sectors k ≢ a / 512)
      → disk a ≡ v.disk a

module _ (count : ℕ) (src : Bytes) (v : Volume) (i : Inode) (h : Gather) (u : Writing)
    (disk : Bytes) (used_eq : 0 < i.i_size → block_cnt i ≡ i.i_size / 512 + 1)
    (cnt_le : block_cnt i ≤ i.i_size / 512 + 1) (small : i.i_size + count < 6144)
    (g : Grown v i (block_cnt i) h.volume h.inode ((i.i_size + count) / 512 + 1))
    (collected : (k : ℕ)
      → i.i_size / 512 + 1 ≤ k + 1
      → k < (i.i_size + count) / 512 + 1
      → h.blocks k ≡ h.inode.i_sectors k)
    (size : h.inode.i_size ≡ i.i_size) (w : Writes count h.blocks src (start count h) u)
    (stored : (a : ℕ) → h.volume.data_start_lba ≤ a / 512 → disk a ≡ u.disk a) where
  abbrev pub after : Inode
  after = record (h.inode) { i_size = u.i_size }

  abbrev sectors : ℕ → ℕ
  sectors = h.inode.i_sectors

  -- a byte's place on the disk
  abbrev place : ℕ → ℕ
  place n = 512 * sectors (n / 512) + n % 512

  block_at : (n : ℕ) → n < i.i_size + count → all_blocks after disk (n / 512) ≡ sectors (n / 512)
  unfolding all_blocks
  block_at n lt = let t : ltb (n / 512) 12 ≡ true = ground (arith, small, lt) in rw t refl

  in_data : (n : ℕ) → n < i.i_size + count → h.volume.data_start_lba ≤ place n / 512
  in_data n lt = let t = g.blocks.taken (n / 512) (omega arith) in omega (arith, t.low)

  -- a byte of the file at the end, as the loop left it
  as_left : (n : ℕ) → n < i.i_size + count → file_byte after disk n ≡ u.disk (place n)
  as_left n lt = rw (block_at n lt) (stored (place n) (in_data n lt))

  old_block : (n : ℕ) → n < i.i_size → all_blocks i v.disk (n / 512) ≡ sectors (n / 512)
  unfolding all_blocks
  old_block n lt =
      let t : ltb (n / 512) 12 ≡ true = ground (arith, small, lt) in
      rw t (sym (g.old (n / 512) (omega (arith, used_eq (omega arith)))))

  -- the blocks that the loop writes
  written : (k : ℕ) → ToWrite (start count h) k → h.blocks k ≡ sectors k
  written k t = collected k (omega (arith, size, t.0)) (omega (arith, size, t.1))

  collected_at :
      (n : ℕ)
      → i.i_size / 512 ≤ n / 512
      → n < i.i_size + count
      → (d : Bytes) → byte_in h.blocks d n ≡ d (place n)
  collected_at n lo hi d =
      ap (λ s. d (512 * s + n % 512)) (collected (n / 512) (omega arith) (omega arith))

  put_lem :
      (n : ℕ) → i.i_size ≤ n → n < i.i_size + count → file_byte after disk n ≡ src (n - i.i_size)
  put_lem n lo hi =
      as_left n hi
      ∙ sym (collected_at n (omega arith) hi u.disk)
      ∙ w.put n (omega (arith, size)) (omega (arith, size))
      ∙ ap src (omega (arith, size))

  before_at : (n : ℕ) → n < i.i_size → h.volume.disk (place n) ≡ file_byte i v.disk n
  before_at n lt =
      rw (old_block n lt)
        (g.later.same_data (place n) (omega (arith, g.later.start, in_data n (omega arith))))

  kept_lem : (n : ℕ) → n < i.i_size → file_byte after disk n ≡ file_byte i v.disk n
  kept_lem n lt = elim (ℕ_discrete (n / 512) (i.i_size / 512)) [
    | yes e ↦
        as_left n (omega arith)
        ∙ sym (collected_at n (omega arith) (omega arith) u.disk)
        ∙ w.kept n (omega (arith, size)) (e ∙ sym (ap (λ (m : ℕ). m / 512) size)) refl
        ∙ collected_at n (omega arith) (omega arith) h.volume.disk
        ∙ before_at n lt
    | no ne ↦
        as_left n (omega arith)
        ∙ w.frame (place n) (λ k t same.
          let e : n / 512 ≡ k =
            g.blocks.apart (n / 512) k (omega arith) (omega (arith, size, t.1))
              (sym (file_address sectors n) ∙ same ∙ written k t) in
          absurd (omega (arith, e, ne, size, t.0)))
        ∙ before_at n lt
  ]

  others_lem :
      (a : ℕ)
      → Taken v (a / 512)
      → ((k : ℕ) → k < block_cnt i → i.i_sectors k ≢ a / 512)
      → disk a ≡ v.disk a
  others_lem a t off =
      stored a (omega (arith, t.low, g.later.start))
      ∙ w.frame a (λ k tw same.
        let at : sectors k ≡ a / 512 = sym (same ∙ written k tw) in
        elim (dec_lt k (block_cnt i)) [
          | yes old ↦ off k old (sym (g.old k old) ∙ at)
          | no new ↦ cc (g.fresh k (omega arith) (omega (arith, size, tw.1)), t.set, at)
        ])
      ∙ g.later.same_data a t.low

  pub Writes-Stored : Stored count src v i after disk
  Writes-Stored = record { put = put_lem; kept = kept_lem; others = others_lem }
