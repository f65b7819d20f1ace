-- ===== src/Inode/Store.antt =====
-- What `inode_sync` and `inode_delete` write, and what is read back.
use os_zhenxiang.Prelude.{
  ℕ, ◌+◌, ◌-◌, ◌*◌, ◌/◌, ◌%◌, ◌^◌, ◌<◌, ◌≤◌, ◌≡◌, refl, sym, ◌∙◌, ap, subst, Bool, true, false,
  ◌&&◌, ltb, leb, if◌then◌else◌, arith, ok, u32, Bool-cases, inl, inr,
}
use os_zhenxiang.Inode.{
  Inode, Partition, InodePosition, Bytes, inode_size, inode_locate, patch, layout, inode_sync,
  inode_read, sectors_of, ide_read,
}
use os_zhenxiang.Inode.Layout.{InodeIsValid, Same, inode_at-layout}

-- The table of inodes lies in the partition, in sectors of 32-bit numbers.
pub record PartitionIsValid (part : Partition) : Type 0 where
  pub inside : part.inode_table_lba + 608 ≤ part.start_lba + part.sec_cnt
  pub small : part.start_lba + part.sec_cnt < 2 ^ 32

-- the first byte of an inode on the disk
abbrev pub slot : Partition → ℕ → ℕ
slot part inode_no = 512 * part.inode_table_lba + inode_no * inode_size

abbrev pub in_slot : Partition → ℕ → ℕ → Bool
in_slot part inode_no a = leb (slot part inode_no) a && ltb a (slot part inode_no + inode_size)

-- where an inode is, when it is there at all
record Located (part : Partition) (inode_no : ℕ) (pos : InodePosition) : Type 0 where
  at : 512 * pos.sec_lba + pos.off_size ≡ slot part inode_no
  fits : pos.off_size + inode_size ≤ 512 * sectors_of pos
  near : pos.sec_lba ≤ part.start_lba + part.sec_cnt

inode_locate_lem :
    (part : Partition) (inode_no : ℕ)
    → PartitionIsValid part
    → inode_no < 4096
    → (pos : InodePosition) × (inode_locate part inode_no ≡ ok pos) × Located part inode_no pos
unfolding inode_locate
inode_locate_lem part inode_no v h =
    let t : ltb inode_no 4096 ≡ true = ground arith in
    let lba : u32 (part.inode_table_lba + inode_no * inode_size / 512)
        ≡ part.inode_table_lba + inode_no * inode_size / 512 =
      omega (arith, v.inside, v.small) in
    (
      record {
        two_sec = ltb (512 - inode_no * inode_size % 512) inode_size;
        sec_lba = part.inode_table_lba + inode_no * inode_size / 512;
        off_size = inode_no * inode_size % 512;
      },
      rw (t, lba) refl,
      record { at = omega arith; fits = ground arith; near = omega (arith, v.inside) },
    )

patch_lem :
    (part : Partition) (inode_no : ℕ) (pos : InodePosition) (src buf disk : Bytes)
    → Located part inode_no pos
    → (a : ℕ)
    → patch pos src buf disk a
      ≡ (if in_slot part inode_no a then src (a - slot part inode_no) else disk a)
unfolding patch
patch_lem part inode_no pos src buf disk l a =
    let start : slot part inode_no ≡ 512 * pos.sec_lba + pos.off_size = sym l.at in
    elim (Bool-cases (in_slot part inode_no a)) [
      | inl inside ↦
          let sector : (leb (512 * pos.sec_lba) a && ltb a (512 * (pos.sec_lba + sectors_of pos)))
              ≡ true =
            ground (arith, l.fits, start, inside) in
          let copied : (leb pos.off_size (a - 512 * pos.sec_lba)
                && ltb (a - 512 * pos.sec_lba) (pos.off_size + inode_size))
              ≡ true =
            ground (arith, start, inside) in
          let from : a - 512 * pos.sec_lba - pos.off_size ≡ a - slot part inode_no =
            ground (arith, start, inside) in
          rw (sector, copied, inside, from) refl
      | inr out ↦
          elim (Bool-cases
            (leb (512 * pos.sec_lba) a && ltb a (512 * (pos.sec_lba + sectors_of pos)))) [
              | inl sector ↦
                  let kept : (leb pos.off_size (a - 512 * pos.sec_lba)
                        && ltb (a - 512 * pos.sec_lba) (pos.off_size + inode_size))
                      ≡ false =
                    ground (arith, start, out, sector) in
                  let read : ltb (a - 512 * pos.sec_lba) (512 * sectors_of pos) ≡ true =
                    ground (arith, sector) in
                  let back : 512 * pos.sec_lba + (a - 512 * pos.sec_lba) ≡ a =
                    ground (arith, sector) in
                  rw (sector, kept, read, back, out) refl
              | inr far ↦ rw (far, out) refl
            ]
    ]

-- what `inode_sync` keeps of an inode
abbrev pub pure : Inode → Inode
pure i = record i { i_open_cnts = 0; write_deny = false }

-- An inode whose bytes stand in its slot is what `inode_read` returns.
inode_read_lem :
    (part : Partition) (inode_no : ℕ) (i : Inode) (buf disk : Bytes)
    → PartitionIsValid part
    → inode_no < 4096
    → InodeIsValid i
    → ((a : ℕ) → in_slot part inode_no a ≡ true → disk a ≡ layout i (a - slot part inode_no))
    → (j : Inode) × (inode_read part inode_no buf disk ≡ ok j) × Same j i
unfolding inode_read
inode_read_lem part inode_no i buf disk v h vi stored =
    let (pos, e, l) = inode_locate_lem part inode_no v h in
    let same =
      inode_at-layout i (ide_read pos.sec_lba (sectors_of pos) disk buf) pos.off_size vi (λ k hk.
        let read : ltb (pos.off_size + k) (512 * sectors_of pos) ≡ true = ground (arith, l.fits) in
        let at : 512 * pos.sec_lba + (pos.off_size + k) ≡ slot part inode_no + k =
          omega (arith, l.at) in
        let inside : in_slot part inode_no (slot part inode_no + k) ≡ true = ground arith in
        let back : slot part inode_no + k - slot part inode_no ≡ k = omega arith in
        rw (read, at) (stored (slot part inode_no + k) inside ∙ ap (layout i) back)) in
    (_, rw e refl, same)

pub sync_lem :
    (part : Partition) (i : Inode) (io_buf disk : Bytes)
    → PartitionIsValid part
    → (disk' : Bytes) × (inode_sync part i io_buf disk ≡ ok disk')
      × ((a : ℕ)
          → disk' a ≡ (
              if in_slot part (i.i_no % 256) a
              then layout (pure i) (a - slot part (i.i_no % 256))
              else disk a))
unfolding inode_sync
sync_lem part i io_buf disk v =
    let (pos, e, l) = inode_locate_lem part (i.i_no % 256) v (omega arith) in
    let end : u32 (part.start_lba + part.sec_cnt) ≡ part.start_lba + part.sec_cnt =
      omega (arith, v.small) in
    let near : leb pos.sec_lba (part.start_lba + part.sec_cnt) ≡ true = ground (arith, l.near) in
    (
      patch pos (layout (pure i)) io_buf disk,
      rw (e, end, near) refl,
      patch_lem part (i.i_no % 256) pos (layout (pure i)) io_buf disk l,
    )

pure-InodeIsValid : (i : Inode) → InodeIsValid i → InodeIsValid (pure i)
pure-InodeIsValid i v = record { no = v.no; size = v.size; cnts = omega arith; sectors = v.sectors }

-- In a partition that holds its table of inodes, an inode of 32-bit fields whose number is below 256
-- is stored by `inode_sync`: the call returns, changes no byte of
-- the disk outside of the inode's slot, and from then on `inode_read` returns the inode, with its
-- count of openers 0 and writing allowed.
pub inode_read-inode_sync :
    (part : Partition) (i : Inode) (io_buf disk : Bytes)
    → PartitionIsValid part
    → InodeIsValid i
    → i.i_no < 256
    → (disk' : Bytes) × (inode_sync part i io_buf disk ≡ ok disk')
      × ((a : ℕ) → in_slot part i.i_no a ≡ false → disk' a ≡ disk a)
      × ((buf : Bytes) → (j : Inode) × (inode_read part i.i_no buf disk' ≡ ok j) × Same j (pure i))
inode_read-inode_sync part i io_buf disk v vi low =
    let (disk', e, bytes) = sync_lem part i io_buf disk v in
    let no : i.i_no % 256 ≡ i.i_no = omega arith in
    let bytes' =
      subst
        (λ n.
          (a : ℕ)
          → disk' a ≡ (if in_slot part n a then layout (pure i) (a - slot part n) else disk a))
        no bytes in
    (
      disk',
      e,
      λ a out. bytes' a ∙ rw out refl,
      λ buf.
          inode_read_lem part i.i_no (pure i) buf disk' v (omega arith) (pure-InodeIsValid i vi)
            (λ a h. bytes' a ∙ rw h refl),
    )

-- In such a partition, an inode whose number is 256 or more is not stored: `inode_sync` returns, leaves every byte of the
-- inode's own slot as it was, and makes the slot of another inode, the one whose number is the
-- rest by 256, hold it.
pub inode_sync_misses :
    (part : Partition) (i : Inode) (io_buf disk : Bytes)
    → PartitionIsValid part
    → InodeIsValid i
    → 256 ≤ i.i_no
    → (disk' : Bytes) × (inode_sync part i io_buf disk ≡ ok disk')
      × ((a : ℕ) → in_slot part i.i_no a ≡ true → disk' a ≡ disk a)
      × ((buf : Bytes)
          → (j : Inode) × (inode_read part (i.i_no % 256) buf disk' ≡ ok j) × Same j (pure i))
inode_sync_misses part i io_buf disk v vi high =
    let (disk', e, bytes) = sync_lem part i io_buf disk v in
    let less : i.i_no % 256 < i.i_no = omega arith in
    (
      disk',
      e,
      λ a own.
          let out : in_slot part (i.i_no % 256) a ≡ false = ground (arith, own) in
          bytes a ∙ rw out refl,
      λ buf.
          inode_read_lem part (i.i_no % 256) (pure i) buf disk' v (omega arith)
            (pure-InodeIsValid i vi) (λ a h. bytes a ∙ rw h refl),
    )
