-- ===== src/Inode/Layout.antt =====
-- An inode in memory is read back from its bytes.
use os_zhenxiang.Prelude.{
  ℕ, ◌+◌, ◌-◌, ◌*◌, ◌/◌, ◌%◌, ◌^◌, ◌<◌, ◌≡◌, refl, ◌∙◌, ap, Bool, true, false, not, ltb, ◌==◌,
  if◌then◌else◌, arith,
}
use os_zhenxiang.Inode.{Inode, Bytes, inode_size, byte_of, layout, number_at, inode_at}

-- 32-bit fields
pub record InodeIsValid (i : Inode) : Type 0 where
  pub no : i.i_no < 2 ^ 32
  pub size : i.i_size < 2 ^ 32
  pub cnts : i.i_open_cnts < 2 ^ 32
  pub sectors : (k : ℕ) → i.i_sectors k < 2 ^ 32

-- the same inode: the array has 13 places
abbrev pub Same : Inode → Inode → Type 0
Same i j =
    (i.i_no ≡ j.i_no)
    × (i.i_size ≡ j.i_size)
    × (i.i_open_cnts ≡ j.i_open_cnts)
    × (i.write_deny ≡ j.write_deny)
    × ((k : ℕ) → k < 13 → i.i_sectors k ≡ j.i_sectors k)

four_bytes :
    (v : ℕ)
    → v < 2 ^ 32
    → byte_of v 0 + 256 * byte_of v 1 + 65536 * byte_of v 2 + 16777216 * byte_of v 3 ≡ v
four_bytes v h = omega arith

pub number_lem :
    (m : Bytes) (q v : ℕ)
    → m q ≡ byte_of v 0
    → m (q + 1) ≡ byte_of v 1
    → m (q + 2) ≡ byte_of v 2
    → m (q + 3) ≡ byte_of v 3
    → v < 2 ^ 32
    → number_at m q ≡ v
number_lem m q v b₀ b₁ b₂ b₃ h = rw (b₀, b₁, b₂, b₃) (four_bytes v h)

layout_sector :
    (i : Inode) (k j : ℕ) → k < 13 → j < 4 → layout i (16 + 4 * k + j) ≡ byte_of (i.i_sectors k) j
unfolding layout
layout_sector i k j hk hj =
    let at : (16 + 4 * k + j - 16) / 4 ≡ k = omega arith in
    let byte : (16 + 4 * k + j - 16) % 4 ≡ j = omega arith in
    let a : ltb (16 + 4 * k + j) 4 ≡ false = ground arith in
    let b : ltb (16 + 4 * k + j) 8 ≡ false = ground arith in
    let c : ltb (16 + 4 * k + j) 12 ≡ false = ground arith in
    let d : (16 + 4 * k + j == 12) ≡ false = ground arith in
    let e : ltb (16 + 4 * k + j) 16 ≡ false = ground arith in
    let f : ltb (16 + 4 * k + j) 68 ≡ true = ground arith in rw (a, b, c, d, e, f, at, byte) refl

flag_lem : (b : Bool) → not ((if b then 1 else 0) == 0) ≡ b
flag_lem true = refl
flag_lem false = refl

-- An inode whose 76 bytes stand at a place is what is read there.
pub inode_at-layout :
    (i : Inode) (m : Bytes) (p : ℕ)
    → InodeIsValid i
    → ((k : ℕ) → k < inode_size → m (p + k) ≡ layout i k)
    → Same (inode_at m p) i
unfolding inode_at layout
inode_at-layout i m p v here =
    let at : (q k : ℕ) → q ≡ p + k → k < inode_size → m q ≡ layout i k =
      λ q k e h. ap m e ∙ here k h in
    (
      number_lem m p i.i_no (at _ 0 (omega arith) (omega arith))
          (at _ 1 (omega arith) (omega arith)) (at _ 2 (omega arith) (omega arith))
          (at _ 3 (omega arith) (omega arith)) v.no,
      number_lem m (p + 4) i.i_size (at _ 4 (omega arith) (omega arith))
          (at _ 5 (omega arith) (omega arith)) (at _ 6 (omega arith) (omega arith))
          (at _ 7 (omega arith) (omega arith)) v.size,
      number_lem m (p + 8) i.i_open_cnts (at _ 8 (omega arith) (omega arith))
          (at _ 9 (omega arith) (omega arith)) (at _ 10 (omega arith) (omega arith))
          (at _ 11 (omega arith) (omega arith)) v.cnts,
      ap (λ b. not (b == 0)) (here 12 (omega arith)) ∙ flag_lem i.write_deny,
      λ k h.
          let sector : (q j : ℕ)
              → q ≡ p + (16 + 4 * k + j)
              → j < 4
              → m q ≡ byte_of (i.i_sectors k) j =
            λ q j e hj. at q (16 + 4 * k + j) e (omega arith) ∙ layout_sector i k j h hj in
          number_lem m (p + 16 + 4 * k) (i.i_sectors k) (sector _ 0 (omega arith) (omega arith))
            (sector _ 1 (omega arith) (omega arith)) (sector _ 2 (omega arith) (omega arith))
            (sector _ 3 (omega arith) (omega arith)) (v.sectors k),
    )
