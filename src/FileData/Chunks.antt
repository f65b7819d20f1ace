-- ===== src/FileData/Chunks.antt =====
-- The loop of `file_read`, and the addresses that it collects.
use os_zhenxiang.Prelude.{
  ℕ, zero, suc, ◌+◌, ◌-◌, ◌*◌, ◌/◌, ◌%◌, ◌^◌, ◌<◌, ◌≤◌, ◌≡◌, ◌≢◌, refl, ◌∙◌, true, false, ◌&&◌, ok,
  ltb, leb, ◌==◌, if◌then◌else◌, arith, Bool-cases, inl, inr, ltb→lt,
}
use os_zhenxiang.Inode.{Inode, Bytes, ide_read}
use os_zhenxiang.Volume.{zeros, all_blocks}
use os_zhenxiang.FileData.{
  table_of, direct_part, collect_blocks, Reading, chunk, read_chunk, read_chunks,
}

-- the byte at a position of the data that blocks hold
abbrev pub byte_in : (blocks : ℕ → ℕ) → (disk : Bytes) → ℕ → ℕ
byte_in blocks disk n = disk (512 * blocks (n / 512) + n % 512)

-- A file whose size asks for indirect blocks has a table of them.
abbrev pub HasTable : Inode → Type 0
HasTable i = 6144 ≤ i.i_size → i.i_sectors 12 ≢ 0

read_byte :
    (blocks : ℕ → ℕ) (disk : Bytes) (pos k : ℕ)
    → pos % 512 + k < 512
    → ide_read (blocks (pos / 512)) 1 disk zeros (pos % 512 + k) ≡ byte_in blocks disk (pos + k)
read_byte blocks disk pos k h =
    let t : ltb (pos % 512 + k) (512 * 1) ≡ true = ground arith in
    let q : (pos + k) / 512 ≡ pos / 512 = omega arith in
    let r : (pos + k) % 512 ≡ pos % 512 + k = omega arith in
    let e : 512 * blocks (pos / 512) + (pos % 512 + k)
        ≡ 512 * blocks (pos / 512) + (pos % 512 + k) =
      refl in
    rw (t, q, r) refl

-- what the loop leaves when it starts from `r`
pub record Reads (size : ℕ) (blocks : ℕ → ℕ) (disk : Bytes) (r s : Reading) : Type 0 where
  pub at : s.fd_pos ≡ r.fd_pos + r.size_left
  pub all : s.bytes_read ≡ size
  pub bytes :
      (a : ℕ)
      → s.buf a ≡ (
          if leb r.bytes_read a && ltb a size
          then byte_in blocks disk (r.fd_pos + (a - r.bytes_read))
          else r.buf a)

pub record Runs (size : ℕ) (r : Reading) : Type 0 where
  pub sum : r.bytes_read + r.size_left ≡ size
  pub small : r.fd_pos + r.size_left < 2 ^ 32
  pub size_small : size < 2 ^ 32

read_chunk_buf :
    (blocks : ℕ → ℕ) (disk : Bytes) (r : Reading) (a : ℕ)
    → (read_chunk blocks disk r).buf a ≡ (
        if leb r.bytes_read a && ltb a (r.bytes_read + chunk r.fd_pos r.size_left)
        then byte_in blocks disk (r.fd_pos + (a - r.bytes_read))
        else r.buf a)
unfolding read_chunk
read_chunk_buf blocks disk r a =
    elim (Bool-cases (leb r.bytes_read a && ltb a (r.bytes_read + chunk r.fd_pos r.size_left))) [
      | inl e ↦ rw e (read_byte blocks disk r.fd_pos (a - r.bytes_read) (ground arith))
      | inr e ↦ rw e refl
    ]

-- One round reads `c` bytes.
record Stepped (c : ℕ) (r s : Reading) : Type 0 where
  pos : s.fd_pos ≡ r.fd_pos + c
  read : s.bytes_read ≡ r.bytes_read + c
  left : s.size_left + c ≡ r.size_left
  positive : 0 < c

read_chunk-Stepped :
    (size : ℕ) (blocks : ℕ → ℕ) (disk : Bytes) (r : Reading)
    → Runs size r
    → r.bytes_read < size
    → Stepped (chunk r.fd_pos r.size_left) r (read_chunk blocks disk r)
unfolding read_chunk
read_chunk-Stepped size blocks disk r v h = record {
  pos = ground (arith, v.sum, v.small);
  read = ground (arith, v.sum, v.small, v.size_small);
  left = ground (arith, v.sum);
  positive = ground (arith, v.sum);
}

Stepped-Runs : {size c : ℕ} {r s : Reading} → Runs size r → Stepped c r s → Runs size s
Stepped-Runs v t = record {
  sum = omega (arith, v.sum, t.read, t.left);
  small = omega (arith, v.small, t.pos, t.left);
  size_small = v.size_small;
}

-- The bytes of a round and those of the rounds behind it
Reads-step :
    (size : ℕ) (blocks : ℕ → ℕ) (disk : Bytes) (r u : Reading)
    → Runs size r
    → Stepped (chunk r.fd_pos r.size_left) r (read_chunk blocks disk r)
    → Reads size blocks disk (read_chunk blocks disk r) u
    → Reads size blocks disk r u
Reads-step size blocks disk r u v t rest =
    let c = chunk r.fd_pos r.size_left in
    let s = read_chunk blocks disk r in
    record {
      at = omega (arith, rest.at, t.pos, t.left);
      all = rest.all;
      bytes = λ a. elim (Bool-cases (leb s.bytes_read a && ltb a size)) [
        | inl later ↦
            let inside : leb r.bytes_read a && ltb a size ≡ true = ground (arith, t.read, later) in
            let same : s.fd_pos + (a - s.bytes_read) ≡ r.fd_pos + (a - r.bytes_read) =
              ground (arith, t.read, t.pos, later) in
            rw inside (rest.bytes a ∙ rw (later, same) refl)
        | inr now ↦
            let same : (leb r.bytes_read a && ltb a size)
                ≡ (leb r.bytes_read a && ltb a (r.bytes_read + c)) =
              ground (arith, v.sum, t.read, t.left, now) in
            rw same (rest.bytes a ∙ rw now (read_chunk_buf blocks disk r a))
      ];
    }

pub read_chunks_lem :
    (fuel size : ℕ) (blocks : ℕ → ℕ) (disk : Bytes) (r : Reading)
    → Runs size r
    → r.size_left ≤ fuel
    → Reads size blocks disk r (read_chunks fuel size blocks disk r)
unfolding read_chunks
read_chunks_lem zero size blocks disk r v h = record {
  at = omega (arith, v.sum);
  all = omega (arith, v.sum);
  bytes = λ a. ground (arith, v.sum);
}
read_chunks_lem (suc fuel) size blocks disk r v h = elim (Bool-cases (ltb r.bytes_read size)) [
  | inl go ↦
      let t = read_chunk-Stepped size blocks disk r v (ltb→lt _ _ go) in
      rw go (
        Reads-step size blocks disk r _ v t (
          read_chunks_lem fuel size blocks disk (read_chunk blocks disk r) (Stepped-Runs v t)
            (omega (arith, t.left, t.positive))))
  | inr stop ↦
      let z : r.size_left ≡ 0 = ground (arith, v.sum) in
      rw stop (record {
        at = omega arith;
        all = omega (arith, v.sum);
        bytes = λ a. ground (arith, v.sum);
      })
]

pub collect_blocks_lem :
    (start end : ℕ) (i : Inode) (disk : Bytes)
    → start ≤ end
    → end < 140
    → (12 ≤ end → i.i_sectors 12 ≢ 0)
    → (blocks : ℕ → ℕ) × (collect_blocks start end i disk ≡ ok blocks)
      × ((k : ℕ) → start ≤ k → k ≤ end → blocks k ≡ all_blocks i disk k)
unfolding collect_blocks all_blocks
collect_blocks_lem start end i disk le small table = elim (Bool-cases (start == end)) [
  | inl one ↦ elim (Bool-cases (ltb end 12)) [
    | inl direct ↦ (direct_part end end i, rw (one, direct) refl, λ k lo hi. ground arith)
    | inr indirect ↦
        (table_of i disk, rw (one, indirect) refl, λ k lo hi. ground (arith, table (ground arith)))
  ]
  | inr many ↦ elim (Bool-cases (ltb end 12)) [
    | inl direct ↦ (direct_part start end i, rw (many, direct) refl, λ k lo hi. ground arith)
    | inr indirect ↦
        let present : (i.i_sectors 12 == 0) ≡ false = ground (arith, table (ground arith)) in
        elim (Bool-cases (ltb start 12)) [
          | inl both ↦ (
            λ k. if ltb k 12 then direct_part start 11 i k else table_of i disk k,
            rw (many, indirect, both, present) refl,
            λ k lo hi. ground arith,
          )
          | inr none_direct ↦ (
            table_of i disk,
            rw (many, indirect, none_direct, present) refl,
            λ k lo hi. ground arith,
          )
        ]
  ]
]
