-- ===== src/FileData/Read.antt =====
-- What `file_read` returns and stores.
use Prim.Native.Nat.{min}
use os_zhenxiang.Prelude.{
  ℕ, ◌+◌, ◌-◌, ◌*◌, ◌/◌, ◌%◌, ◌^◌, ◌<◌, ◌≤◌, ◌≡◌, refl, sym, ◌∙◌, ap, ap₂, true, false, ◌&&◌, none,
  some, ok, ltb, leb, ◌==◌, if◌then◌else◌, u32, arith, Bool-cases, inl, inr,
}
use os_zhenxiang.Inode.{Inode, Bytes}
use os_zhenxiang.FileTable.{File}
use os_zhenxiang.Volume.{all_blocks}
use os_zhenxiang.FileData.{collect_blocks, Reading, read_chunks, read_bytes, file_read}
use os_zhenxiang.FileData.Chunks.{byte_in, HasTable, read_chunks_lem, collect_blocks_lem}

-- the bytes of a file, from the blocks of its inode
abbrev pub file_byte : Inode → (disk : Bytes) → ℕ → ℕ
file_byte i disk = byte_in (all_blocks i disk) disk

-- `size` bytes from the position on, at the start of the buffer
abbrev pub Holds : (size pos : ℕ) → Inode → (disk buf buf' : Bytes) → Type 0
Holds size pos i disk buf buf' =
    (a : ℕ) → buf' a ≡ (if ltb a size then file_byte i disk (pos + a) else buf a)

abbrev reading : (size : ℕ) → File → (buf : Bytes) → Reading
reading size f buf = record { fd_pos = f.fd_pos; bytes_read = 0; size_left = size; buf = buf }

module _ (size : ℕ) (f : File) (i : Inode) (disk buf : Bytes) (blocks : ℕ → ℕ) where
  abbrev done : Reading
  done = read_chunks size size blocks disk (reading size f buf)

  read_bytes-done :
      f.fd_pos + size < 71168
      → collect_blocks (f.fd_pos / 512) ((f.fd_pos + size) / 512) i disk ≡ ok blocks
      → read_bytes size f i disk buf
        ≡ ok (some done.bytes_read, record f { fd_pos = done.fd_pos }, done.buf)
  unfolding read_bytes
  read_bytes-done small collected =
      let sum : u32 (f.fd_pos + size) ≡ f.fd_pos + size = omega arith in
      let first : ltb (f.fd_pos / 512) 139 ≡ true = ground arith in
      let last : ltb ((f.fd_pos + size) / 512) 139 ≡ true = ground arith in
      rw (sum, first, last, collected) refl

  read_bytes-blocks :
      f.fd_pos + size < 71168
      → collect_blocks (f.fd_pos / 512) ((f.fd_pos + size) / 512) i disk ≡ ok blocks
      → ((k : ℕ)
          → f.fd_pos / 512 ≤ k
          → k ≤ (f.fd_pos + size) / 512
          → blocks k ≡ all_blocks i disk k)
      → (buf' : Bytes) × (read_bytes size f i disk buf
          ≡ ok (some size, record f { fd_pos = f.fd_pos + size }, buf'))
        × Holds size f.fd_pos i disk buf buf'
  read_bytes-blocks small collected same =
      let reads =
        read_chunks_lem size size blocks disk (reading size f buf)
          (record { sum = omega arith; small = omega arith; size_small = omega arith })
          (omega arith) in
      (
        done.buf,
        read_bytes-done small collected
            ∙ ap₂ (λ n pos. ok (some n, record f { fd_pos = pos }, done.buf)) reads.all reads.at,
        λ a. elim (Bool-cases (ltb a size)) [
          | inl inside ↦
              let block : blocks ((f.fd_pos + a) / 512) ≡ all_blocks i disk ((f.fd_pos + a) / 512) =
                same ((f.fd_pos + a) / 512) (omega arith) (ground (arith, inside)) in
              let low : leb 0 a ≡ true = ground arith in
              let from : a - 0 ≡ a = omega arith in
              rw inside (
                reads.bytes a
                ∙ rw (inside, low, from) (ap (λ b. disk (512 * b + (f.fd_pos + a) % 512)) block))
          | inr out ↦ rw out (reads.bytes a ∙ ground (arith, out))
        ],
      )

read_bytes_lem :
    (size : ℕ) (f : File) (i : Inode) (disk buf : Bytes)
    → f.fd_pos + size ≤ i.i_size
    → i.i_size < 71168
    → HasTable i
    → (buf' : Bytes) × (read_bytes size f i disk buf
        ≡ ok (some size, record f { fd_pos = f.fd_pos + size }, buf'))
      × Holds size f.fd_pos i disk buf buf'
read_bytes_lem size f i disk buf within small table =
    let (blocks, collected, same) =
      collect_blocks_lem (f.fd_pos / 512) ((f.fd_pos + size) / 512) i disk (omega arith)
        (omega arith) (λ h. table (omega arith)) in
    read_bytes-blocks size f i disk buf blocks (omega arith) collected same

module _ (count : ℕ) (f : File) (i : Inode) (disk buf : Bytes)
    (sum : u32 (f.fd_pos + count) ≡ f.fd_pos + count) where
  file_read_all :
      ltb i.i_size (f.fd_pos + count) ≡ false
      → file_read count f i disk buf ≡ read_bytes count f i disk buf
  unfolding file_read
  file_read_all all = rw (sum, all) refl

  module _ (left : u32 (i.i_size + 2 ^ 32 - f.fd_pos) ≡ i.i_size - f.fd_pos)
      (beyond : ltb i.i_size (f.fd_pos + count) ≡ true) where
    file_read_end :
        (i.i_size - f.fd_pos == 0) ≡ true → file_read count f i disk buf ≡ ok (none, f, buf)
    unfolding file_read
    file_read_end end = rw (sum, beyond, left, end) refl

    file_read_rest :
        (i.i_size - f.fd_pos == 0) ≡ false
        → file_read count f i disk buf ≡ read_bytes (i.i_size - f.fd_pos) f i disk buf
    unfolding file_read
    file_read_rest some_left = rw (sum, beyond, left, some_left) refl

-- `file_read` of a file of less than 139 blocks, with an indirect table when it needs one, from a
-- position in the file: at the end of the file it returns -1, unless it is asked for no byte;
-- otherwise it returns the number of bytes asked for, or of those that are left if that is less.
-- So many bytes of the file, from the position on, are at the start of the buffer, which is as
-- before behind them, and the position has moved on by that number. The position and the count
-- have a sum below 2 ^ 32.
pub file_read_lem :
    (count : ℕ) (f : File) (i : Inode) (disk buf : Bytes)
    → f.fd_pos ≤ i.i_size
    → f.fd_pos + count < 2 ^ 32
    → i.i_size < 71168
    → HasTable i
    → (buf' : Bytes) × (file_read count f i disk buf
        ≡ ok (
          if (f.fd_pos == i.i_size) && ltb 0 count
              then none
              else some (min count (i.i_size - f.fd_pos)),
          record f { fd_pos = f.fd_pos + min count (i.i_size - f.fd_pos) },
          buf',
        ))
      × Holds (min count (i.i_size - f.fd_pos)) f.fd_pos i disk buf buf'
file_read_lem count f i disk buf within sum small table =
    let pos_sum : u32 (f.fd_pos + count) ≡ f.fd_pos + count = omega arith in
    let left : u32 (i.i_size + 2 ^ 32 - f.fd_pos) ≡ i.i_size - f.fd_pos = omega arith in
    elim (Bool-cases (ltb i.i_size (f.fd_pos + count))) [
      | inl beyond ↦
          let size : min count (i.i_size - f.fd_pos) ≡ i.i_size - f.fd_pos =
            ground (arith, beyond) in
          elim (Bool-cases (i.i_size - f.fd_pos == 0)) [
            | inl end ↦
                let at : (f.fd_pos == i.i_size) && ltb 0 count ≡ true =
                  ground (arith, beyond, end) in
                let z : min count (i.i_size - f.fd_pos) ≡ 0 = ground (arith, end) in
                let same : f.fd_pos + 0 ≡ f.fd_pos = omega arith in
                let none_below : (a : ℕ) → ltb a 0 ≡ false = λ a. ground arith in
                rw (at, z)
                  (
                    buf,
                    file_read_end count f i disk buf pos_sum left beyond end
                        ∙ ap (λ p. ok (none, record f { fd_pos = p }, buf)) (sym same),
                    λ a. rw (none_below a) refl,
                  )
            | inr some_left ↦
                let at : ((f.fd_pos == i.i_size) && ltb 0 count) ≡ false =
                  ground (arith, some_left) in
                let (buf', e, holds) =
                  read_bytes_lem (i.i_size - f.fd_pos) f i disk buf (omega arith) small table in
                rw (at, size)
                  (buf', file_read_rest count f i disk buf pos_sum left beyond some_left ∙ e, holds)
          ]
      | inr all ↦
          let at : ((f.fd_pos == i.i_size) && ltb 0 count) ≡ false = ground (arith, all) in
          let size : min count (i.i_size - f.fd_pos) ≡ count = ground (arith, all) in
          let (buf', e, holds) =
            read_bytes_lem count f i disk buf (ground (arith, all)) small table in
          rw (at, size) (buf', file_read_all count f i disk buf pos_sum all ∙ e, holds)
    ]
