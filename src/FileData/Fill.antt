-- ===== src/FileData/Fill.antt =====
-- The loop of `file_write`: which bytes of the disk it sets.
use os_zhenxiang.Prelude.{
  ℕ, zero, suc, ◌+◌, ◌-◌, ◌*◌, ◌/◌, ◌%◌, ◌^◌, ◌<◌, ◌≤◌, ◌≡◌, ◌≢◌, refl, sym, ◌∙◌, ap, true, false,
  ◌&&◌, ltb, leb, if◌then◌else◌, arith, Bool-cases, inl, inr, ltb→lt, dec_lt,
}
use os_zhenxiang.Inode.{Bytes, copy_to, ide_read, ide_write}
use os_zhenxiang.Volume.{zeros}
use os_zhenxiang.FileData.{chunk}
use os_zhenxiang.FileData.Writing.{Writing, write_chunk, write_chunks}
use os_zhenxiang.FileData.Chunks.{byte_in}

pub ide_write_at :
    (lba : ℕ) (buf disk : Bytes) (x : ℕ)
    → x < 512
    → ide_write lba 1 buf disk (512 * lba + x) ≡ buf x
ide_write_at lba buf disk x h =
    let lo : leb (512 * lba) (512 * lba + x) ≡ true = ground arith in
    let hi : ltb (512 * lba + x) (512 * (lba + 1)) ≡ true = ground arith in
    let back : 512 * lba + x - 512 * lba ≡ x = omega arith in rw (lo, hi, back) refl

pub ide_write_off :
    (lba : ℕ) (buf disk : Bytes) (a : ℕ) → a / 512 ≢ lba → ide_write lba 1 buf disk a ≡ disk a
ide_write_off lba buf disk a h =
    let out : leb (512 * lba) a && ltb a (512 * (lba + 1)) ≡ false = ground arith in rw out refl

-- the blocks that the loop writes from here on
abbrev pub ToWrite : Writing → ℕ → Type 0
ToWrite w k = (w.i_size / 512 ≤ k) × (512 * k < w.i_size + w.size_left) × (0 < w.size_left)

abbrev pub Apart : (blocks : ℕ → ℕ) → Writing → Type 0
Apart blocks w = (j k : ℕ) → ToWrite w j → ToWrite w k → blocks j ≡ blocks k → j ≡ k

pub record WriteRuns (count : ℕ) (w : Writing) : Type 0 where
  pub sum : w.bytes_written + w.size_left ≡ count
  pub small : w.i_size + w.size_left < 2 ^ 32
  pub count_small : count < 2 ^ 32

-- what the loop leaves when it starts from `w`
pub record Writes (count : ℕ) (blocks : ℕ → ℕ) (src : Bytes) (w u : Writing) : Type 0 where
  pub size : u.i_size ≡ w.i_size + w.size_left
  pub all : u.bytes_written ≡ count
  pub put :
      (n : ℕ)
      → w.i_size ≤ n
      → n < w.i_size + w.size_left
      → byte_in blocks u.disk n ≡ src (w.bytes_written + (n - w.i_size))
  pub kept :
      (n : ℕ)
      → n < w.i_size
      → n / 512 ≡ w.i_size / 512
      → w.first_write_block ≡ true
      → byte_in blocks u.disk n ≡ byte_in blocks w.disk n
  pub frame : (a : ℕ) → ((k : ℕ) → ToWrite w k → a / 512 ≢ blocks k) → u.disk a ≡ w.disk a

-- One round writes `c` bytes.
record Advanced (c : ℕ) (w x : Writing) : Type 0 where
  pos : x.i_size ≡ w.i_size + c
  written : x.bytes_written ≡ w.bytes_written + c
  left : x.size_left + c ≡ w.size_left
  positive : 0 < c
  within : w.i_size % 512 + c ≤ 512
  full : 0 < x.size_left → w.i_size % 512 + c ≡ 512

write_chunk-Advanced :
    (count : ℕ) (blocks : ℕ → ℕ) (src : Bytes) (w : Writing)
    → WriteRuns count w
    → w.bytes_written < count
    → Advanced (chunk w.i_size w.size_left) w (write_chunk blocks src w)
unfolding write_chunk
write_chunk-Advanced count blocks src w v h = record {
  pos = ground (arith, v.sum, v.small);
  written = ground (arith, v.sum, v.small, v.count_small);
  left = ground (arith, v.sum);
  positive = ground (arith, v.sum);
  within = ground (arith, v.sum);
  full = λ more. ground (arith, v.sum, more);
}

-- the buffer before and after the data of a round is put into it
abbrev before : (blocks : ℕ → ℕ) → Writing → Bytes
before blocks w =
    if w.first_write_block then ide_read (blocks (w.i_size / 512)) 1 w.disk zeros else zeros

abbrev filled : (blocks : ℕ → ℕ) → (src : Bytes) → Writing → Bytes
filled blocks src w =
    copy_to (w.i_size % 512) (chunk w.i_size w.size_left) (λ a. src (w.bytes_written + a))
      (before blocks w)

write_chunk_sector :
    (blocks : ℕ → ℕ) (src : Bytes) (w : Writing) (n : ℕ)
    → n / 512 ≡ w.i_size / 512
    → byte_in blocks (write_chunk blocks src w).disk n ≡ filled blocks src w (n % 512)
unfolding write_chunk
write_chunk_sector blocks src w n e =
    rw e
      (ide_write_at (blocks (w.i_size / 512)) (filled blocks src w) w.disk (n % 512) (omega arith))

write_chunk_off :
    (blocks : ℕ → ℕ) (src : Bytes) (w : Writing) (a : ℕ)
    → a / 512 ≢ blocks (w.i_size / 512)
    → (write_chunk blocks src w).disk a ≡ w.disk a
unfolding write_chunk
write_chunk_off blocks src w a h =
    ide_write_off (blocks (w.i_size / 512)) (filled blocks src w) w.disk a h

-- A byte of the data of a round, and one before it in its sector
write_chunk_put :
    (blocks : ℕ → ℕ) (src : Bytes) (w : Writing) (n : ℕ)
    → n / 512 ≡ w.i_size / 512
    → w.i_size ≤ n
    → n < w.i_size + chunk w.i_size w.size_left
    → byte_in blocks (write_chunk blocks src w).disk n ≡ src (w.bytes_written + (n - w.i_size))
write_chunk_put blocks src w n e lo hi =
    let inside : leb (w.i_size % 512) (n % 512)
          && ltb (n % 512) (w.i_size % 512 + chunk w.i_size w.size_left)
        ≡ true =
      ground (arith, e, lo, hi) in
    let same : n % 512 - w.i_size % 512 ≡ n - w.i_size = omega arith in
    write_chunk_sector blocks src w n e ∙ rw (inside, same) refl

write_chunk_kept :
    (blocks : ℕ → ℕ) (src : Bytes) (w : Writing) (n : ℕ)
    → n / 512 ≡ w.i_size / 512
    → n < w.i_size
    → w.first_write_block ≡ true
    → byte_in blocks (write_chunk blocks src w).disk n ≡ byte_in blocks w.disk n
write_chunk_kept blocks src w n e lo first =
    let before_it : leb (w.i_size % 512) (n % 512) ≡ false = ground (arith, e, lo) in
    let short : ltb (n % 512) (512 * 1) ≡ true = ground arith in
    write_chunk_sector blocks src w n e ∙ rw (before_it, first, short, e) refl

-- A sector that holds a byte at a place holds it there on each disk with that byte.
byte_off : (blocks : ℕ → ℕ) (n : ℕ) → (512 * blocks (n / 512) + n % 512) / 512 ≡ blocks (n / 512)
byte_off blocks n = omega arith

-- What is to write later was to write before.
later :
    (blocks : ℕ → ℕ) (src : Bytes) (w : Writing) (k : ℕ)
    → Advanced (chunk w.i_size w.size_left) w (write_chunk blocks src w)
    → ToWrite (write_chunk blocks src w) k
    → ToWrite w k × (w.i_size / 512 < k)
later blocks src w k t h = (
  (omega (arith, t.pos, h.0), omega (arith, t.pos, t.left, h.1), omega (arith, t.left, h.2)),
  omega (arith, t.pos, h.0, t.full h.2, t.positive),
)

module _ (count : ℕ) (blocks : ℕ → ℕ) (src : Bytes) (w u : Writing) (apart : Apart blocks w)
    (t : Advanced (chunk w.i_size w.size_left) w (write_chunk blocks src w))
    (rest : Writes count blocks src (write_chunk blocks src w) u) where
  abbrev x : Writing
  x = write_chunk blocks src w

  -- The sector of this round stays as it is in later rounds.
  sector_stays :
      (n : ℕ) → n / 512 ≡ w.i_size / 512 → byte_in blocks u.disk n ≡ byte_in blocks x.disk n
  sector_stays n e = rest.frame (512 * blocks (n / 512) + n % 512) (λ k h same.
      let (old, above) = later blocks src w k t h in
      let here : ToWrite w (w.i_size / 512) =
        (omega arith, omega (arith, t.left, t.positive), omega (arith, t.left, t.positive)) in
      let met : blocks (w.i_size / 512) ≡ blocks k =
        ap blocks (sym e) ∙ sym (byte_off blocks n) ∙ same in
      absurd (omega (arith, apart (w.i_size / 512) k here old met, above)))

  Writes-step : Writes count blocks src w u
  Writes-step = record {
    size = omega (arith, rest.size, t.pos, t.left);
    all = rest.all;
    put = λ n lo hi. elim (dec_lt n (w.i_size + chunk w.i_size w.size_left)) [
      | yes now ↦
          let e : n / 512 ≡ w.i_size / 512 = omega (arith, t.within) in
          sector_stays n e ∙ write_chunk_put blocks src w n e lo now
      | no next ↦
          rest.put n (omega (arith, t.pos)) (omega (arith, t.pos, t.left))
          ∙ ap src (omega (arith, t.pos, t.written))
    ];
    kept = λ n lo e first. sector_stays n e ∙ write_chunk_kept blocks src w n e lo first;
    frame = λ a off.
        rest.frame a (λ k h. off k (later blocks src w k t h).0)
        ∙ write_chunk_off blocks src w a (
            off (w.i_size / 512)
              (omega arith, omega (arith, t.left, t.positive), omega (arith, t.left, t.positive)));
  }

Advanced-WriteRuns :
    {count c : ℕ} {w x : Writing} → WriteRuns count w → Advanced c w x → WriteRuns count x
Advanced-WriteRuns v t = record {
  sum = omega (arith, v.sum, t.written, t.left);
  small = omega (arith, v.small, t.pos, t.left);
  count_small = v.count_small;
}

pub write_chunks_lem :
    (fuel count : ℕ) (blocks : ℕ → ℕ) (src : Bytes) (w : Writing)
    → WriteRuns count w
    → w.size_left ≤ fuel
    → Apart blocks w
    → Writes count blocks src w (write_chunks fuel count blocks src w)
unfolding write_chunks
write_chunks_lem zero count blocks src w v h apart = record {
  size = omega arith;
  all = omega (arith, v.sum);
  put = λ n lo hi. absurd (omega arith);
  kept = λ n lo e first. refl;
  frame = λ a off. refl;
}
write_chunks_lem (suc fuel) count blocks src w v h apart =
    elim (Bool-cases (ltb w.bytes_written count)) [
      | inl go ↦
          let t = write_chunk-Advanced count blocks src w v (ltb→lt _ _ go) in
          let x = write_chunk blocks src w in
          rw go (
            Writes-step count blocks src w (write_chunks fuel count blocks src x) apart t (
              write_chunks_lem fuel count blocks src x (Advanced-WriteRuns v t)
                (omega (arith, t.left, t.positive))
                (λ j k hj hk.
                  apart j k (later blocks src w j t hj).0 (later blocks src w k t hk).0)))
      | inr stop ↦
          let z : w.size_left ≡ 0 = ground (arith, v.sum, stop) in
          rw stop (record {
            size = omega arith;
            all = omega (arith, v.sum);
            put = λ n lo hi. absurd (omega arith);
            kept = λ n lo e first. refl;
            frame = λ a off. refl;
          })
    ]
