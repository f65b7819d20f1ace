-- ===== src/Dir/Changed.antt =====
-- The entries of a directory when one of them is written.
use os_zhenxiang.Prelude.{
  ℕ, ◌+◌, ◌*◌, ◌/◌, ◌<◌, ◌≡◌, ◌≢◌, refl, sym, ◌∙◌, true, false, ◌&&◌, ltb, ◌==◌, if◌then◌else◌,
  arith, ℕ_discrete, Bool-cases, inl, inr,
}
use os_zhenxiang.Inode.{Bytes, ide_write}
use os_zhenxiang.FileData.Fill.{ide_write_at, ide_write_off}
use os_zhenxiang.Dir.{sector}
use os_zhenxiang.Dir.Lookup.{slot}

pub sector_written :
    (lba : ℕ) (buf disk : Bytes) (x : ℕ) → x < 512 → sector (ide_write lba 1 buf disk) lba x ≡ buf x
sector_written lba buf disk x h =
    let t : ltb x (512 * 1) ≡ true = ground arith in rw t (ide_write_at lba buf disk x h)

pub sector_kept :
    (lba other : ℕ) (buf disk : Bytes) (x : ℕ)
    → other ≢ lba
    → sector (ide_write lba 1 buf disk) other x ≡ sector disk other x
sector_kept lba other buf disk x ne = elim (Bool-cases (ltb x (512 * 1))) [
  | inl inside ↦
      let at : (512 * other + x) / 512 ≡ other = ground (arith, inside) in
      rw inside (ide_write_off lba buf disk (512 * other + x) (λ e. ne (sym at ∙ e)))
  | inr out ↦ rw out refl
]

-- The entries of a directory after one of them has been put in its place
abbrev pub Changed : (f f' : ℕ → ℕ) → (disk disk' : Bytes) → (b j : ℕ) → (p_de : Bytes) → Type 0
Changed f f' disk disk' b j p_de =
    (k l m : ℕ)
    → l < 21
    → m < 24
    → slot f' disk' k l m ≡ (if (k == b) && (l == j) then p_de m else slot f disk k l m)

pub changed_lem :
    (f f' : ℕ → ℕ) (disk disk' : Bytes) (b j : ℕ) (p_de : Bytes)
    → (f' b == 0) ≡ false
    → ((k : ℕ) → k ≢ b → f' k ≡ f k)
    → ((k x : ℕ) → k ≢ b → (f k == 0) ≡ false → sector disk' (f k) x ≡ sector disk (f k) x)
    → ((l m : ℕ)
        → l < 21
        → m < 24
        → sector disk' (f' b) (24 * l + m) ≡ (if l == j then p_de m else slot f disk b l m))
    → Changed f f' disk disk' b j p_de
changed_lem f f' disk disk' b j p_de there same kept here k l m hl hm = elim (ℕ_discrete k b) [
  | yes e ↦ let t : (b == b) ≡ true = ground arith in rw (e, there, t) (here l m hl hm)
  | no ne ↦
      let t : (k == b) ≡ false = ground (arith, ne) in
      elim (Bool-cases (f k == 0)) [
        | inl gone ↦ rw (same k ne, t, gone) refl
        | inr old ↦ rw (same k ne, t, old) (kept k (24 * l + m) ne old)
      ]
]
