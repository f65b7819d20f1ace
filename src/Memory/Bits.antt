-- ===== src/Memory/Bits.antt =====
-- The loops of kernel/memory.c over a bitmap, and what a scan finds.
use os_zhenxiang.Prelude.{
  ℕ, zero, suc, ◌+◌, ◌<◌, ◌≤◌, ◌^◌, ◌≡◌, refl, sym, ◌∙◌, Bool, true, false, ◌&&◌, Option, some,
  Outcome, ok, panic, arith, ltb, leb, ◌==◌, if◌then◌else◌, ap, subst, ℕ_discrete,
}
use os_zhenxiang.Bitmap.{Bitmap, bitmap_scan, bitmap_scan_test}
use os_zhenxiang.Bitmap.Laws.{IsValid, total_bits, bitmap_set_lem}
use os_zhenxiang.Bitmap.Scan.{Found}
use os_zhenxiang.Bitmap.FirstFit.{bitmap_scan_one, bitmap_scan_many}
use os_zhenxiang.Memory.{set_bits}

abbrev pub in_run : (from n j : ℕ) → Bool
in_run from n j = leb from j && ltb j (from + n)

-- The bits of a run take the value, and no other bit changes.
pub set_bits_lem :
    {b : Bitmap} (n i v : ℕ)
    → IsValid b
    → v < 2
    → (b' : Bitmap) × (set_bits n i v b ≡ ok b')
      × IsValid b'
      × (b'.btmp_bytes_len ≡ b.btmp_bytes_len)
      × ((j : ℕ) → bitmap_scan_test b' j ≡ (if in_run i n j then v == 1 else bitmap_scan_test b j))
unfolding set_bits
set_bits_lem {b} zero i v valid h = (b, refl, valid, refl, λ j. ground arith)
set_bits_lem {b} (suc n) i v valid h =
    let (b₁, e₁, valid₁, len₁, bits₁) = bitmap_set_lem {b = b} i v valid h in
    let (b₂, e₂, valid₂, len₂, bits₂) = set_bits_lem {b = b₁} n (i + 1) v valid₁ h in
    (b₂, rw e₁ e₂, valid₂, len₂ ∙ len₁, λ j. ground (arith, bits₁ j, bits₂ j))

some-injective : {a b : ℕ} → ok (some a) ≡ ok (some b) → a ≡ b
some-injective {a} e = ap (value a) e
  where
    value : ℕ → Outcome (Option ℕ) → ℕ
    value d (ok (some x)) = x
    value d _ = d

ok-injective : {a b : Option ℕ} → ok a ≡ ok b → a ≡ b
ok-injective {a} e = ap (value a) e
  where
    value : Option ℕ → Outcome (Option ℕ) → Option ℕ
    value d (ok x) = x
    value d panic = d

-- A scan for `cnt` bits that returns a position has found clear bits there, at most one of them
-- behind the bitmap.
pub scan_clear :
    {b : Bitmap} (cnt k s : ℕ)
    → IsValid b
    → 0 < cnt
    → cnt < 2 ^ 31
    → k < total_bits b
    → bitmap_scan_test b k ≡ false
    → bitmap_scan b cnt ≡ ok (some s)
    → (s + cnt ≤ total_bits b + 1)
      × ((j : ℕ) → in_run s cnt j ≡ true → bitmap_scan_test b j ≡ false)
scan_clear {b} cnt k s v positive small lt free e = elim (ℕ_discrete cnt 1) [
  | yes one ↦
      let (s', eq, first) = bitmap_scan_one {b = b} k v lt free in
      let same : s' ≡ s = some-injective (sym eq ∙ ap (bitmap_scan b) (sym one) ∙ e) in
      (omega (arith, first.within), λ j h. let at : j ≡ s' = ground arith in rw at first.free)
  | no several ↦
      let (r, eq, found) = bitmap_scan_many {b = b} cnt k v (omega arith) small lt free in
      let same : r ≡ some s = ok-injective (sym eq ∙ e) in
      let (_, bound, run, _) = subst (Found b 0 (total_bits b + 1) cnt) same found in
      (bound, λ j h. run j (ground arith) (ground arith))
]
