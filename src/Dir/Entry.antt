-- ===== src/Dir/Entry.antt =====
-- The entry that `create_dir_entry` makes, and the loop of `delete_dir_entry` over indirect blocks.
use os_zhenxiang.Prelude.{
  ◌%◌, ℕ, zero, suc, ◌+◌, ◌-◌, ◌^◌, ◌<◌, ◌≤◌, ◌≡◌, refl, ◌∙◌, ap, true, false, ◌&&◌, none, some,
  List, [], ◌∷◌, ok, ltb, leb, ◌==◌, if◌then◌else◌, length, get_or, arith, Bool-cases, inl, inr,
}
use os_zhenxiang.Inode.{Bytes, byte_of, copy_to}
use os_zhenxiang.Inode.Layout.{number_lem}
use os_zhenxiang.Volume.{zeros}
use os_zhenxiang.PathName.Names.{Chars}
use os_zhenxiang.Dir.{chars_at, filename_at, i_no_at, f_type_at, create_dir_entry}
use os_zhenxiang.Dir.Delete.{count_indirect}

-- A string in memory is read up to its 0 byte.
chars_at_lem :
    (left p : ℕ) (name : List ℕ) (m : Bytes)
    → length name < left
    → Chars name
    → ((k : ℕ) → k ≤ length name → m (p + k) ≡ get_or name k 0)
    → chars_at left p m ≡ name
unfolding chars_at
chars_at_lem zero p name m h cs at = absurd (omega (arith, h))
chars_at_lem (suc left) p [] m h cs at =
    let here : m p ≡ 0 = ap m (omega arith) ∙ at 0 (omega arith) in
    let end : (m p == 0) ≡ true = ground (arith, here) in rw end refl
chars_at_lem (suc left) p (c ∷ cs) m h (ne, rest) at =
    let here : m p ≡ c = ap m (omega arith) ∙ at 0 (omega arith) in
    let more : (c == 0) ≡ false = ground (arith, ne) in
    let behind =
      chars_at_lem left (p + 1) cs m (omega arith) rest
        (λ k le. ap m (omega arith) ∙ at (suc k) (omega arith)) in
    rw (here, more, behind) refl

get_or_past : (name : List ℕ) (k : ℕ) → length name ≤ k → get_or name k 0 ≡ 0
get_or_past [] k h = refl
get_or_past (c ∷ cs) zero h = absurd (omega (arith, h))
get_or_past (c ∷ cs) (suc k) h = get_or_past cs k (omega arith)

-- the bytes of the entry, over a cleared one
entry_bytes : (name : List ℕ) → (inode_no file_type : ℕ) → Bytes
entry_bytes name inode_no file_type =
    copy_to 20 4 (byte_of file_type)
      (copy_to 16 4 (byte_of inode_no) (copy_to 0 (length name) (λ k. get_or name k 0) zeros))

module _ (name : List ℕ) (inode_no file_type : ℕ) where
  name_byte :
      (k : ℕ) → k < 16 → length name < 16 → entry_bytes name inode_no file_type k ≡ get_or name k 0
  unfolding entry_bytes
  name_byte k h short = elim (Bool-cases (ltb k (length name))) [
    | inl inside ↦ ground (arith, inside)
    | inr past ↦ ground (arith, past, get_or_past name k (ground (arith, past)))
  ]

  number_byte : (k : ℕ) → k < 4 → entry_bytes name inode_no file_type (16 + k) ≡ byte_of inode_no k
  unfolding entry_bytes
  number_byte k h =
      let a : leb 20 (16 + k) && ltb (16 + k) 24 ≡ false = ground (arith, h) in
      let b : leb 16 (16 + k) && ltb (16 + k) 20 ≡ true = ground (arith, h) in
      let back : 16 + k - 16 ≡ k = omega arith in rw (a, b, back) refl

  type_byte : (k : ℕ) → k < 4 → entry_bytes name inode_no file_type (20 + k) ≡ byte_of file_type k
  unfolding entry_bytes
  type_byte k h =
      let a : leb 20 (20 + k) && ltb (20 + k) 24 ≡ true = ground (arith, h) in
      let back : 20 + k - 20 ≡ k = omega arith in rw (a, back) refl

filename_lem :
    (name : List ℕ) (m : Bytes)
    → length name < 16
    → Chars name
    → ((k : ℕ) → k < 16 → m k ≡ get_or name k 0)
    → filename_at m 0 ≡ name
unfolding filename_at
filename_lem name m short chars at =
    chars_at_lem 24 0 name m (omega arith) chars (λ k le. ap m (omega arith) ∙ at k (omega arith))

create_entry :
    (name : List ℕ) (inode_no file_type : ℕ)
    → length name < 16
    → file_type < 2 ^ 8
    → create_dir_entry name inode_no file_type zeros ≡ ok (entry_bytes name inode_no file_type)
unfolding create_dir_entry entry_bytes
create_entry name inode_no file_type short small =
    let t : leb (length name) 16 ≡ true = ground (arith, short) in
    let whole : file_type % 2 ^ 8 ≡ file_type = omega arith in rw (t, whole) refl

-- `create_dir_entry` over a cleared entry, for a name of at most 15 characters without a 0 byte,
-- a 32-bit inode number and a file type below 256, returns, and the entry is read back with that
-- name, number and type.
pub create_dir_entry_lem :
    (name : List ℕ) (inode_no file_type : ℕ)
    → length name < 16
    → Chars name
    → inode_no < 2 ^ 32
    → file_type < 2 ^ 8
    → (p_de : Bytes) × (create_dir_entry name inode_no file_type zeros ≡ ok p_de)
      × (filename_at p_de 0 ≡ name)
      × (i_no_at p_de 0 ≡ inode_no)
      × (f_type_at p_de 0 ≡ file_type)
create_dir_entry_lem name inode_no file_type short chars small small' =
    let p_de = entry_bytes name inode_no file_type in
    (
      p_de,
      create_entry name inode_no file_type short small',
      filename_lem name p_de short chars (λ k h. name_byte name inode_no file_type k h short),
      number_lem p_de 16 inode_no (number_byte name inode_no file_type 0 (omega arith))
          (number_byte name inode_no file_type 1 (omega arith))
          (number_byte name inode_no file_type 2 (omega arith))
          (number_byte name inode_no file_type 3 (omega arith)) small,
      number_lem p_de 20 file_type (type_byte name inode_no file_type 0 (omega arith))
          (type_byte name inode_no file_type 1 (omega arith))
          (type_byte name inode_no file_type 2 (omega arith))
          (type_byte name inode_no file_type 3 (omega arith)) (omega arith),
    )

count_rounds :
    (left fuel cnt : ℕ) (blocks : ℕ → ℕ)
    → (blocks 12 == 0) ≡ false
    → cnt + left ≡ 140
    → count_indirect fuel blocks cnt ≡ (if ltb left fuel then some 140 else none)
unfolding count_indirect
count_rounds left zero cnt blocks there e = ground (arith, e)
count_rounds zero (suc fuel) cnt blocks there e =
    let done : ltb cnt 140 ≡ false = ground (arith, e) in rw done (ground (arith, e))
count_rounds (suc left) (suc fuel) cnt blocks there e =
    let more : ltb cnt 140 ≡ true = ground (arith, e) in
    rw (more, there) (count_rounds left fuel (cnt + 1) blocks there (omega arith) ∙ ground arith)

count_stuck :
    (fuel cnt : ℕ) (blocks : ℕ → ℕ)
    → (blocks 12 == 0) ≡ true
    → cnt < 140
    → count_indirect fuel blocks cnt ≡ none
unfolding count_indirect
count_stuck zero cnt blocks gone h = refl
count_stuck (suc fuel) cnt blocks gone h =
    let more : ltb cnt 140 ≡ true = ground (arith, h) in
    rw (more, gone) (count_stuck fuel cnt blocks gone h)

-- The loop of `delete_dir_entry` that is to count the indirect blocks does not end when the first
-- of them is missing; otherwise it ends after 140 rounds and the test that ends it, with the
-- count 140, however many there are.
pub count_indirect_lem :
    (fuel : ℕ) (blocks : ℕ → ℕ)
    → count_indirect fuel blocks 0
      ≡ (if blocks 12 == 0 then none else if ltb 140 fuel then some 140 else none)
count_indirect_lem fuel blocks = elim (Bool-cases (blocks 12 == 0)) [
  | inl gone ↦ rw gone (count_stuck fuel 0 blocks gone (omega arith))
  | inr there ↦ rw there (count_rounds 140 fuel 0 blocks there refl)
]
