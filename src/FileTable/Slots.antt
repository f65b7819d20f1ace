-- ===== src/FileTable/Slots.antt =====
-- The slot that fs/file.c finds, and the bits of a bitmap on the disk.
use os_zhenxiang.Prelude.{
  ℕ, zero, suc, ◌+◌, ◌<◌, ◌≤◌, ◌≡◌, refl, Bool, true, false, Option, none, some, ◌==◌,
  if◌then◌else◌, arith, ℕ_discrete, subst, Bool-cases, Option-cases, inl, inr,
}
use os_zhenxiang.FileTable.{free_slot, is_none, pcb_fd_install}

-- what a search for a free slot may return
abbrev pub FirstSlot : (free : ℕ → Bool) → (lo hi : ℕ) → Option ℕ → Type 0
FirstSlot free lo hi none = (j : ℕ) → lo ≤ j → j < hi → free j ≡ false
FirstSlot free lo hi (some i) =
    (lo ≤ i) × (i < hi) × (free i ≡ true) × ((j : ℕ) → lo ≤ j → j < i → free j ≡ false)

FirstSlot-later :
    (free : ℕ → Bool) (idx hi : ℕ) (r : Option ℕ)
    → free idx ≡ false
    → FirstSlot free (idx + 1) hi r
    → FirstSlot free idx hi r
FirstSlot-later free idx hi none taken all =
    λ j lo h. elim (ℕ_discrete j idx) [ yes e ↦ rw e taken | no ne ↦ all j (omega arith) h ]
FirstSlot-later free idx hi (some i) taken (lo, within, at, before) = (
  omega arith,
  within,
  at,
  λ j l h. elim (ℕ_discrete j idx) [ yes e ↦ rw e taken | no ne ↦ before j (omega arith) h ],
)

free_slot_lem :
    (free : ℕ → Bool) (left idx : ℕ) → FirstSlot free idx (idx + left) (free_slot free left idx)
unfolding free_slot
free_slot_lem free zero idx = λ j lo hi. absurd (omega arith)
free_slot_lem free (suc left) idx =
    let end : idx + 1 + left ≡ idx + suc left = omega arith in
    elim (Bool-cases (free idx)) [
      | inl here ↦ rw here (omega arith, omega arith, here, λ j lo hi. absurd (omega arith))
      | inr taken ↦ rw taken (
          FirstSlot-later free idx (idx + suc left) (free_slot free left (idx + 1)) taken (
            subst (λ hi. FirstSlot free (idx + 1) hi (free_slot free left (idx + 1))) end
              (free_slot_lem free left (idx + 1))))
    ]

-- whether the slot found is `i`
abbrev pub is_slot : Option ℕ → ℕ → Bool
is_slot none i = false
is_slot (some s) i = s == i

-- `pcb_fd_install` puts the number into the first free descriptor from 3 on and below 8, returns it,
-- and changes no other; if they are all taken, it returns -1 and changes none.
pub pcb_fd_install_lem :
    (globa_fd_idx : ℕ) (fd_table : ℕ → Option ℕ)
    → FirstSlot (λ i. is_none (fd_table i)) 3 8 (pcb_fd_install globa_fd_idx fd_table).0
      × ((i : ℕ)
          → (pcb_fd_install globa_fd_idx fd_table).1 i ≡ (
              if is_slot (pcb_fd_install globa_fd_idx fd_table).0 i
              then some globa_fd_idx
              else fd_table i))
unfolding pcb_fd_install
pcb_fd_install_lem globa_fd_idx fd_table =
    let found = free_slot_lem (λ i. is_none (fd_table i)) 5 3 in
    elim (Option-cases (free_slot (λ i. is_none (fd_table i)) 5 3)) [
      | inl full ↦
          let all = subst (FirstSlot (λ i. is_none (fd_table i)) 3 8) full found in
          rw full (all, λ i. refl)
      | inr (s, slot) ↦
          let first = subst (FirstSlot (λ i. is_none (fd_table i)) 3 8) slot found in
          rw slot (first, λ i. ground arith)
    ]
