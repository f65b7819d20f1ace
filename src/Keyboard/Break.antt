-- ===== src/Keyboard/Break.antt =====
-- Keys let go, and the keys that type nothing, in `intr_keyboard_handler` (device/keyboard.c).
use Prim.Native.Nat.{bit_and}
use os_zhenxiang.Prelude.{
  ℕ, ◌≡◌, refl, Bool, true, false, not, ap, sym, ◌∙◌, panic, ◌&&◌, ok, ◌>>=◌, arith, ◌==◌, Outcome,
  Bool-cases, inl, inr,
}
use os_zhenxiang.Thread.{Kernel}
use os_zhenxiang.IoQueue.{Round, done, asleep, at_lock}
use os_zhenxiang.Keyboard.{
  Handled, Keyboard, keymap, char_at, use_shift, released, control_key, pressed, handle_code,
  intr_keyboard_handler,
}

abbrev is_zero : Outcome ℕ → Bool
is_zero (ok c) = c == 0
is_zero panic = false

is_zero_lem : (o : Outcome ℕ) → is_zero o ≡ true → o ≡ ok 0
is_zero_lem (ok c) h = let e : c ≡ 0 = ground arith in rw e refl
is_zero_lem panic h = cc

abbrev types_nothing : ℕ → Bool
types_nothing i = is_zero (char_at keymap i true) && is_zero (char_at keymap i false)

-- A key whose two characters are 0 is a control key.
pressed_control :
    (scancode : ℕ) (k : Kernel) (kb : Keyboard)
    → types_nothing (bit_and scancode 0x00ff) ≡ true
    → pressed scancode k kb ≡ ok (done tt, k, control_key (bit_and scancode 0x00ff) kb)
unfolding pressed
pressed_control scancode k kb h =
    elim (Bool-cases (use_shift scancode kb.shift_status kb.caps_lock_status)) [
      | inl up ↦
          let e = is_zero_lem (char_at keymap (bit_and scancode 0x00ff) true) (ground arith) in
          rw (up, e) refl
      | inr plain ↦
          let e = is_zero_lem (char_at keymap (bit_and scancode 0x00ff) false) (ground arith) in
          rw (plain, e) refl
    ]

-- the two bytes of one key, of which the first types nothing
abbrev pub handle_two : (first second : ℕ) → Kernel → Keyboard → Handled
handle_two first second k kb = do
  (round, k', kb') ← intr_keyboard_handler first k kb
  returned round k' kb'
  where
    returned : Round (Unit {0}) → Kernel → Keyboard → Handled
    returned (done _) k' kb' = intr_keyboard_handler second k' kb'
    returned asleep k' kb' = ok (asleep, k', kb')
    returned at_lock k' kb' = ok (at_lock, k', kb')

-- When no 0xe0 came before: either shift key, and left ctrl and alt, set their flag when pressed and
-- clear it when let go; right ctrl and alt, whose codes are two bytes, do the same; caps lock turns
-- its flag at each press. Nothing else changes.
pub modifier_keys :
    (k : Kernel) (kb : Keyboard)
    → kb.ext_scancode ≡ false
    → (intr_keyboard_handler 0x2a k kb ≡ ok (done tt, k, record kb { shift_status = true }))
      × (intr_keyboard_handler 0xaa k kb ≡ ok (done tt, k, record kb { shift_status = false }))
      × (intr_keyboard_handler 0x36 k kb ≡ ok (done tt, k, record kb { shift_status = true }))
      × (intr_keyboard_handler 0xb6 k kb ≡ ok (done tt, k, record kb { shift_status = false }))
      × (intr_keyboard_handler 0x1d k kb ≡ ok (done tt, k, record kb { ctrl_status = true }))
      × (intr_keyboard_handler 0x9d k kb ≡ ok (done tt, k, record kb { ctrl_status = false }))
      × (handle_two 0xe0 0x1d k kb ≡ ok (done tt, k, record kb { ctrl_status = true }))
      × (handle_two 0xe0 0x9d k kb ≡ ok (done tt, k, record kb { ctrl_status = false }))
      × (intr_keyboard_handler 0x38 k kb ≡ ok (done tt, k, record kb { alt_status = true }))
      × (intr_keyboard_handler 0xb8 k kb ≡ ok (done tt, k, record kb { alt_status = false }))
      × (handle_two 0xe0 0x38 k kb ≡ ok (done tt, k, record kb { alt_status = true }))
      × (handle_two 0xe0 0xb8 k kb ≡ ok (done tt, k, record kb { alt_status = false }))
      × (intr_keyboard_handler 0x3a k kb
          ≡ ok (done tt, k, record kb { caps_lock_status = not kb.caps_lock_status }))
unfolding intr_keyboard_handler handle_code released control_key char_at keymap
modifier_keys k kb ext =
    let same : record kb { ext_scancode = false } ≡ kb =
      ap (λ e. record kb { ext_scancode = e }) (sym ext) in
    let merged = record kb { ext_scancode = false } in
    (
      rw ext (pressed_control 0x2a k merged refl),
      rw ext refl,
      rw ext (pressed_control 0x36 k merged refl),
      rw ext refl,
      rw ext (pressed_control 0x1d k merged refl),
      rw ext refl,
      pressed_control 0xe01d k merged refl
          ∙ ap (λ kb. ok (done tt, k, record kb { ctrl_status = true })) same,
      ap (λ kb. ok (done tt, k, record kb { ctrl_status = false })) same,
      rw ext (pressed_control 0x38 k merged refl),
      rw ext refl,
      pressed_control 0xe038 k merged refl
          ∙ ap (λ kb. ok (done tt, k, record kb { alt_status = true })) same,
      ap (λ kb. ok (done tt, k, record kb { alt_status = false })) same,
      rw ext (pressed_control 0x3a k merged refl),
    )
