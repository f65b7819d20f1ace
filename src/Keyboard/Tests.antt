-- ===== src/Keyboard/Tests.antt =====
-- Keys typed, and the theorems at concrete keys.
use os_zhenxiang.Prelude.{◌≡◌, refl, Bool, true, false, none, ok, arith}
use os_zhenxiang.Thread.{Kernel}
use os_zhenxiang.Thread.Valid.{IsValid}
use os_zhenxiang.Thread.Samples.{busy, busy-IsValid}
use os_zhenxiang.Sync.{lock_init}
use os_zhenxiang.IoQueue.{Ioqueue, done}
use os_zhenxiang.IoQueue.Window.{InRing}
use os_zhenxiang.Keyboard.{Keyboard, intr_keyboard_handler}
use os_zhenxiang.Keyboard.Break.{handle_two, modifier_keys}
use os_zhenxiang.Keyboard.Make.{Typed, intr_keyboard_handler_lem}

abbrev empty : Ioqueue
empty = record {
  lock = lock_init;
  producer = none;
  consumer = none;
  buf = λ _. 0;
  head = 0;
  tail = 0;
}

abbrev keyboard : (shift caps : Bool) → Keyboard
keyboard shift caps = record {
  ctrl_status = false;
  shift_status = shift;
  alt_status = false;
  caps_lock_status = caps;
  ext_scancode = false;
  kbd_buf = empty;
}

intr_keyboard_handler_lem_example :
    (k' : Kernel) × (kb' : Keyboard) × (intr_keyboard_handler 0x1e (busy 3) (keyboard true false)
      ≡ ok (done tt, k', kb'))
    × (k'.cur ≡ 10)
    × (k'.intr ≡ (busy 3).intr)
    × IsValid k'
    × InRing kb'.kbd_buf
    × Typed (keyboard true false) kb'
intr_keyboard_handler_lem_example =
    intr_keyboard_handler_lem (busy 3) (busy-IsValid 3) refl 0x1e (keyboard true false)
      (record { head_in = omega arith; tail_in = omega arith }) tt

modifier_keys_example :
    (intr_keyboard_handler 0x2a (busy 3) (keyboard false true)
      ≡ ok (done tt, busy 3, record (keyboard false true) { shift_status = true }))
    × (intr_keyboard_handler 0xaa (busy 3) (keyboard false true)
        ≡ ok (done tt, busy 3, record (keyboard false true) { shift_status = false }))
    × (intr_keyboard_handler 0x36 (busy 3) (keyboard false true)
        ≡ ok (done tt, busy 3, record (keyboard false true) { shift_status = true }))
    × (intr_keyboard_handler 0xb6 (busy 3) (keyboard false true)
        ≡ ok (done tt, busy 3, record (keyboard false true) { shift_status = false }))
    × (intr_keyboard_handler 0x1d (busy 3) (keyboard false true)
        ≡ ok (done tt, busy 3, record (keyboard false true) { ctrl_status = true }))
    × (intr_keyboard_handler 0x9d (busy 3) (keyboard false true)
        ≡ ok (done tt, busy 3, record (keyboard false true) { ctrl_status = false }))
    × (handle_two 0xe0 0x1d (busy 3) (keyboard false true)
        ≡ ok (done tt, busy 3, record (keyboard false true) { ctrl_status = true }))
    × (handle_two 0xe0 0x9d (busy 3) (keyboard false true)
        ≡ ok (done tt, busy 3, record (keyboard false true) { ctrl_status = false }))
    × (intr_keyboard_handler 0x38 (busy 3) (keyboard false true)
        ≡ ok (done tt, busy 3, record (keyboard false true) { alt_status = true }))
    × (intr_keyboard_handler 0xb8 (busy 3) (keyboard false true)
        ≡ ok (done tt, busy 3, record (keyboard false true) { alt_status = false }))
    × (handle_two 0xe0 0x38 (busy 3) (keyboard false true)
        ≡ ok (done tt, busy 3, record (keyboard false true) { alt_status = true }))
    × (handle_two 0xe0 0xb8 (busy 3) (keyboard false true)
        ≡ ok (done tt, busy 3, record (keyboard false true) { alt_status = false }))
    × (intr_keyboard_handler 0x3a (busy 3) (keyboard false true)
        ≡ ok (done tt, busy 3, record (keyboard false true) { caps_lock_status = false }))
modifier_keys_example = modifier_keys (busy 3) (keyboard false true) refl
