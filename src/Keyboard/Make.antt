-- ===== src/Keyboard/Make.antt =====
-- Keys pressed, in `intr_keyboard_handler` (device/keyboard.c).
use Prim.Native.Nat.{bit_and, bit_or}
use os_zhenxiang.Prelude.{
  ℕ, ◌<◌, ◌≡◌, ◌≢◌, refl, ap, sym, subst, Bool, true, false, ◌&&◌, Outcome, ok, panic, arith, ltb,
  ◌==◌, every, every_sound, Bool-cases, inl, inr, ◌∷◌, ◌++◌, length, ◌⊎◌, [], Option, none, some,
}
use os_zhenxiang.Interrupt.{intr_off}
use os_zhenxiang.Thread.{Kernel}
use os_zhenxiang.Thread.Valid.{IsValid}
use os_zhenxiang.IoQueue.Window.{InRing, contents}
use os_zhenxiang.IoQueue.Contents.{Sleeps, woken, ioq_full_lem, ioq_putchar_lem}
use os_zhenxiang.IoQueue.{done}
use os_zhenxiang.Keyboard.{
  Handled, Keyboard, keymap, char_at, use_shift, in_table, control_key, type_char, pressed,
  released, handle_code, intr_keyboard_handler, alt_r_make, ctrl_r_make,
}

abbrev is_ok : Outcome ℕ → Bool
is_ok (ok c) = true
is_ok panic = false

rows_table :
    every 0x3b (λ i.
      (bit_and i 0x00ff == i) && is_ok (char_at keymap i true) && is_ok (char_at keymap i false))
    ≡ true
unfolding every char_at keymap
rows_table = refl

is_ok_lem : (o : Outcome ℕ) → is_ok o ≡ true → (c : ℕ) × (o ≡ ok c)
is_ok_lem (ok c) h = (c, refl)
is_ok_lem panic h = cc

row_lem :
    (i : ℕ) (shift : Bool)
    → i < 0x3b
    → (bit_and i 0x00ff ≡ i) × (is_ok (char_at keymap i shift) ≡ true)
row_lem i true below =
    let t = every_sound _ 0x3b i below rows_table in (ground (arith, t), ground (arith, t))
row_lem i false below =
    let t = every_sound _ 0x3b i below rows_table in (ground (arith, t), ground (arith, t))

-- The test before the table is read keeps the index inside of it.
char_lem :
    (scancode : ℕ) (shift : Bool)
    → in_table scancode ≡ true
    → (c : ℕ) × (char_at keymap (bit_and scancode 0x00ff) shift ≡ ok c)
char_lem scancode shift inside = elim (Bool-cases (ltb scancode 0x3b)) [
  | inl below ↦
      let (same, found) = row_lem scancode shift (ground arith) in is_ok_lem _ (rw same found)
  | inr above ↦ elim (Bool-cases (scancode == alt_r_make)) [
    | inl alt ↦
        let e : scancode ≡ alt_r_make = ground arith in
        is_ok_lem _ (rw e (row_lem 0x38 shift (omega arith)).1)
    | inr other ↦
        let e : scancode ≡ ctrl_r_make = ground arith in
        is_ok_lem _ (rw e (row_lem 0x1d shift (omega arith)).1)
  ]
]

-- what a key may do to the ring: nothing, or one more character
abbrev pub Typed : Keyboard → Keyboard → Type 0
Typed kb kb' =
    (contents kb'.kbd_buf ≡ contents kb.kbd_buf)
    ⊎ ((c : ℕ) × (c ≢ 0) × (contents kb'.kbd_buf ≡ contents kb.kbd_buf ++ c ∷ []))

-- what each part of the handler does
abbrev Handles : Kernel → Keyboard → Handled → Type 0
Handles k kb o =
    (k' : Kernel) × (kb' : Keyboard) × (o ≡ ok (done tt, k', kb'))
    × (k'.cur ≡ k.cur)
    × (k'.intr ≡ k.intr)
    × IsValid k'
    × InRing kb'.kbd_buf
    × Typed kb kb'

-- Waking a waiter changes neither the task that runs nor the interrupt flag.
woken-cur : (w : Option ℕ) (k : Kernel) → (woken w k).cur ≡ k.cur
woken-cur none k = refl
woken-cur (some t) k = refl

woken-intr : (w : Option ℕ) (k : Kernel) → (woken w k).intr ≡ k.intr
woken-intr none k = refl
woken-intr (some t) k = refl

released_ring : (m : ℕ) (kb : Keyboard) → (released m kb).kbd_buf ≡ kb.kbd_buf
unfolding released
released_ring m kb = ground arith

control_key_ring : (m : ℕ) (kb : Keyboard) → (control_key m kb).kbd_buf ≡ kb.kbd_buf
unfolding control_key
control_key_ring m kb = ground arith

module _ (k : Kernel) (v : IsValid k) (off : k.intr ≡ intr_off) where
  quiet :
      (kb kb' : Keyboard)
      → kb'.kbd_buf ≡ kb.kbd_buf
      → InRing kb.kbd_buf
      → Handles k kb (ok (done tt, k, kb'))
  quiet kb kb' same r =
      (k, kb', refl, refl, refl, v, subst InRing (sym same) r, inl (ap contents same))

  type_char_lem :
      (c : ℕ) (kb : Keyboard)
      → InRing kb.kbd_buf
      → Sleeps k kb.kbd_buf.consumer
      → c ≢ 0
      → Handles k kb (type_char c k kb)
  unfolding type_char
  type_char_lem c kb r sleeps ne =
      let (full, fits) = ioq_full_lem k kb.kbd_buf r off in
      elim (Bool-cases (length (contents kb.kbd_buf) == 63)) [
        | inl at_most ↦ (k, kb, rw (full, at_most) refl, refl, refl, v, r, inl refl)
        | inr room ↦
            let (ring, e, v', r', holds, _, _) =
              ioq_putchar_lem c k kb.kbd_buf v off r sleeps (ground arith) in
            (
              _,
              record kb { kbd_buf = ring },
              rw (full, room, e) refl,
              woken-cur kb.kbd_buf.consumer k,
              woken-intr kb.kbd_buf.consumer k,
              v',
              r',
              inr (c, ne, holds),
            )
      ]

  pressed_lem :
      (scancode : ℕ) (kb : Keyboard)
      → in_table scancode ≡ true
      → InRing kb.kbd_buf
      → Sleeps k kb.kbd_buf.consumer
      → Handles k kb (pressed scancode k kb)
  unfolding pressed
  pressed_lem scancode kb inside r sleeps =
      let (c, e) =
        char_lem scancode (use_shift scancode kb.shift_status kb.caps_lock_status) inside in
      elim (Bool-cases (c == 0)) [
        | inl none_typed ↦
            rw (e, none_typed) (quiet kb _ (control_key_ring (bit_and scancode 0x00ff) kb) r)
        | inr typed ↦ rw (e, typed) (type_char_lem c kb r sleeps (ground arith))
      ]

  handle_code_lem :
      (scancode : ℕ) (kb : Keyboard)
      → InRing kb.kbd_buf
      → Sleeps k kb.kbd_buf.consumer
      → Handles k kb (handle_code scancode k kb)
  unfolding handle_code
  handle_code_lem scancode kb r sleeps = elim (Bool-cases (bit_and scancode 0x0080 == 0)) [
    | inr break ↦ rw break (quiet kb _ (released_ring (bit_and scancode 0xff7f) kb) r)
    | inl make ↦ elim (Bool-cases (in_table scancode)) [
      | inr unknown ↦ rw (make, unknown) (quiet kb kb refl r)
      | inl inside ↦ rw (make, inside) (pressed_lem scancode kb inside r sleeps)
    ]
  ]

  -- For every byte read, with interrupts off, the scheduler in order and the consumer asleep on the
  -- ring, if there is one, known and blocked, the handler returns: it does not read outside of the
  -- table of keys, stop or block, and the running task and the interrupt flag are as before. The
  -- scheduler stays in order, the ring a ring, and it holds what it held or one more character, not 0.
  pub intr_keyboard_handler_lem :
      (scancode : ℕ) (kb : Keyboard)
      → InRing kb.kbd_buf
      → Sleeps k kb.kbd_buf.consumer
      → (k' : Kernel) × (kb' : Keyboard) × (intr_keyboard_handler scancode k kb
          ≡ ok (done tt, k', kb'))
        × (k'.cur ≡ k.cur)
        × (k'.intr ≡ k.intr)
        × IsValid k'
        × InRing kb'.kbd_buf
        × Typed kb kb'
  unfolding intr_keyboard_handler
  intr_keyboard_handler_lem scancode kb r sleeps = elim (Bool-cases (scancode == 0xe0)) [
    | inl prefix ↦
        rw prefix (k, record kb { ext_scancode = true }, refl, refl, refl, v, r, inl refl)
    | inr code ↦ elim (Bool-cases kb.ext_scancode) [
      | inl ext ↦
          rw (code, ext)
            (handle_code_lem (bit_or 0xe000 scancode) (record kb { ext_scancode = false }) r sleeps)
      | inr plain ↦
          rw (code, plain) (handle_code_lem scancode (record kb { ext_scancode = false }) r sleeps)
    ]
  ]
