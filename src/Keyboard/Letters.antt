-- ===== src/Keyboard/Letters.antt =====
-- The letter keys in `intr_keyboard_handler` (device/keyboard.c).
use Prim.Native.Nat.{bit_and}
use os_zhenxiang.Prelude.{
  ℕ, ◌-◌, ◌<◌, ◌≤◌, ◌≡◌, refl, ap, sym, Bool, true, false, not, ◌||◌, ◌&&◌, Outcome, ok, panic,
  arith, leb, ◌==◌, if◌then◌else◌, every, every_sound, bool_eq, bool_eq, Bool-cases, inl, inr,
}
use os_zhenxiang.Thread.{Kernel}
use os_zhenxiang.Keyboard.{
  Keyboard, keymap, char_at, two_chars, in_table, type_char, pressed, handle_code,
  intr_keyboard_handler,
}

abbrev is_char : ℕ → Outcome ℕ → Bool
is_char d (ok c) = c == d
is_char d panic = false

is_char_lem : (d : ℕ) (o : Outcome ℕ) → is_char d o ≡ true → o ≡ ok d
is_char_lem d (ok c) h = let e : c ≡ d = ground arith in ap ok e
is_char_lem d panic h = cc

abbrev is_letter : Outcome ℕ → Bool
is_letter (ok c) = leb b'a' c && leb c b'z'
is_letter panic = false

-- whether a letter key has its capital as the second character and obeys caps lock
abbrev letter_row : ℕ → Bool
letter_row i =
    not (is_letter (char_at keymap i false))
    || (capital (char_at keymap i false) (char_at keymap i true)
        && not (two_chars i)
        && (bit_and i 0x00ff == i)
        && (bit_and i 0x0080 == 0)
        && not (i == 0))
  where
    capital : Outcome ℕ → Outcome ℕ → Bool
    capital (ok c) o = is_char (c - 32) o
    capital panic o = false

letters_table : every 0x3b letter_row ≡ true
unfolding every char_at keymap
letters_table = refl

row_lem :
    (i c : ℕ)
    → i < 0x3b
    → char_at keymap i false ≡ ok c
    → b'a' ≤ c
    → c ≤ b'z'
    → (char_at keymap i true ≡ ok (c - 32))
      × (two_chars i ≡ false)
      × (bit_and i 0x00ff ≡ i)
      × ((bit_and i 0x0080 == 0) ≡ true)
      × ((i == 0) ≡ false)
row_lem i c below plain low high =
    let t = every_sound letter_row 0x3b i below letters_table in
    let small : leb b'a' c ≡ true = ground arith in
    let big : leb c b'z' ≡ true = ground arith in
    let u = rw (plain, small, big) at t in
    (
      is_char_lem (c - 32) (char_at keymap i true) (ground (arith, u)),
      ground (arith, u),
      ground (arith, u),
      ground (arith, u),
      ground (arith, u),
    )

one_of_two : (s c : Bool) → (if s && c then false else s || c) ≡ not (bool_eq s c)
one_of_two true true = refl
one_of_two true false = refl
one_of_two false true = refl
one_of_two false false = refl

-- A letter key types its letter, and the capital if exactly one of shift and caps lock is on. (What
-- it types goes to the ring unless that is full.)
pub letter_keys :
    (scancode c : ℕ) (k : Kernel) (kb : Keyboard)
    → scancode < 0x3b
    → char_at keymap scancode false ≡ ok c
    → b'a' ≤ c
    → c ≤ b'z'
    → kb.ext_scancode ≡ false
    → intr_keyboard_handler scancode k kb
      ≡ type_char (if bool_eq kb.shift_status kb.caps_lock_status then c else c - 32) k kb
unfolding intr_keyboard_handler handle_code pressed
letter_keys scancode c k kb below plain low high ext =
    let (up, alone, index, make, positive) = row_lem scancode c below plain low high in
    let no_prefix : (scancode == 0xe0) ≡ false = ground arith in
    let inside : in_table scancode ≡ true = ground arith in
    let same : record kb { ext_scancode = false } ≡ kb =
      ap (λ e. record kb { ext_scancode = e }) (sym ext) in
    let typed : (c - 32 == 0) ≡ false = ground arith in
    let typed' : (c == 0) ≡ false = ground arith in
    let choice = one_of_two kb.shift_status kb.caps_lock_status in
    elim (Bool-cases (bool_eq kb.shift_status kb.caps_lock_status)) [
      | inl agree ↦
          rw (no_prefix, make, inside, alone, choice, agree, index, plain, typed') (rw ext refl)
      | inr differ ↦
          rw (no_prefix, make, inside, alone, choice, differ, index, up, typed) (rw ext refl)
    ]
