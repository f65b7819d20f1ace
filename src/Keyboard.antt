-- ===== src/Keyboard.antt =====
-- device/keyboard.c: the table of keys and the interrupt handler that reads scan codes. The byte that
-- `inb` reads is an argument; what `put_str` prints for an unknown key is left out.
pub mod Break
pub mod Make
pub mod Letters
mod Tests
use os_zhenxiang.Prelude.{
  ℕ, zero, suc, ◌+◌, ◌%◌, Bool, true, false, not, ◌&&◌, ◌||◌, List, [], ◌∷◌, Outcome, ok, panic,
  ◌>>=◌, ◌>>◌, ltb, ◌==◌, if◌then◌else◌,
}
use Prim.Native.Nat.{bit_and, bit_or}
use os_zhenxiang.Thread.{Kernel}
use os_zhenxiang.IoQueue.{Round, done, Ioqueue, ioqueue_init, ioq_full, ioq_putchar}

abbrev pub shift_l_make : ℕ
shift_l_make = 0x2a

abbrev pub shift_r_make : ℕ
shift_r_make = 0x36

abbrev pub alt_l_make : ℕ
alt_l_make = 0x38

abbrev pub alt_r_make : ℕ
alt_r_make = 0xe038

abbrev pub ctrl_l_make : ℕ
ctrl_l_make = 0x1d

abbrev pub ctrl_r_make : ℕ
ctrl_r_make = 0xe01d

abbrev pub caps_lock_make : ℕ
caps_lock_make = 0x3a

-- The static variables and the ring
pub record Keyboard : Type 0 where
  pub ctrl_status : Bool
  pub shift_status : Bool
  pub alt_status : Bool
  pub caps_lock_status : Bool
  pub ext_scancode : Bool
  pub kbd_buf : Ioqueue

-- The character of a key alone and with shift, by its make code; 0 for a key that types nothing
unfoldable pub keymap : List (ℕ × ℕ)
keymap =
    (0, 0)
    ∷ (27, 27)
    ∷ (b'1', b'!')
    ∷ (b'2', b'@')
    ∷ (b'3', b'#')
    ∷ (b'4', b'$')
    ∷ (b'5', b'%')
    ∷ (b'6', b'^')
    ∷ (b'7', b'&')
    ∷ (b'8', b'*')
    ∷ (b'9', b'(')
    ∷ (b'0', b')')
    ∷ (b'-', b'_')
    ∷ (b'=', b'+')
    ∷ (8, 8)
    ∷ (9, 9)
    ∷ (b'q', b'Q')
    ∷ (b'w', b'W')
    ∷ (b'e', b'E')
    ∷ (b'r', b'R')
    ∷ (b't', b'T')
    ∷ (b'y', b'Y')
    ∷ (b'u', b'U')
    ∷ (b'i', b'I')
    ∷ (b'o', b'O')
    ∷ (b'p', b'P')
    ∷ (b'[', b'{')
    ∷ (b']', b'}')
    ∷ (13, 13)
    ∷ (0, 0)
    ∷ (b'a', b'A')
    ∷ (b's', b'S')
    ∷ (b'd', b'D')
    ∷ (b'f', b'F')
    ∷ (b'g', b'G')
    ∷ (b'h', b'H')
    ∷ (b'j', b'J')
    ∷ (b'k', b'K')
    ∷ (b'l', b'L')
    ∷ (b';', b':')
    ∷ (39, 34)
    ∷ (b'`', b'~')
    ∷ (0, 0)
    ∷ (92, b'|')
    ∷ (b'z', b'Z')
    ∷ (b'x', b'X')
    ∷ (b'c', b'C')
    ∷ (b'v', b'V')
    ∷ (b'b', b'B')
    ∷ (b'n', b'N')
    ∷ (b'm', b'M')
    ∷ (b',', b'<')
    ∷ (b'.', b'>')
    ∷ (b'/', b'?')
    ∷ (0, 0)
    ∷ (b'*', b'*')
    ∷ (0, 0)
    ∷ (b' ', b' ')
    ∷ (0, 0)
    ∷ []

-- `map[index][shift]`; outside of the table the code reads other memory, which is a stop here.
unfoldable pub char_at : List (ℕ × ℕ) → (index : ℕ) (shift : Bool) → Outcome ℕ
char_at [] index shift = panic
char_at ((plain, shifted) ∷ rows) zero shift = ok (if shift then shifted else plain)
char_at (row ∷ rows) (suc index) shift = char_at rows index shift

-- A key was let go; `make_code` is its scan code without the bit that says so.
pub released : ℕ → Keyboard → Keyboard
released make_code kb =
    if (make_code == ctrl_l_make) || (make_code == ctrl_r_make)
    then record kb { ctrl_status = false }
    else if (make_code == shift_l_make) || (make_code == shift_r_make)
    then record kb { shift_status = false }
    else if (make_code == alt_l_make) || (make_code == alt_r_make)
    then record kb { alt_status = false }
    else kb

-- The keys whose second character does not depend on caps lock
abbrev pub two_chars : ℕ → Bool
two_chars scancode =
    ltb scancode 0x0e
    || (scancode == 0x29)
    || (scancode == 0x1a)
    || (scancode == 0x1b)
    || (scancode == 0x2b)
    || (scancode == 0x27)
    || (scancode == 0x28)
    || (scancode == 0x33)
    || (scancode == 0x34)
    || (scancode == 0x35)

abbrev pub use_shift : ℕ → (shift_down_last caps_lock_last : Bool) → Bool
use_shift scancode shift_down_last caps_lock_last =
    if two_chars scancode
    then shift_down_last
    else if shift_down_last && caps_lock_last
    then false
    else shift_down_last || caps_lock_last

-- A key that types nothing was pressed; the first test of the code names `ctrl_l_make` twice.
pub control_key : ℕ → Keyboard → Keyboard
control_key scancode kb =
    if (scancode == ctrl_l_make) || (scancode == ctrl_l_make)
    then record kb { ctrl_status = true }
    else if (scancode == shift_l_make) || (scancode == shift_r_make)
    then record kb { shift_status = true }
    else if (scancode == alt_l_make) || (scancode == alt_r_make)
    then record kb { alt_status = true }
    else if scancode == caps_lock_make
    then record kb { caps_lock_status = not kb.caps_lock_status }
    else kb

-- What a call does: it returns, or leaves the handler asleep on the ring or at its lock; with the
-- kernel and the keyboard
abbrev pub Handled : Type 0
Handled = Outcome (Round (Unit {0}) × Kernel × Keyboard)

-- `if (!ioq_full(&kbd_buf)) { ioq_putchar(&kbd_buf, cur_char); }`
pub type_char : ℕ → Kernel → Keyboard → Handled
type_char cur_char k kb = do
  full ← ioq_full k kb.kbd_buf
  if full then ok (done tt, k, kb) else (do
    (round, k', kbd_buf) ← ioq_putchar cur_char k kb.kbd_buf
    ok (round, k', record kb { kbd_buf = kbd_buf }))

-- A key of the table was pressed.
pub pressed : ℕ → Kernel → Keyboard → Handled
pressed scancode k kb =
    let shift = use_shift scancode kb.shift_status kb.caps_lock_status in
    let index = bit_and scancode 0x00ff in
    do
      cur_char ← char_at keymap index shift
      if cur_char == 0 then ok (done tt, k, control_key index kb) else type_char cur_char k kb

abbrev pub in_table : ℕ → Bool
in_table scancode =
    (ltb 0x00 scancode && ltb scancode 0x3b)
    || (scancode == alt_r_make)
    || (scancode == ctrl_r_make)

-- The handler behind the test for 0xe0 and the merging of the two bytes of a key
pub handle_code : ℕ → Kernel → Keyboard → Handled
handle_code scancode k kb =
    if not (bit_and scancode 0x0080 == 0)
    then ok (done tt, k, released (bit_and scancode 0xff7f) kb)
    else if in_table scancode
    then pressed scancode k kb
    else ok (done tt, k, kb)

pub intr_keyboard_handler : ℕ → Kernel → Keyboard → Handled
intr_keyboard_handler scancode k kb =
    if scancode == 0xe0
    then ok (done tt, k, record kb { ext_scancode = true })
    else if kb.ext_scancode
    then handle_code (bit_or 0xe000 scancode) k (record kb { ext_scancode = false })
    else handle_code scancode k kb

-- Registering the handler is left out.
pub keyboard_init : Keyboard → Keyboard
keyboard_init kb = record kb { kbd_buf = ioqueue_init kb.kbd_buf }
