-- ===== src/CString.antt =====
-- lib/string.c: bytes in memory and strings that end in a 0 byte. A `char` is signed, so comparisons
-- order the bytes from 128 on before the others. A pointer that is NULL is not passed.
pub mod Holds
pub mod Copy
pub mod Compare
mod Tests
use os_zhenxiang.Prelude.{
  ℕ, zero, suc, ◌+◌, ◌-◌, ◌%◌, ◌^◌, Bool, true, false, not, ◌&&◌, Option, none, some, ltb, ◌==◌,
  if◌then◌else◌, u32, update,
}

-- Bytes by address
abbrev pub Bytes : Type 0
Bytes = ℕ → ℕ

-- `a > b` for two values of type `char`
abbrev pub char_gt : ℕ → ℕ → Bool
char_gt a b = ltb ((b + 128) % 256) ((a + 128) % 256)

-- `c == ch` for a `char` and a `uint8_t`: a `char` from 128 on is negative, and equal to none.
abbrev pub char_is : ℕ → ℕ → Bool
char_is c ch = ltb c 128 && (c == ch)

-- `while (size-- > 0) *dst++ = value;`
pub memset : (dst value size : ℕ) → Bytes → Bytes
memset dst value zero m = m
memset dst value (suc size) m = memset (dst + 1) value size (update m dst value)

-- `while (size-- > 0) *dst++ = *src++;`
pub memcpy : (dst src size : ℕ) → Bytes → Bytes
memcpy dst src zero m = m
memcpy dst src (suc size) m = memcpy (dst + 1) (src + 1) size (update m dst (m src))

-- What the comparisons return
pub data Sign : Type 0 where
  minus null plus : Sign

pub memcmp : (a b size : ℕ) → Bytes → Sign
memcmp a b zero m = null
memcmp a b (suc size) m =
    let rest = memcmp (a + 1) (b + 1) size m in
    if m a == m b then rest else if char_gt (m a) (m b) then plus else minus

-- `while((*dst_++ = *src_++));`: on fuel, like every loop below that a 0 byte ends
pub strcpy : (fuel dst src : ℕ) → Bytes → Option Bytes
strcpy zero dst src m = none
strcpy (suc fuel) dst src m =
    let m' = update m dst (m src) in
    let rest = strcpy fuel (dst + 1) (src + 1) m' in if m src == 0 then some m' else rest

-- `while(*p++);`, and where `p` is then
pub skip_string : (fuel p : ℕ) → Bytes → Option ℕ
skip_string zero p m = none
skip_string (suc fuel) p m =
    let rest = skip_string fuel (p + 1) m in if m p == 0 then some (p + 1) else rest

pub strlen : (fuel str : ℕ) → Bytes → Option ℕ
strlen fuel str m = length_to (skip_string fuel str m)
  where
    length_to : Option ℕ → Option ℕ
    length_to none = none
    length_to (some p) = some (p - str - 1)

pub strcmp : (fuel a b : ℕ) → Bytes → Option Sign
strcmp zero a b m = none
strcmp (suc fuel) a b m =
    let rest = strcmp fuel (a + 1) (b + 1) m in
    if not (m a == 0) && (m a == m b)
    then rest
    else some (if char_gt (m b) (m a) then minus else if char_gt (m a) (m b) then plus else null)

-- NULL is the inner `none`.
pub strchr : (fuel str ch : ℕ) → Bytes → Option (Option ℕ)
strchr zero str ch m = none
strchr (suc fuel) str ch m =
    let rest = strchr fuel (str + 1) ch m in
    if m str == 0 then some none else if char_is (m str) ch then some (some str) else rest

-- The loop of `strrchr`
pub last_from : (fuel str ch : ℕ) → (last_char : Option ℕ) → Bytes → Option (Option ℕ)
last_from zero str ch last_char m = none
last_from (suc fuel) str ch last_char m =
    let rest = last_from fuel (str + 1) ch (if char_is (m str) ch then some str else last_char) m in
    if m str == 0 then some last_char else rest

pub strrchr : (fuel str ch : ℕ) → Bytes → Option (Option ℕ)
strrchr fuel str ch m = last_from fuel str ch none m

pub strcat : (fuel dst src : ℕ) → Bytes → Option Bytes
strcat fuel dst src m = append_at (skip_string fuel dst m)
  where
    append_at : Option ℕ → Option Bytes
    append_at none = none
    append_at (some p) = strcpy fuel (p - 1) src m

-- The loop of `strchrs`
pub count_from : (fuel p ch ch_cnt : ℕ) → Bytes → Option ℕ
count_from zero p ch ch_cnt m = none
count_from (suc fuel) p ch ch_cnt m =
    let rest =
      count_from fuel (p + 1) ch (if char_is (m p) ch then u32 (ch_cnt + 1) else ch_cnt) m in
    if m p == 0 then some ch_cnt else rest

pub strchrs : (fuel str ch : ℕ) → Bytes → Option ℕ
strchrs fuel str ch m = count_from fuel str ch 0 m
