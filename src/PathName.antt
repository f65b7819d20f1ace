-- ===== src/PathName.antt =====
-- fs/fs.c: path names. A path is its characters up to the 0 byte. `path_parse` writes the name to the
-- buffer of its caller; a caller whose buffer is too small for it checks that with `fits`.
pub mod Names
mod Depth
mod Tests
use os_zhenxiang.Prelude.{
  ltb, length, ℕ, zero, suc, ◌+◌, Bool, true, false, Option, none, some, List, [], ◌∷◌, ◌==◌,
  if◌then◌else◌,
}

abbrev pub slash : ℕ
slash = b'/'

-- `while(*(++pathname) == '/');`, when the path starts with a slash at all
pub skip_slashes : List ℕ → List ℕ
skip_slashes [] = []
skip_slashes (c ∷ cs) = if c == slash then skip_slashes cs else c ∷ cs

-- `while (*pathname != '/' && *pathname != 0) *name_store++ = *pathname++;`: what is stored, and the
-- rest of the path
pub take_name : List ℕ → List ℕ × List ℕ
take_name [] = ([], [])
take_name (c ∷ cs) =
    let (name, rest) = take_name cs in if c == slash then ([], c ∷ cs) else (c ∷ name, rest)

-- The rest of the path; NULL, `none`, at its end
rest_or_null : List ℕ → Option (List ℕ)
rest_or_null [] = none
rest_or_null (c ∷ cs) = some (c ∷ cs)

-- The name that is stored, and what is returned
unfoldable pub path_parse : List ℕ → List ℕ × Option (List ℕ)
unfolding rest_or_null skip_slashes take_name
path_parse pathname =
    let (name, rest) = take_name (skip_slashes pathname) in (name, rest_or_null rest)

-- `name[0]` when the name has been stored over a buffer that began with `old`
abbrev pub first_or : (old : ℕ) → List ℕ → ℕ
first_or old [] = old
first_or old (c ∷ cs) = c

-- Whether a name with its 0 byte fits the `char name[MAX_FILE_NAME_LEN]` of the callers. The code does
-- not check it, and writes behind the buffer, which is not defined.
abbrev pub fits : List ℕ → Bool
fits name = ltb (length name) 16

-- The buffer at the end of a round: it is cleared, and filled from the path if that goes on.
next_name : Option (List ℕ) → List ℕ × Option (List ℕ)
next_name none = ([], none)
next_name (some p) = path_parse p

-- `none` at the end of the fuel, and for a name that does not fit the buffer
depth_loop : (fuel depth first : ℕ) → Option (List ℕ) → Option ℕ
depth_loop zero depth first p = none
depth_loop (suc fuel) depth first p =
    let (name, p') = next_name p in
    let rest = depth_loop fuel (depth + 1) (first_or 0 name) p' in
    if first == 0 then some depth else if fits name then rest else none

-- `garbage` is what the buffer, a local variable that is not set, holds first.
pub path_depth_cnt : (fuel garbage : ℕ) → List ℕ → Option ℕ
path_depth_cnt fuel garbage pathname =
    let (name, rest) = path_parse pathname in
    let depth = depth_loop fuel 0 (first_or garbage name) rest in if fits name then depth else none
