-- ===== src/Fs/Open.antt =====
-- fs/fs.c: `sys_open`.
use os_zhenxiang.Prelude.{
  ℕ, ◌+◌, Bool, true, false, not, ◌&&◌, Option, none, some, List, [], ◌∷◌, ◌++◌, Outcome, ok, panic,
  ◌>>=◌, ◌>>◌, assert, leb, ◌==◌, if◌then◌else◌, test_bit, length,
}
use os_zhenxiang.Volume.{Volume}
use os_zhenxiang.Dir.{ft_directory}
use os_zhenxiang.PathName.{slash, path_depth_cnt}
use os_zhenxiang.FileOps.{FileSystem, with_volume, file_create, file_open}
use os_zhenxiang.Fs.{SearchRecord, dir_close, dir_no, search_file}

-- What the calls leave to chance: the variables that are not set, and whether memory is there
pub record Chance : Type 0 where
  pub garbage : ℕ
  pub io_mem : Bool
  pub inode_mem : Bool

-- `pathname_depth != path_searched_depth`; two more rounds than characters are enough.
pub depth_differs : (garbage : ℕ) → (pathname searched : List ℕ) → Outcome Bool
depth_differs garbage pathname searched =
    compare_depths (path_depth_cnt (length pathname + 2) garbage pathname)
      (path_depth_cnt (length searched + 2) garbage searched)
  where
    compare_depths : Option ℕ → Option ℕ → Outcome Bool
    compare_depths (some m) (some n) = ok (not (m == n))
    compare_depths (some m) none = panic
    compare_depths none n = panic

last_of : List ℕ → ℕ
last_of [] = 0
last_of (c ∷ []) = c
last_of (c ∷ d ∷ cs) = last_of (d ∷ cs)

-- `strrchr(path, '/') + 1`, for a path with a slash
unfoldable pub after_slash : (so_far : List ℕ) → List ℕ → List ℕ
after_slash so_far [] = so_far
after_slash so_far (c ∷ cs) = after_slash (if c == slash then [] else so_far ++ c ∷ []) cs

abbrev pub is_some : Option ℕ → Bool
is_some none = false
is_some (some n) = true

-- `flags & O_CREAT`
abbrev pub creates : (flags : ℕ) → Bool
creates flags = test_bit flags 2

open_found : Option ℕ → (flags : ℕ) → FileSystem → Outcome (Option ℕ × FileSystem)
open_found none flags fs = panic
open_found (some inode_no) flags fs = file_open inode_no flags fs

-- `sys_open` after the search
open_searched :
    Chance
    → (pathname : List ℕ) → (flags : ℕ) → FileSystem
    → Option ℕ × SearchRecord × Volume
    → Outcome (Option ℕ × FileSystem)
unfolding open_found depth_differs
open_searched c pathname flags fs (inode_no, r, v) =
    let found = is_some inode_no in
    let refused = ok (none, with_volume fs (dir_close r.parent_dir v)) in
    let created = do
      (fd, fs') ←
          file_create c.io_mem c.inode_mem (dir_no r.parent_dir) (after_slash [] pathname) flags
            (with_volume fs v)
      ok (fd, with_volume fs' (dir_close r.parent_dir fs'.volume))
    in let deep = do
      differs ← depth_differs c.garbage pathname r.searched_path
      if differs
          then refused
          else if not found && not (creates flags)
          then refused
          else if found && creates flags
          then refused
          else if creates flags
          then created
          else open_found inode_no flags (with_volume fs v)
      in if r.file_type == ft_directory then refused else deep

pub sys_open :
    Chance → (pathname : List ℕ) → (flags : ℕ) → FileSystem → Outcome (Option ℕ × FileSystem)
unfolding open_searched last_of
sys_open c pathname flags fs =
    let rest = do
      assert (leb flags 7)
      searched ← search_file c.garbage pathname fs.volume
      open_searched c pathname flags fs searched
    in if last_of pathname == slash then ok (none, fs) else rest
