-- ===== src/Fs/Cwd.antt =====
-- fs/fs.c: `sys_getcwd`, `sys_chdir`, `sys_stat`, and the calls that open, read and remove
-- directories.
use os_zhenxiang.Prelude.{
  ℕ, zero, suc, ◌+◌, ◌*◌, ◌&&◌, Option, none, some, List, [], ◌∷◌, ◌++◌, Outcome, ok, panic, ◌>>=◌,
  ◌>>◌, assert, ltb, leb, ◌==◌, if◌then◌else◌, length,
}
use os_zhenxiang.Inode.{Bytes, inode_open, inode_close}
use os_zhenxiang.Volume.{Volume, zeros, all_blocks}
use os_zhenxiang.Dir.{dir_entry_cnt, ft_directory, filename_at, i_no_at, f_type_at, sector}
use os_zhenxiang.PathName.{slash}
use os_zhenxiang.FileOps.{inode_of, with_opens}
use os_zhenxiang.Fs.{dir_close, SearchRecord, search_file, is_root}

-- The number in the entry `..` of a directory
unfoldable pub get_parent_dir_inode_nr : (child_inode_nr : ℕ) → Volume → Outcome (ℕ × Volume)
get_parent_dir_inode_nr child_inode_nr v = do
  (child, opens) ← inode_open v.part child_inode_nr zeros v.disk v.open_inodes
  let block_lba = child.i_sectors 0
  assert (leb v.data_start_lba block_lba)
  let io_buf = sector v.disk block_lba
  assert (ltb (i_no_at io_buf 24) 4096 && (f_type_at io_buf 24 == ft_directory))
  ok (i_no_at io_buf 24, with_opens v (inode_close child_inode_nr opens))

-- The loop over the entries of a sector: the name of the first with the number
unfoldable pub child_in_sector : (left idx c_inode_nr : ℕ) → (buf : Bytes) → Option (List ℕ)
child_in_sector zero idx c_inode_nr buf = none
child_in_sector (suc left) idx c_inode_nr buf =
    let rest = child_in_sector left (idx + 1) c_inode_nr buf in
    if i_no_at buf (24 * idx) == c_inode_nr then some (filename_at buf (24 * idx)) else rest

name_or : Option (List ℕ) → Option (List ℕ) → Option (List ℕ)
name_or none rest = rest
name_or (some name) rest = some name

-- The loop over the blocks
unfoldable pub child_in_blocks :
    (left block_idx c_inode_nr : ℕ) → (blocks : ℕ → ℕ) → (disk : Bytes) → Option (List ℕ)
unfolding name_or
child_in_blocks zero block_idx c_inode_nr blocks disk = none
child_in_blocks (suc left) block_idx c_inode_nr blocks disk =
    let rest = child_in_blocks left (block_idx + 1) c_inode_nr blocks disk in
    let buf = sector disk (blocks block_idx) in
    if blocks block_idx == 0
    then rest
    else name_or (child_in_sector dir_entry_cnt 0 c_inode_nr buf) rest

-- The name with a slash put behind the path, or -1
unfoldable pub get_child_dir_name :
    (p_inode_nr c_inode_nr : ℕ) → (path : List ℕ) → Volume → Outcome (Option (List ℕ) × Volume)
get_child_dir_name p_inode_nr c_inode_nr path v = do
  (parent, opens) ← inode_open v.part p_inode_nr zeros v.disk v.open_inodes
  let v' = with_opens v (inode_close p_inode_nr opens)
  ok (put_behind (child_in_blocks 140 0 c_inode_nr (all_blocks parent v.disk) v.disk), v')
  where
    put_behind : Option (List ℕ) → Option (List ℕ)
    put_behind none = none
    put_behind (some name) = some (path ++ slash ∷ name)

-- The path with the next name, or -1
climb_on :
    Option (List ℕ) × Volume
    → (List ℕ → Volume → Outcome (Option (List ℕ) × Volume))
    → Outcome (Option (List ℕ) × Volume)
climb_on (none, v) on = ok (none, v)
climb_on (some longer, v) on = on longer v

-- The loop up to the root, with fuel: the names from the bottom up, NULL as `none`. `panic` at the
-- end of the fuel is a tree with more levels, or a circle.
unfoldable pub climb :
    (fuel child_inode_nr : ℕ) → (path : List ℕ) → Volume → Outcome (Option (List ℕ) × Volume)
unfolding climb_on
climb zero child_inode_nr path v = panic
climb (suc fuel) child_inode_nr path v =
    let up = do
      (parent, v') ← get_parent_dir_inode_nr child_inode_nr v
      r ← get_child_dir_name parent child_inode_nr path v'
      climb_on r (climb fuel parent)
    in if child_inode_nr == 0 then ok (some path, v) else up

-- `strrchr(path, '/')`, as a split of the path before the last slash
unfoldable pub split_last : List ℕ → Option (List ℕ × List ℕ)
split_last [] = none
split_last (c ∷ cs) = elim (split_last cs) [
  | none ↦ if c == slash then some ([], c ∷ cs) else none
  | some r ↦ some (c ∷ r.0, r.1)
]

-- `while ((last_slash = strrchr(full_path_reverse, '/')))`: the last name is moved behind the buffer.
-- A round takes a slash away, so as many rounds as there are characters are enough.
unfoldable pub turn_over : (fuel : ℕ) → (full_path_reverse buf : List ℕ) → List ℕ
turn_over zero full_path_reverse buf = buf
turn_over (suc fuel) full_path_reverse buf = elim (split_last full_path_reverse) [
  | none ↦ buf
  | some r ↦ turn_over fuel r.0 (buf ++ r.1)
]

turned : (size : ℕ) → Option (List ℕ) × Volume → Outcome (Option (List ℕ) × Volume)
turned size (none, v) = ok (none, v)
turned size (some path, v) = do
  assert (leb (length path) size)
  ok (some (turn_over (length path) path []), v)

-- The text in the buffer, which has room for it; a path has at most 512 characters, so at most 256
-- names.
pub sys_getcwd : (size cwd_inode_nr : ℕ) → Volume → Outcome (Option (List ℕ) × Volume)
unfolding turned
sys_getcwd size cwd_inode_nr v =
    let rest = climb 257 cwd_inode_nr [] v >>= turned size in
    do assert (ltb cwd_inode_nr 4096); if cwd_inode_nr == 0 then ok (some (slash ∷ []), v) else rest

-- The new number of the working directory, with the result
chdir_searched :
    (cwd_inode_nr : ℕ) → Option ℕ × SearchRecord × Volume → Outcome (Option ℕ × ℕ × Volume)
chdir_searched cwd_inode_nr (none, r, v) = ok (none, cwd_inode_nr, dir_close r.parent_dir v)
chdir_searched cwd_inode_nr (some inode_no, r, v) =
    let v' = dir_close r.parent_dir v in
    if r.file_type == ft_directory then ok (some 0, inode_no, v') else ok (none, cwd_inode_nr, v')

pub sys_chdir :
    (garbage : ℕ) → (path : List ℕ) → (cwd_inode_nr : ℕ) → Volume → Outcome (Option ℕ × ℕ × Volume)
unfolding chdir_searched
sys_chdir garbage path cwd_inode_nr v = do
  r ← search_file garbage path v
  chdir_searched cwd_inode_nr r

-- `struct stat`
pub record Stat : Type 0 where
  pub st_ino : ℕ
  pub st_size : ℕ
  pub st_filetype : ℕ

stat_searched : Option ℕ × SearchRecord × Volume → Outcome (Option Stat × Volume)
stat_searched (none, r, v) = ok (none, dir_close r.parent_dir v)
stat_searched (some inode_no, r, v) = do
  (obj_inode, opens) ← inode_open v.part inode_no zeros v.disk v.open_inodes
  ok (
    some (record { st_ino = inode_no; st_size = obj_inode.i_size; st_filetype = r.file_type }),
    dir_close r.parent_dir (with_opens v opens),
  )

-- What is filled in, if the result is 0
pub sys_stat : (garbage : ℕ) → (path : List ℕ) → Volume → Outcome (Option Stat × Volume)
unfolding stat_searched
sys_stat garbage path v =
    let of_root = do
      root ← inode_of 0 v.open_inodes
      ok (some (record { st_ino = 0; st_size = root.i_size; st_filetype = ft_directory }), v)
    in let rest = search_file garbage path v >>= stat_searched in
      if is_root path then of_root else rest
