-- ===== src/Fs/Streams.antt =====
-- fs/fs.c: directories that are opened, read and removed. A `struct dir` is its reference and its
-- position; the buffer in it serves each call of `dir_read` alone.
use os_zhenxiang.Prelude.{
  ℕ, Bool, false, not, ◌&&◌, Option, none, some, List, [], ◌∷◌, Outcome, ok, ◌>>=◌, ◌>>◌, assert,
  ltb, ◌==◌, if◌then◌else◌, length,
}
use os_zhenxiang.Inode.{Inode, Bytes}
use os_zhenxiang.Volume.{Volume}
use os_zhenxiang.Dir.{ft_regular, ft_directory}
use os_zhenxiang.Dir.Delete.{dir_read, dir_is_empty, dir_remove}
use os_zhenxiang.PathName.{slash}
use os_zhenxiang.FileOps.{inode_of, put_inode, with_opens}
use os_zhenxiang.Fs.{DirRef, root_dir, dir_no, dir_open, dir_close, SearchRecord, search_file}

pub record Dir : Type 0 where
  pub dir : DirRef
  pub dir_pos : ℕ

-- `name[0] == '/' && (name[1] == 0 || name[0] == '.')`: the first character is tested twice.
opens_root : List ℕ → Bool
opens_root [] = false
opens_root (c ∷ []) = c == slash
opens_root (c ∷ d ∷ cs) = (c == slash) && (c == b'.')

opendir_searched : Option ℕ × SearchRecord × Volume → Outcome (Option Dir × Volume)
opendir_searched (none, r, v) = ok (none, dir_close r.parent_dir v)
opendir_searched (some inode_no, r, v) =
    let open_dir = do
      (dir, v') ← dir_open inode_no v
      ok (some (record { dir = dir; dir_pos = 0 }), dir_close r.parent_dir v')
    in if r.file_type == ft_regular
      then ok (none, dir_close r.parent_dir v)
      else if r.file_type == ft_directory
      then open_dir
      else ok (none, dir_close r.parent_dir v)

-- NULL is `none`.
pub sys_opendir : (garbage : ℕ) → (name : List ℕ) → Volume → Outcome (Option Dir × Volume)
unfolding opendir_searched opens_root
sys_opendir garbage name v =
    let rest = search_file garbage name v >>= opendir_searched in
    do
      assert (ltb (length name) 512)
      if opens_root name then ok (some (record { dir = root_dir; dir_pos = 0 }), v) else rest

pub sys_closedir : Option Dir → Volume → Option ℕ × Volume
sys_closedir none v = (none, v)
sys_closedir (some d) v = (some 0, dir_close d.dir v)

-- The directory is not NULL.
pub sys_readdir : Dir → Volume → Outcome (Option Bytes × Dir)
sys_readdir d v = do
  i ← inode_of (dir_no d.dir) v.open_inodes
  (entry, pos) ← dir_read i d.dir_pos v.disk
  ok (entry, record d { dir_pos = pos })

pub sys_rewinddir : Dir → Dir
sys_rewinddir d = record d { dir_pos = 0 }

-- The directory to remove is open, and empty.
remove_open : (parent_no inode_no : ℕ) → Inode → Volume → Outcome Volume
remove_open parent_no inode_no child v = do
  parent ← inode_of parent_no v.open_inodes
  (parent', v') ← dir_remove child parent v
  ok (with_opens v' (put_inode parent' v'.open_inodes))

rmdir_searched : Option ℕ × SearchRecord × Volume → Outcome (Option ℕ × Volume)
unfolding remove_open
rmdir_searched (none, r, v) = ok (none, dir_close r.parent_dir v)
rmdir_searched (some inode_no, r, v) = do
  assert (not (inode_no == 0))
  (dir, v₁) ← dir_open inode_no v
  child ← inode_of inode_no v₁.open_inodes
  let refused = ok (none, dir_close r.parent_dir (dir_close dir v₁))
  let remove = do
    v₂ ← remove_open (dir_no r.parent_dir) inode_no child v₁
    ok (some 0, dir_close r.parent_dir (dir_close dir v₂))
  if dir_is_empty child then remove else refused

pub sys_rmdir : (garbage : ℕ) → (pathname : List ℕ) → Volume → Outcome (Option ℕ × Volume)
unfolding rmdir_searched
sys_rmdir garbage pathname v = search_file garbage pathname v >>= rmdir_searched
