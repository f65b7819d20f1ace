-- ===== src/Fs.antt =====
-- fs/fs.c: the search along a path; the calls on files are in the modules below. -1 is `none`. What
-- `printk` and the console print is left out; `sys_malloc` gives memory for a directory.
pub mod Open
pub mod Descriptors
pub mod Cwd
pub mod Streams
pub mod Tree
pub mod Turn
pub mod Agree
pub mod Search
pub mod Beyond
mod Tests
use os_zhenxiang.Prelude.{
  ℕ, zero, suc, ◌+◌, ◌-◌, ◌*◌, ◌/◌, ◌%◌, ◌^◌, Bool, true, false, not, ◌&&◌, ◌||◌, Option, none,
  some, List, [], ◌∷◌, ◌++◌, Outcome, ok, panic, ◌>>=◌, ◌>>◌, assert, ltb, leb, ◌==◌, if◌then◌else◌,
  u32, test_bit, update, length,
}
use os_zhenxiang.Inode.{Inode, Bytes, inode_open, inode_close}
use os_zhenxiang.FileTable.{File}
use os_zhenxiang.Volume.{Volume, zeros}
use os_zhenxiang.Dir.{
  ft_unknown, ft_regular, ft_directory, i_no_at, f_type_at, same_name, search_dir_entry,
}
use os_zhenxiang.PathName.{fits, slash, path_parse, path_depth_cnt}
use os_zhenxiang.FileOps.{
  FileSystem, inode_of, put_inode, with_volume, with_opens, file_create, file_open, file_close,
  writes,
}
use os_zhenxiang.FileData.{file_read}
use os_zhenxiang.FileData.Writing.{file_write}

-- `struct dir*`: `&root_dir`, or a directory that `dir_open` has made, by its inode. The inode of the
-- root has the number 0.
pub data DirRef : Type 0 where
  root_dir : DirRef
  opened : ℕ → DirRef

abbrev pub dir_no : DirRef → ℕ
dir_no root_dir = 0
dir_no (opened inode_no) = inode_no

-- fs/dir.c: `dir_open`
unfoldable pub dir_open : (inode_no : ℕ) → Volume → Outcome (DirRef × Volume)
dir_open inode_no v = do
  (_, opens) ← inode_open v.part inode_no zeros v.disk v.open_inodes
  ok (opened inode_no, with_opens v opens)

-- fs/dir.c: `dir_close`, which leaves the root alone
unfoldable pub dir_close : DirRef → Volume → Volume
dir_close root_dir v = v
dir_close (opened inode_no) v = with_opens v (inode_close inode_no v.open_inodes)

-- `struct path_search_record`
pub record SearchRecord : Type 0 where
  pub searched_path : List ℕ
  pub parent_dir : DirRef
  pub file_type : ℕ

-- The number found, `none` for -1, with the record and the partition
abbrev pub Searched : Type 0
Searched = Outcome (Option ℕ × SearchRecord × Volume)

-- What `search_file` keeps while it goes down the path
pub record Descent : Type 0 where
  pub name : List ℕ
  pub sub_path : Option (List ℕ)
  pub parent_dir : DirRef
  pub parent_inode_no : ℕ
  pub found_no : ℕ
  pub searched_record : SearchRecord
  pub volume : Volume

-- `path_parse` of what is left, if anything is
unfoldable pub next_parse : Option (List ℕ) → List ℕ × Option (List ℕ)
next_parse none = ([], none)
next_parse (some p) = path_parse p

-- An entry has been found: the next name is parsed into the buffer `name`, which it has to fit, and
-- then it is on into the directory, out with the file, or past another type.
pub enter : (dir_e : Bytes) → Descent → (Descent → Searched) → Searched
unfolding next_parse
enter dir_e d on =
    let i_no = i_no_at dir_e 0 in
    let (name, sub_path) = next_parse d.sub_path in
    let parsed = record d { name = name; sub_path = sub_path; found_no = i_no } in
    let into_dir = do
      (dir, v) ← dir_open i_no (dir_close d.parent_dir d.volume)
      on (record parsed {
        parent_inode_no = dir_no d.parent_dir;
        parent_dir = dir;
        searched_record = record (d.searched_record) { parent_dir = dir };
        volume = v;
      })
    in let file = ok (some i_no, record (d.searched_record) { file_type = ft_regular }, d.volume) in
      let other = on parsed in
      let found =
        if f_type_at dir_e 0 == ft_directory
        then into_dir
        else if f_type_at dir_e 0 == ft_regular
        then file
        else other in
      assert (fits name) >> found

-- One name looked up in the parent directory
pub look_up : Option Bytes → Descent → (Descent → Searched) → Searched
unfolding enter
look_up none d on = ok (none, d.searched_record, d.volume)
look_up (some dir_e) d on = enter dir_e d on

-- Every name was a directory: the record gets the directory that holds the last one.
pub reopen_parent : Descent → Searched
reopen_parent d = do
  (dir, v) ← dir_open d.parent_inode_no (dir_close d.searched_record.parent_dir d.volume)
  ok (some d.found_no, record (d.searched_record) { parent_dir = dir; file_type = ft_directory }, v)

abbrev pub is_empty : List ℕ → Bool
is_empty [] = true
is_empty (c ∷ cs) = false

-- the name put behind the path searched
abbrev pub longer_path : Descent → SearchRecord
longer_path d = record (d.searched_record) {
  searched_path = d.searched_record.searched_path ++ slash ∷ d.name;
}

-- `while (name[0])`, with fuel: a round takes a name of the path.
unfoldable pub search_loop : (fuel : ℕ) → Descent → Searched
unfolding look_up reopen_parent
search_loop zero d = panic
search_loop (suc fuel) d =
    let rest = do
      assert (ltb (length d.searched_record.searched_path) 512)
      i ← inode_of (dir_no d.parent_dir) d.volume.open_inodes
      look_up (search_dir_entry i d.name d.volume.disk)
          (record d { searched_record = longer_path d }) (search_loop fuel)
    in if is_empty d.name then reopen_parent d else rest

-- `!strcmp(pathname, "/") || !strcmp(pathname, "/.") || !strcmp(pathname, "/..")`
unfoldable pub is_root : List ℕ → Bool
is_root pathname =
    same_name pathname (slash ∷ [])
    || same_name pathname (slash ∷ b'.' ∷ [])
    || same_name pathname (slash ∷ b'.' ∷ b'.' ∷ [])

pub starts_with_slash : List ℕ → Bool
starts_with_slash [] = false
starts_with_slash (c ∷ cs) = c == slash

abbrev pub empty_record : SearchRecord
empty_record = record { searched_path = []; parent_dir = root_dir; file_type = ft_unknown }

-- The record starts cleared; `garbage` is `dir_e.i_no`, a local variable that is not set.
pub search_file : (garbage : ℕ) → (pathname : List ℕ) → Volume → Searched
unfolding starts_with_slash
search_file garbage pathname v =
    let at_root = ok (some 0, record empty_record { file_type = ft_directory }, v) in
    let (name, sub_path) = path_parse pathname in
    let rest = do
      assert (starts_with_slash pathname && ltb 1 (length pathname) && ltb (length pathname) 512)
      assert (fits name)
      search_loop (length pathname + 1) (record {
        name = name;
        sub_path = sub_path;
        parent_dir = root_dir;
        parent_inode_no = 0;
        found_no = garbage;
        searched_record = empty_record;
        volume = v;
      })
    in if is_root pathname then at_root else rest
