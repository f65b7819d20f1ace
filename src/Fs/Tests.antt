-- ===== src/Fs/Tests.antt =====
-- Paths on the sample partition, whose root directory has the regular file `a`.
use os_zhenxiang.Prelude.{
  some, ok, ◌==◌, if◌then◌else◌, ℕ, ◌+◌, ◌≡◌, ◌≢◌, refl, none, List, [], ◌∷◌, arith, length,
}
use os_zhenxiang.Inode.{Bytes}
use os_zhenxiang.Volume.{all_blocks}
use os_zhenxiang.Volume.Samples.{root_inode, file_inode, disk, volume}
use os_zhenxiang.Dir.{
  filename_at, chars_at, same_name, sector, search_sector, search_blocks, search_dir_entry,
}
use os_zhenxiang.PathName.{slash, path_parse}
use os_zhenxiang.PathName.Names.{names_from}
use os_zhenxiang.FileOps.{FileSystem, inode_of}
use os_zhenxiang.FileTable.{File}
use os_zhenxiang.Fs.{next_parse, is_root, starts_with_slash, search_file}
use os_zhenxiang.Fs.Search.{PathIsValid, search_file-names}
use os_zhenxiang.Fs.Tree.{sys_unlink}
use os_zhenxiang.Fs.Beyond.{FileFirst, sys_unlink_beyond}
use os_zhenxiang.Fs.Descriptors.{sys_lseek}
use os_zhenxiang.Fs.Descriptors.Seek.{moved_to, sys_lseek_lem}
use os_zhenxiang.Fs.Cwd.{turn_over}
use os_zhenxiang.Fs.Turn.{path_up, path_down, turn_over_lem}

-- `/a/x`
abbrev path_ax : List ℕ
path_ax = slash ∷ b'a' ∷ slash ∷ b'x' ∷ []

-- `//a/x/`
abbrev longer_ax : List ℕ
longer_ax = slash ∷ slash ∷ b'a' ∷ slash ∷ b'x' ∷ slash ∷ []

-- `/a`
abbrev path_a : List ℕ
path_a = slash ∷ b'a' ∷ []

slash_char : slash ≢ 0
slash_char e = omega (arith, e)

a_char : ◌≢◌ {A = ℕ} b'a' 0
a_char e = omega (arith, e)

x_char : ◌≢◌ {A = ℕ} b'x' 0
x_char e = omega (arith, e)

path_ax-IsValid : PathIsValid path_ax
unfolding starts_with_slash
path_ax-IsValid = record {
  chars = (slash_char, (a_char, (slash_char, (x_char, tt))));
  absolute = refl;
  more = omega arith;
  short = omega arith;
}

longer_ax-IsValid : PathIsValid longer_ax
unfolding starts_with_slash
longer_ax-IsValid = record {
  chars = (slash_char, (slash_char, (a_char, (slash_char, (x_char, (slash_char, tt))))));
  absolute = refl;
  more = omega arith;
  short = omega arith;
}

path_a-IsValid : PathIsValid path_a
unfolding starts_with_slash
path_a-IsValid = record {
  chars = (slash_char, (a_char, tt));
  absolute = refl;
  more = omega arith;
  short = omega arith;
}

search_file-names_example : search_file 0 path_ax volume ≡ search_file 0 longer_ax volume
unfolding is_root same_name names_from
search_file-names_example =
    search_file-names 0 path_ax longer_ax volume path_ax-IsValid longer_ax-IsValid refl refl refl

-- the entry of `a`
abbrev entry_a : Bytes
entry_a k = sector disk 700 (0 + k)

path_a-FileFirst : FileFirst path_ax volume root_inode entry_a
unfolding path_parse inode_of search_dir_entry search_blocks search_sector same_name filename_at
    chars_at all_blocks
path_a-FileFirst = record {
  named = refl;
  short_name = refl;
  root = refl;
  entry = refl;
  regular = refl;
}

abbrev closed : File
closed = record { fd_pos = 0; fd_flag = 0; fd_inode = none }

abbrev system : FileSystem
system = record { volume = volume; file_table = λ _. closed; fd_table = λ _. none }

sys_unlink_beyond_example : sys_unlink 0 path_ax system ≡ sys_unlink 0 path_a system
unfolding path_parse is_root same_name next_parse
sys_unlink_beyond_example =
    sys_unlink_beyond 0 path_ax path_a system root_inode entry_a path_ax-IsValid path_a-IsValid refl
      refl refl refl refl path_a-FileFirst

-- `/x/a` has been put together as `/a/x`.
turn_over_lem_example :
    turn_over
      (length (path_up ((b'x' ∷ []) ∷ (b'a' ∷ []) ∷ [])))
      (path_up ((b'x' ∷ []) ∷ (b'a' ∷ []) ∷ []))
      []
    ≡ path_down ((b'x' ∷ []) ∷ (b'a' ∷ []) ∷ [])
turn_over_lem_example =
    turn_over_lem ((b'x' ∷ []) ∷ (b'a' ∷ []) ∷ [])
      (((λ e. omega (arith, e)), tt), (((λ e. omega (arith, e)), tt), tt))

-- Descriptor 3 has the file `a` open, of 3 bytes.
abbrev reading : FileSystem
reading = record {
  volume = volume;
  file_table =
      λ s. if s == 3 then record { fd_pos = 1; fd_flag = 0; fd_inode = some 5 } else closed;
  fd_table = λ d. if d == 3 then some 3 else none;
}

sys_lseek_lem_example :
    (sys_lseek 3 1 1 reading ≡ ok (moved_to 1 3 file_inode reading))
    × (sys_lseek 3 1 2 reading ≡ ok (moved_to 2 3 file_inode reading))
    × (sys_lseek 3 1 3 reading ≡ ok (none, reading))
unfolding inode_of
sys_lseek_lem_example =
    sys_lseek_lem 3 1 3 5 file_inode reading refl
      (record { entry = refl; slot = omega arith; inode = refl; there = refl; size = omega arith })
      (omega arith)
