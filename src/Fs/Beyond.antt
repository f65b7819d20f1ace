-- ===== src/Fs/Beyond.antt =====
-- Paths that go on behind a regular file.
use os_zhenxiang.Prelude.{
  Bool, ℕ, suc, ◌+◌, ◌≡◌, refl, sym, ◌∙◌, ap, true, false, some, List, ◌∷◌, ok, ltb, ◌==◌, arith,
  length,
}
use os_zhenxiang.Inode.{Inode, Bytes}
use os_zhenxiang.Volume.{Volume}
use os_zhenxiang.Dir.{ft_regular, ft_directory, i_no_at, f_type_at, search_dir_entry}
use os_zhenxiang.PathName.{fits, slash, path_parse}
use os_zhenxiang.FileOps.{FileSystem, inode_of}
use os_zhenxiang.Fs.{
  next_parse, root_dir, enter, look_up, search_loop, is_empty, is_root, search_file,
}
use os_zhenxiang.Fs.Search.{PathIsValid, search_file-loop}
use os_zhenxiang.Fs.Tree.{sys_unlink}

-- The first name of a path is a regular file in the root.
pub record FileFirst (p : List ℕ) (v : Volume) (i : Inode) (dir_e : Bytes) : Type 0 where
  pub named : is_empty (path_parse p).0 ≡ false
  pub short_name : fits (path_parse p).0 ≡ true
  pub root : inode_of 0 v.open_inodes ≡ ok i
  pub entry : search_dir_entry i (path_parse p).0 v.disk ≡ some dir_e
  pub regular : f_type_at dir_e 0 ≡ ft_regular

-- The name behind the first, if there is one, fits the buffer too.
abbrev pub next_fits : List ℕ → Bool
next_fits p = fits (next_parse (path_parse p).1).0

-- The search ends at the file.
search_file_at_file :
    (garbage : ℕ) (p : List ℕ) (v : Volume) (i : Inode) (dir_e : Bytes)
    → PathIsValid p
    → is_root p ≡ false
    → next_fits p ≡ true
    → FileFirst p v i dir_e
    → search_file garbage p v
      ≡ ok (
        some (i_no_at dir_e 0),
        record {
          searched_path = slash ∷ (path_parse p).0;
          parent_dir = root_dir;
          file_type = ft_regular;
        },
        v,
      )
unfolding search_loop look_up enter
search_file_at_file garbage p v i dir_e valid not_root next f =
    let no_dir : (f_type_at dir_e 0 == ft_directory) ≡ false = ground (arith, f.regular) in
    let file : (f_type_at dir_e 0 == ft_regular) ≡ true = ground (arith, f.regular) in
    let one_more : length p + 1 ≡ suc (length p) = omega arith in
    search_file-loop garbage p v valid not_root
    ∙ rw (f.short_name, one_more, f.named, f.root, f.entry, next, no_dir, file) refl

FileFirst-same :
    (p q : List ℕ) (v : Volume) (i : Inode) (dir_e : Bytes)
    → (path_parse p).0 ≡ (path_parse q).0
    → FileFirst p v i dir_e
    → FileFirst q v i dir_e
FileFirst-same p q v i dir_e same f = record {
  named = ap is_empty (sym same) ∙ f.named;
  short_name = ap fits (sym same) ∙ f.short_name;
  root = f.root;
  entry = ap (λ n. search_dir_entry i n v.disk) (sym same) ∙ f.entry;
  regular = f.regular;
}

-- `sys_unlink` treats a path that goes on behind a regular file of the root as the path of that
-- file: two paths valid for `search_file`, other than `/`, `/.` and `/..`, whose first names are
-- the same, have at most 15 characters, and name a regular file in the root directory, and whose
-- second names, if any, have at most 15 characters, are unlinked alike, however they go on behind
-- that.
pub sys_unlink_beyond :
    (garbage : ℕ) (p q : List ℕ) (fs : FileSystem) (i : Inode) (dir_e : Bytes)
    → PathIsValid p
    → PathIsValid q
    → is_root p ≡ false
    → is_root q ≡ false
    → next_fits p ≡ true
    → next_fits q ≡ true
    → (path_parse p).0 ≡ (path_parse q).0
    → FileFirst p fs.volume i dir_e
    → sys_unlink garbage p fs ≡ sys_unlink garbage q fs
unfolding sys_unlink
sys_unlink_beyond garbage p q fs i dir_e vp vq np nq xp xq same fp =
    let short : ltb (length p) 512 ≡ true = ground (arith, vp.short) in
    let short' : ltb (length q) 512 ≡ true = ground (arith, vq.short) in
    let e = search_file_at_file garbage p fs.volume i dir_e vp np xp fp in
    let e' =
      search_file_at_file garbage q fs.volume i dir_e vq nq xq
        (FileFirst-same p q fs.volume i dir_e same fp) in
    rw (short, short', e, e', same) refl
