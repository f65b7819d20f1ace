-- ===== src/Fs/Search.antt =====
-- `search_file` on paths with the same names.
use os_zhenxiang.Prelude.{
  assert, ◌>>◌, ℕ, ◌+◌, ◌<◌, ◌≡◌, refl, sym, ◌∙◌, ap, subst, true, false, List, ltb, arith, length,
}
use os_zhenxiang.Volume.{Volume}
use os_zhenxiang.PathName.{fits, path_parse}
use os_zhenxiang.PathName.Names.{
  names, Chars, Parsed, path_parse-names, path_parse-Parsed, length-names-le,
}
use os_zhenxiang.Fs.{
  root_dir, Descent, search_loop, is_root, empty_record, search_file, starts_with_slash,
}
use os_zhenxiang.Fs.Agree.{Parsed-unique, SameRest, rounds, search_loop-Agree}

-- What a path must be for the ASSERT of `search_file`
pub record PathIsValid (p : List ℕ) : Type 0 where
  pub chars : Chars p
  pub absolute : starts_with_slash p ≡ true
  pub more : 1 < length p
  pub short : length p < 512

-- where the loop starts for a path
abbrev pub start : (garbage : ℕ) → (p : List ℕ) → Volume → Descent
start garbage p v = record {
  name = (path_parse p).0;
  sub_path = (path_parse p).1;
  parent_dir = root_dir;
  parent_inode_no = 0;
  found_no = garbage;
  searched_record = empty_record;
  volume = v;
}

pub search_file-loop :
    (garbage : ℕ) (p : List ℕ) (v : Volume)
    → PathIsValid p
    → is_root p ≡ false
    → search_file garbage p v
      ≡ (assert (fits (path_parse p).0) >> search_loop (length p + 1) (start garbage p v))
unfolding search_file
search_file-loop garbage p v valid root =
    let more : ltb 1 (length p) ≡ true = ground (arith, valid.more) in
    let short : ltb (length p) 512 ≡ true = ground (arith, valid.short) in
    rw (root, valid.absolute, more, short) refl

-- `search_file` looks at the names of a path alone: it returns the same for two paths with the
-- same names, such as `/a/b` and `//a/b/`, when both are absolute, of 2 to 511 characters without
-- a 0 byte, and neither is `/`, `/.` or `/..`. For both, a name that the search reaches and that
-- its buffer of 16 bytes does not hold is a stop. So the fuel of the loop, the length of the path
-- and 1, makes no difference.
pub search_file-names :
    (garbage : ℕ) (p q : List ℕ) (v : Volume)
    → PathIsValid p
    → PathIsValid q
    → is_root p ≡ false
    → is_root q ≡ false
    → names p ≡ names q
    → search_file garbage p v ≡ search_file garbage q v
search_file-names garbage p q v vp vq root root' same =
    let pp = path_parse-Parsed p vp.chars in
    let pq = path_parse-Parsed q vq.chars in
    let (e, rest) =
      Parsed-unique (path_parse p).0 (path_parse q).0 (path_parse p).1 (path_parse q).1 pp pq
        (sym (path_parse-names p) ∙ same ∙ path_parse-names q) in
    let s : SameRest (path_parse p).0 (path_parse p).1 (path_parse q).1 = record {
      parsed_p = pp;
      parsed_q = subst (λ m. Parsed m (path_parse q).1) (sym e) pq;
      same = rest;
    } in
    let few : rounds (path_parse p).0 (path_parse p).1 ≡ length (names p) =
      ap length (sym (path_parse-names p)) in
    let again : length (names p) ≡ length (names q) = ap length same in
    let loops =
      search_loop-Agree (length (names p) + 1) (length p + 1) (length q + 1)
        (omega (arith, length-names-le p)) (omega (arith, length-names-le q, again))
        (start garbage p v) (path_parse q).1 s (omega (arith, few)) in
    search_file-loop garbage p v vp root
    ∙ ap (λ o. assert (fits (path_parse p).0) >> o) loops
    ∙ ap
        (λ n.
          assert (fits n) >> search_loop (length q + 1) (record (start garbage q v) { name = n }))
        e
    ∙ sym (search_file-loop garbage q v vq root')
