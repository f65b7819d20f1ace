-- ===== src/Fs/Agree.antt =====
-- The loop of `search_file` on two rests of a path with the same names.
use os_zhenxiang.Prelude.{
  ℕ, zero, suc, ◌<◌, ◌≤◌, ◌≡◌, refl, sym, ◌∙◌, ap, subst, false, Option, none, some, List, [], ◌∷◌,
  Outcome, ok, panic, ◌>>=◌, ltb, ◌==◌, arith, Bool-cases, Outcome-cases, inl, inr, length,
}
use os_zhenxiang.Inode.{Bytes}
use os_zhenxiang.Volume.{Volume}
use os_zhenxiang.Dir.{ft_regular, ft_directory, i_no_at, f_type_at, search_dir_entry}
use os_zhenxiang.PathName.{fits}
use os_zhenxiang.PathName.Names.{name_then, rest_names, Parsed, path_parse-names, path_parse-Parsed}
use os_zhenxiang.FileOps.{inode_of}
use os_zhenxiang.Fs.{
  DirRef, dir_no, dir_open, dir_close, Searched, Descent, next_parse, enter, look_up, reopen_parent,
  longer_path, search_loop, is_empty,
}

-- The first name and the rest are determined by the names.
pub Parsed-unique :
    (n m : List ℕ) (r s : Option (List ℕ))
    → Parsed n r
    → Parsed m s
    → name_then n (rest_names r) ≡ name_then m (rest_names s)
    → (n ≡ m) × (rest_names r ≡ rest_names s)
Parsed-unique [] [] r s p q e = (refl, e)
Parsed-unique [] (c ∷ cs) r s p q e = cc (ap rest_names p.2, e)
Parsed-unique (c ∷ cs) [] r s p q e = cc (ap rest_names q.2, e)
Parsed-unique (c ∷ cs) (d ∷ ds) r s p q e = (cc, cc)

next_parse-Parsed :
    (p : Option (List ℕ)) (n : List ℕ) → Parsed n p → Parsed (next_parse p).0 (next_parse p).1
unfolding next_parse
next_parse-Parsed none n h = (tt, tt, refl)
next_parse-Parsed (some p) n h = path_parse-Parsed p h.1

next_parse-names :
    (p : Option (List ℕ)) → rest_names p ≡ name_then (next_parse p).0 (rest_names (next_parse p).1)
unfolding next_parse
next_parse-names none = refl
next_parse-names (some p) = path_parse-names p

-- The same descent with another rest of the path
abbrev with_rest : Descent → Option (List ℕ) → Descent
with_rest d q = record d { sub_path = q }

-- two rests with the same names
pub record SameRest (n : List ℕ) (p q : Option (List ℕ)) : Type 0 where
  pub parsed_p : Parsed n p
  pub parsed_q : Parsed n q
  pub same : rest_names p ≡ rest_names q

next-SameRest :
    (n : List ℕ) (p q : Option (List ℕ))
    → SameRest n p q
    → ((next_parse p).0 ≡ (next_parse q).0)
      × SameRest (next_parse p).0 (next_parse p).1 (next_parse q).1
next-SameRest n p q s =
    let pp = next_parse-Parsed p n s.parsed_p in
    let pq = next_parse-Parsed q n s.parsed_q in
    let (e, rest) =
      Parsed-unique (next_parse p).0 (next_parse q).0 (next_parse p).1 (next_parse q).1 pp pq
        (sym (next_parse-names p) ∙ s.same ∙ next_parse-names q) in
    (
      e,
      record {
        parsed_p = pp;
        parsed_q = subst (λ m. Parsed m (next_parse q).1) (sym e) pq;
        same = rest;
      },
    )

-- the rounds that a descent takes at most
abbrev pub rounds : (n : List ℕ) → Option (List ℕ) → ℕ
rounds n p = length (name_then n (rest_names p))

-- With enough fuel the loop returns the same for both.
abbrev Agree : (on on' : Descent → Searched) → (fuel : ℕ) → Type 0
Agree on on' fuel =
    (d : Descent) (q : Option (List ℕ))
    → SameRest d.name d.sub_path q
    → rounds d.name d.sub_path < fuel
    → on d ≡ on' (with_rest d q)

enter-Agree :
    (dir_e : Bytes) (d : Descent) (q : Option (List ℕ)) (on on' : Descent → Searched) (fuel : ℕ)
    → SameRest d.name d.sub_path q
    → length (rest_names d.sub_path) < fuel
    → Agree on on' fuel
    → enter dir_e d on ≡ enter dir_e (with_rest d q) on'
unfolding enter
enter-Agree dir_e d q on on' fuel s h agree =
    let (e, next) = next-SameRest d.name d.sub_path q s in
    let below : rounds (next_parse d.sub_path).0 (next_parse d.sub_path).1 < fuel =
      subst (λ ns. length ns < fuel) (next_parse-names d.sub_path) h in
    elim (Bool-cases (fits (next_parse d.sub_path).0)) [
      | inr long ↦ rw (← e, long) refl
      | inl fit ↦ elim (Bool-cases (f_type_at dir_e 0 == ft_directory)) [
        | inl dir ↦
            rw (← e, fit, dir)
              (enter_dir d next below
                (dir_open (i_no_at dir_e 0) (dir_close d.parent_dir d.volume)))
        | inr no_dir ↦ elim (Bool-cases (f_type_at dir_e 0 == ft_regular)) [
          | inl file ↦ rw (← e, fit, no_dir, file) refl
          | inr other ↦
              rw (← e, fit, no_dir, other)
                (agree
                  (record d {
                    name = (next_parse d.sub_path).0;
                    sub_path = (next_parse d.sub_path).1;
                    found_no = i_no_at dir_e 0;
                  })
                  (next_parse q).1 next below)
        ]
      ]
    ]
  where
    enter_dir :
        (d : Descent)
        → SameRest (next_parse d.sub_path).0 (next_parse d.sub_path).1 (next_parse q).1
        → rounds (next_parse d.sub_path).0 (next_parse d.sub_path).1 < fuel
        → (o : Outcome (DirRef × Volume))
        → (o >>= λ (dir, v). on (record d {
          name = (next_parse d.sub_path).0;
          sub_path = (next_parse d.sub_path).1;
          found_no = i_no_at dir_e 0;
          parent_inode_no = dir_no d.parent_dir;
          parent_dir = dir;
          searched_record = record (d.searched_record) { parent_dir = dir };
          volume = v;
        }))
          ≡ (o >>= λ (dir, v). on' (record d {
            name = (next_parse d.sub_path).0;
            sub_path = (next_parse q).1;
            found_no = i_no_at dir_e 0;
            parent_inode_no = dir_no d.parent_dir;
            parent_dir = dir;
            searched_record = record (d.searched_record) { parent_dir = dir };
            volume = v;
          }))
    enter_dir d next below panic = refl
    enter_dir d next below (ok (dir, v)) =
        agree
          (record d {
            name = (next_parse d.sub_path).0;
            sub_path = (next_parse d.sub_path).1;
            found_no = i_no_at dir_e 0;
            parent_inode_no = dir_no d.parent_dir;
            parent_dir = dir;
            searched_record = record (d.searched_record) { parent_dir = dir };
            volume = v;
          })
          (next_parse q).1 next below

length-name_then :
    (n : List ℕ) (ns : List (List ℕ))
    → is_empty n ≡ false
    → length (name_then n ns) ≡ suc (length ns)
length-name_then [] ns h = cc
length-name_then (c ∷ cs) ns h = refl

look_up-Agree :
    (r : Option Bytes) (d : Descent) (q : Option (List ℕ)) (on on' : Descent → Searched) (fuel : ℕ)
    → SameRest d.name d.sub_path q
    → length (rest_names d.sub_path) < fuel
    → Agree on on' fuel
    → look_up r d on ≡ look_up r (with_rest d q) on'
unfolding look_up
look_up-Agree none d q on on' fuel s h agree = refl
look_up-Agree (some dir_e) d q on on' fuel s h agree = enter-Agree dir_e d q on on' fuel s h agree

pub search_loop-Agree : (b f f' : ℕ) → b ≤ f → b ≤ f' → Agree (search_loop f) (search_loop f') b
unfolding search_loop reopen_parent
search_loop-Agree zero f f' le le' d q s h = absurd (omega (arith, h))
search_loop-Agree (suc b) zero f' le le' d q s h = absurd (omega arith)
search_loop-Agree (suc b) (suc f) zero le le' d q s h = absurd (omega arith)
search_loop-Agree (suc b) (suc f) (suc f') le le' d q s h = elim (Bool-cases (is_empty d.name)) [
  | inl end ↦ rw end refl
  | inr more ↦
      let below : length (rest_names d.sub_path) < b =
        omega (arith, h, length-name_then d.name (rest_names d.sub_path) more) in
      let agree = search_loop-Agree b f f' (omega arith) (omega arith) in
      elim (Bool-cases (ltb (length d.searched_record.searched_path) 512)) [
        | inl short ↦ elim (Outcome-cases (inode_of (dir_no d.parent_dir) d.volume.open_inodes)) [
          | inl dangling ↦ rw (more, short, dangling) refl
          | inr (i, there) ↦
              rw (more, short, there)
                (look_up-Agree (search_dir_entry i d.name d.volume.disk)
                  (record d { searched_record = longer_path d }) q (search_loop f) (search_loop f')
                  b s below agree)
        ]
        | inr long ↦ rw (more, long) refl
      ]
]
