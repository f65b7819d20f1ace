-- ===== src/PathName/Depth.antt =====
-- What `path_depth_cnt` counts.
use os_zhenxiang.Prelude.{
  true, false, ℕ, zero, suc, ◌+◌, ◌<◌, ◌≡◌, refl, ◌∙◌, ap, subst, Bool, true, false, Option, none,
  some, List, [], ◌∷◌, ◌==◌, if◌then◌else◌, arith, Bool-cases, inl, inr, length,
}
use os_zhenxiang.PathName.{path_parse, first_or, next_name, depth_loop, path_depth_cnt}
use os_zhenxiang.PathName.Names.{
  name_then, names, rest_names, Chars, Parsed, AllFit, AllFit-name_then, path_parse-names,
  path_parse-Parsed,
}

depth_loop_lem :
    (fuel depth : ℕ) (name : List ℕ) (p : Option (List ℕ))
    → Parsed name p
    → AllFit (rest_names p)
    → length (name_then name (rest_names p)) < fuel
    → depth_loop fuel depth (first_or 0 name) p
      ≡ some (depth + length (name_then name (rest_names p)))
unfolding depth_loop next_name AllFit
depth_loop_lem zero depth name p v a h = absurd (omega (arith, h))
depth_loop_lem (suc fuel) depth [] p v a h = rw (v.2) (ap some (omega arith))
depth_loop_lem (suc fuel) depth (c ∷ cs) none v a h =
    let t : (c == 0) ≡ false = ground (arith, v.0.0) in
    rw t (
      depth_loop_lem fuel (depth + 1) [] none (tt, tt, refl) a (omega arith)
      ∙ ap some (omega arith))
depth_loop_lem (suc fuel) depth (c ∷ cs) (some q) v a h =
    let t : (c == 0) ≡ false = ground (arith, v.0.0) in
    let e = path_parse-names q in
    let n = (path_parse q).0 in
    let r = (path_parse q).1 in
    let l : length (names q) ≡ length (name_then n (rest_names r)) = ap length e in
    let (here, later) = AllFit-name_then n (rest_names r) (subst AllFit e a) in
    rw (t, here)
      (depth_loop_lem fuel (depth + 1) n r (path_parse-Parsed q v.1) later (omega arith)
        ∙ ap some (omega arith))

abbrev is_empty : List (List ℕ) → Bool
is_empty [] = true
is_empty (n ∷ ns) = false

depth_first :
    (fuel garbage : ℕ) (name : List ℕ) (p : Option (List ℕ))
    → Parsed name p
    → AllFit (rest_names p)
    → length (name_then name (rest_names p)) + 1 < fuel
    → depth_loop fuel 0 (first_or garbage name) p
      ≡ some (
          if is_empty (name_then name (rest_names p))
          then (if garbage == 0 then 0 else 1)
          else length (name_then name (rest_names p)))
unfolding depth_loop next_name AllFit
depth_first zero garbage name p v a h = absurd (omega (arith, h))
depth_first (suc fuel) garbage [] p v a h = rw (v.2) (elim (Bool-cases (garbage == 0)) [
  | inl e ↦ rw e refl
  | inr e ↦ rw e (depth_loop_lem fuel 1 [] none (tt, tt, refl) tt (omega arith))
])
depth_first (suc fuel) garbage (c ∷ cs) p v a h =
    depth_loop_lem (suc fuel) 0 (c ∷ cs) p v a (omega arith) ∙ ap some (omega arith)

-- For a path of names of at most 15 characters, without a 0 byte, `path_depth_cnt` ends, in as
-- many rounds as the path has names and 2, and returns the number of the names if there is one,
-- whatever the buffer held; for a path of slashes alone it returns 0 if the first byte of the
-- buffer, which is not set, happened to be 0, and 1 otherwise.
pub path_depth_cnt_lem :
    (fuel garbage : ℕ) (p : List ℕ)
    → Chars p
    → AllFit (names p)
    → length (names p) + 1 < fuel
    → path_depth_cnt fuel garbage p
      ≡ some (if is_empty (names p) then (if garbage == 0 then 0 else 1) else length (names p))
unfolding path_depth_cnt
path_depth_cnt_lem fuel garbage p h a f =
    let e = path_parse-names p in
    let (here, later) =
      AllFit-name_then (path_parse p).0 (rest_names (path_parse p).1) (subst AllFit e a) in
    rw (here, e)
      (depth_first fuel garbage (path_parse p).0 (path_parse p).1 (path_parse-Parsed p h) later
        (omega (arith, ap length e)))
