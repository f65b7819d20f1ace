-- ===== src/PathName/Tests.antt =====
-- Paths parsed, and the theorem about their depth at two of them.
use os_zhenxiang.Prelude.{ℕ, ◌≡◌, refl, some, List, [], ◌∷◌, arith}
use os_zhenxiang.PathName.{slash, path_parse, path_depth_cnt}
use os_zhenxiang.PathName.Depth.{path_depth_cnt_lem}
use os_zhenxiang.PathName.Names.{AllFit, names_from}

-- `//ab/c`
abbrev two_names : List ℕ
two_names = slash ∷ slash ∷ b'a' ∷ b'b' ∷ slash ∷ b'c' ∷ []

parse_two : path_parse two_names ≡ (b'a' ∷ b'b' ∷ [], some (slash ∷ b'c' ∷ []))
unfolding path_parse
parse_two = refl

path_depth_cnt_lem_example : path_depth_cnt 4 7 two_names ≡ some 2
unfolding names_from AllFit
path_depth_cnt_lem_example =
    path_depth_cnt_lem 4 7 two_names (omega arith) (refl, (refl, tt)) (omega arith)

-- Of a slash alone, a name is counted that is not there.
slash_counted : path_depth_cnt 2 7 (slash ∷ []) ≡ some 1
unfolding names_from AllFit
slash_counted = path_depth_cnt_lem 2 7 (slash ∷ []) (omega arith) tt (omega arith)
