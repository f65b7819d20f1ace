-- ===== src/Fs/Turn.antt =====
-- The loop of `sys_getcwd` that turns the path round.
use os_zhenxiang.Prelude.{
  ℕ, zero, suc, ◌≤◌, ◌≡◌, ◌≢◌, refl, sym, ◌∙◌, ap, false, none, some, List, [], ◌∷◌, ◌++◌, ◌==◌,
  arith, length, length-append,
}
use os_zhenxiang.PathName.{slash}
use os_zhenxiang.Fs.Cwd.{split_last, turn_over}

-- no slash in a name
abbrev pub Slashless : List ℕ → Type 0
Slashless [] = Unit
Slashless (c ∷ cs) = (c ≢ slash) × Slashless cs

abbrev pub AllSlashless : List (List ℕ) → Type 0
AllSlashless [] = Unit
AllSlashless (n ∷ ns) = Slashless n × AllSlashless ns

-- The names from the root down, each behind a slash, and from the bottom up.
pub path_down : List (List ℕ) → List ℕ
path_down [] = []
path_down (n ∷ ns) = (slash ∷ n) ++ path_down ns

pub path_up : List (List ℕ) → List ℕ
path_up [] = []
path_up (n ∷ ns) = path_up ns ++ slash ∷ n

split_last-Slashless : (n : List ℕ) → Slashless n → split_last n ≡ none
unfolding split_last
split_last-Slashless [] h = refl
split_last-Slashless (c ∷ cs) h =
    let t : (c == slash) ≡ false = ground (arith, h.0) in rw (split_last-Slashless cs h.1, t) refl

split_last-append :
    (path n : List ℕ) → Slashless n → split_last (path ++ slash ∷ n) ≡ some (path, slash ∷ n)
unfolding split_last
split_last-append [] n h = rw (split_last-Slashless n h) refl
split_last-append (c ∷ cs) n h = rw (split_last-append cs n h) refl

append_assoc : (xs ys zs : List ℕ) → (xs ++ ys) ++ zs ≡ xs ++ (ys ++ zs)
append_assoc [] ys zs = refl
append_assoc (x ∷ xs) ys zs = ap (λ t. x ∷ t) (append_assoc xs ys zs)

append_nil : (xs : List ℕ) → xs ++ [] ≡ xs
append_nil [] = refl
append_nil (x ∷ xs) = ap (λ t. x ∷ t) (append_nil xs)

turn_one :
    (fuel : ℕ) (path n buf : List ℕ)
    → Slashless n
    → turn_over (suc fuel) (path ++ slash ∷ n) buf ≡ turn_over fuel path (buf ++ slash ∷ n)
unfolding turn_over
turn_one fuel path n buf h = rw (turn_over, split_last-append path n h) refl

turn_none : (fuel : ℕ) (buf : List ℕ) → turn_over (suc fuel) [] buf ≡ buf
unfolding turn_over split_last
turn_none fuel buf = refl

turn_over-path_up :
    (fuel : ℕ) (ns : List (List ℕ)) (buf : List ℕ)
    → AllSlashless ns
    → length ns ≤ fuel
    → turn_over fuel (path_up ns) buf ≡ buf ++ path_down ns
unfolding turn_over path_up path_down
turn_over-path_up zero [] buf h le = sym (append_nil buf)
turn_over-path_up zero (n ∷ ns) buf h le = absurd (omega arith)
turn_over-path_up (suc fuel) [] buf h le = turn_none fuel buf ∙ sym (append_nil buf)
turn_over-path_up (suc fuel) (n ∷ ns) buf h le =
    turn_one fuel (path_up ns) n buf h.0
    ∙ turn_over-path_up fuel ns (buf ++ slash ∷ n) h.1 (omega arith)
    ∙ append_assoc buf (slash ∷ n) (path_down ns)

length-path_up : (ns : List (List ℕ)) → length ns ≤ length (path_up ns)
unfolding path_up
length-path_up [] = omega arith
length-path_up (n ∷ ns) = omega (arith, length-append (path_up ns) (slash ∷ n), length-path_up ns)

-- The loop of `sys_getcwd` turns a path of names without slashes that has been put together from
-- the bottom up into the path from the root down, and as many rounds as the path has characters
-- are enough.
pub turn_over_lem :
    (ns : List (List ℕ))
    → AllSlashless ns
    → turn_over (length (path_up ns)) (path_up ns) [] ≡ path_down ns
turn_over_lem ns h = turn_over-path_up (length (path_up ns)) ns [] h (length-path_up ns)
