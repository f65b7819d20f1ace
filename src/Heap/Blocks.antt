-- ===== src/Heap/Blocks.antt =====
-- The blocks of an arena, split and taken out of the free list again.
use os_zhenxiang.Prelude.{
  ℕ, zero, suc, ◌+◌, ◌*◌, ◌/◌, ◌%◌, ◌^◌, ◌<◌, ◌≤◌, ◌≡◌, refl, sym, ◌∙◌, ap, true, false, List, [],
  ◌∷◌, ◌++◌, ok, ◌==◌, has, has-append, arith,
}
use os_zhenxiang.Heap.{arena2block, remove_elem, split_arena, merge_arena}

-- the blocks from `idx` on
unfoldable pub blocks : (left idx a block_size : ℕ) → List ℕ
blocks zero idx a block_size = []
blocks (suc left) idx a block_size =
    arena2block a idx block_size ∷ blocks left (idx + 1) a block_size

-- `left` blocks from `idx` on are in the page.
pub record Fits (left idx a block_size : ℕ) : Type 0 where
  pub positive : 0 < block_size
  pub inside : idx * block_size + left * block_size ≤ 4084
  pub page : a + 4096 < 2 ^ 32

pub Fits-next : {left idx a bs : ℕ} → Fits (suc left) idx a bs → Fits left (idx + 1) a bs
Fits-next {left} {idx} {a} {bs} f =
    let e : (idx + 1) * bs + left * bs ≡ idx * bs + suc left * bs = omega arith in
    record { positive = f.positive; inside = omega (arith, f.inside, e); page = f.page }

pub block_at : {left idx a bs : ℕ} → Fits left idx a bs → arena2block a idx bs ≡ a + 12 + idx * bs
block_at f = omega (arith, f.inside, f.page)

next_block :
    {left idx a bs : ℕ}
    → Fits (suc left) idx a bs
    → arena2block a (idx + 1) bs ≡ arena2block a idx bs + bs
next_block {left} {idx} {a} {bs} f =
    let e : (idx + 1) * bs ≡ idx * bs + bs = omega arith in
    omega (arith, block_at f, block_at (Fits-next f), e)

-- A number that is not below `x` is not in the list.
abbrev pub AllBelow : (x : ℕ) → List ℕ → Type 0
AllBelow x ts = (t : ℕ) → x ≤ t → has t ts ≡ false

blocks_above :
    (left idx a bs t : ℕ)
    → Fits left idx a bs
    → t < arena2block a idx bs
    → has t (blocks left idx a bs) ≡ false
unfolding blocks has
blocks_above zero idx a bs t f lt = refl
blocks_above (suc left) idx a bs t f lt =
    let next = next_block f in
    let rest = blocks_above left (idx + 1) a bs t (Fits-next f) (omega (arith, next, f.positive)) in
    ground (arith, rest, lt)

AllBelow-snoc :
    {left idx a bs : ℕ} (ts : List ℕ)
    → Fits (suc left) idx a bs
    → AllBelow (arena2block a idx bs) ts
    → AllBelow (arena2block a (idx + 1) bs) (ts ++ arena2block a idx bs ∷ [])
unfolding has
AllBelow-snoc {left} {idx} {a} {bs} ts f below t le =
    let next = next_block f in
    let old = below t (omega (arith, next, f.positive)) in
    let more = has-append t ts (arena2block a idx bs ∷ []) in
    let ne : (arena2block a idx bs == t) ≡ false = ground (arith, next, f.positive, le) in
    more ∙ rw (old, ne) refl

append_assoc : (xs ys zs : List ℕ) → (xs ++ ys) ++ zs ≡ xs ++ (ys ++ zs)
append_assoc [] ys zs = refl
append_assoc (x ∷ xs) ys zs = ap (λ t. x ∷ t) (append_assoc xs ys zs)

append_nil : (xs : List ℕ) → xs ++ [] ≡ xs
append_nil [] = refl
append_nil (x ∷ xs) = ap (λ t. x ∷ t) (append_nil xs)

split_arena_lem :
    (left idx a bs : ℕ) (ts : List ℕ)
    → Fits left idx a bs
    → AllBelow (arena2block a idx bs) ts
    → split_arena left idx a bs ts ≡ ok (ts ++ blocks left idx a bs)
unfolding split_arena blocks
split_arena_lem zero idx a bs ts f below = ap ok (sym (append_nil ts))
split_arena_lem (suc left) idx a bs ts f below =
    let here = below (arena2block a idx bs) (omega arith) in
    let rest =
      split_arena_lem left (idx + 1) a bs (ts ++ arena2block a idx bs ∷ []) (Fits-next f)
        (AllBelow-snoc ts f below) in
    rw here
      (rest ∙ ap ok (append_assoc ts (arena2block a idx bs ∷ []) (blocks left (idx + 1) a bs)))

remove_elem-snoc : (b : ℕ) (ts : List ℕ) → has b ts ≡ false → remove_elem b (ts ++ b ∷ []) ≡ ts
unfolding remove_elem has
remove_elem-snoc b [] h = let t : (b == b) ≡ true = ground arith in rw t refl
remove_elem-snoc b (x ∷ xs) h =
    let t : (x == b) ≡ false = ground (arith, h) in
    let rest : has b xs ≡ false = ground (arith, h) in rw (t, remove_elem-snoc b xs rest) refl

has-snoc : (b : ℕ) (ts : List ℕ) → has b (ts ++ b ∷ []) ≡ true
unfolding has
has-snoc b ts =
    let t : (b == b) ≡ true = ground arith in
    let more = has-append b ts (b ∷ []) in ground (arith, more, t)

-- Blocks in order are all taken out.
merge_arena-blocks :
    (left idx a bs : ℕ)
    → Fits left idx a bs
    → merge_arena left idx a bs (blocks left idx a bs) ≡ ok []
unfolding merge_arena blocks has remove_elem
merge_arena-blocks zero idx a bs f = refl
merge_arena-blocks (suc left) idx a bs f =
    let b = arena2block a idx bs in
    let t : (b == b) ≡ true = ground arith in
    rw t (merge_arena-blocks left (idx + 1) a bs (Fits-next f))

-- The loop of `sys_malloc` makes the blocks, and when the first has been given out and put back, the
-- loop of `sys_free` takes all out again.
pub merge_arena-first :
    (left a bs : ℕ)
    → Fits (suc left) 0 a bs
    → merge_arena (suc left) 0 a bs (blocks left 1 a bs ++ arena2block a 0 bs ∷ []) ≡ ok []
unfolding merge_arena
merge_arena-first left a bs f =
    let b = arena2block a 0 bs in
    let next = next_block f in
    let out = blocks_above left 1 a bs b (Fits-next f) (omega (arith, next, f.positive)) in
    rw (has-snoc b (blocks left 1 a bs), remove_elem-snoc b (blocks left 1 a bs) out)
      (merge_arena-blocks left 1 a bs (Fits-next f))

pub split_arena-empty :
    (left a bs : ℕ) → Fits left 0 a bs → split_arena left 0 a bs [] ≡ ok (blocks left 0 a bs)
unfolding has
split_arena-empty left a bs f = split_arena_lem left 0 a bs [] f (λ t le. refl)

pub block2arena-arena2block :
    {left a bs : ℕ} → Fits (suc left) 0 a bs → a % 4096 ≡ 0 → arena2block a 0 bs / 4096 * 4096 ≡ a
block2arena-arena2block f whole = omega (arith, f.page)
