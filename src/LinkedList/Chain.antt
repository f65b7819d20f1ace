-- ===== src/LinkedList/Chain.antt =====
-- What a chain of nodes is, and what leaves one alone.
use os_zhenxiang.Prelude.{refl, ◌≡◌, ◌≢◌, ◌∙◌, List, [], ◌∷◌, ◌++◌, arith}
use os_zhenxiang.LinkedList.{Addr, Memory, Plist, set_next, set_prev}

abbrev pub All : (Addr → Type 0) → List Addr → Type 0
All P [] = Unit
All P (x ∷ xs) = P x × All P xs

infix 40 ◌∉◌
abbrev pub ◌∉◌ : Addr → List Addr → Type 0
a ∉ xs = All (λ x. a ≢ x) xs

-- The nodes of `xs` follow `a`, linked both ways, and all are distinct.
abbrev pub Chain : Memory → Addr → List Addr → Type 0
Chain m a [] = Unit
Chain m a (x ∷ xs) = (m.next a ≡ x) × (m.prev x ≡ a) × (a ∉ x ∷ xs) × Chain m x xs

-- `plist` holds the nodes `xs`, in order.
abbrev pub IsList : Memory → Plist → List Addr → Type 0
IsList m plist xs = Chain m plist.head (xs ++ plist.tail ∷ [])

pub All-map :
    {P Q : Addr → Type 0} (xs : List Addr) → ((a : Addr) → P a → Q a) → All P xs → All Q xs
All-map [] f h = tt
All-map (x ∷ xs) f h = (f x h.0, All-map xs f h.1)

pub All-map₂ :
    {P Q R : Addr → Type 0} (xs : List Addr)
    → ((a : Addr) → P a → Q a → R a)
    → All P xs
    → All Q xs
    → All R xs
All-map₂ [] f h k = tt
All-map₂ (x ∷ xs) f h k = (f x h.0 k.0, All-map₂ xs f h.1 k.1)

module _ (P : Addr → Type 0) where
  pub All-front : (xs ys : List Addr) → All P (xs ++ ys) → All P xs
  All-front [] ys h = tt
  All-front (x ∷ xs) ys h = (h.0, All-front xs ys h.1)

  pub All-back : (xs ys : List Addr) → All P (xs ++ ys) → All P ys
  All-back [] ys h = h
  All-back (x ∷ xs) ys h = All-back xs ys h.1

  pub All-append : (xs ys : List Addr) → All P xs → All P ys → All P (xs ++ ys)
  All-append [] ys h k = k
  All-append (x ∷ xs) ys h k = (h.0, All-append xs ys h.1 k)

pub Chain-fresh : (m : Memory) (a : Addr) (xs : List Addr) → Chain m a xs → a ∉ xs
Chain-fresh m a [] c = tt
Chain-fresh m a (x ∷ xs) c = c.2

-- A chain stands while its links do.
pub Chain-frame :
    (m m' : Memory) (a : Addr) (xs : List Addr)
    → Chain m a xs
    → All (λ j. m'.next j ≡ m.next j) (a ∷ xs)
    → All (λ j. m'.prev j ≡ m.prev j) xs
    → Chain m' a xs
Chain-frame m m' a [] c n p = tt
Chain-frame m m' a (x ∷ xs) (nx, pv, d, c) n p =
    (n.0 ∙ nx, p.0 ∙ pv, d, Chain-frame m m' x xs c n.1 p.1)

-- The predecessor of a node of a chain is a node of it.
pub prev-ne :
    (m : Memory) (b x c : Addr) (xs ys : List Addr)
    → Chain m x (xs ++ c ∷ ys)
    → b ∉ x ∷ xs
    → b ≢ m.prev c
prev-ne m b x c [] ys h d = λ e. d.0 (e ∙ h.1)
prev-ne m b x c (y ∷ xs) ys h d = prev-ne m b y c xs ys h.3 d.1

-- A chain is not affected by writes at other nodes.
pub Chain-set_next :
    (m : Memory) (p q a : Addr) (xs : List Addr)
    → Chain m a xs
    → p ∉ a ∷ xs
    → Chain (set_next p q m) a xs
Chain-set_next m p q a xs c d =
    Chain-frame m (set_next p q m) a xs c (All-map (a ∷ xs) (λ j ne. ground (arith, ne)) d)
      (All-map xs (λ j ne. refl) d.1)

pub Chain-set_prev :
    (m : Memory) (p q a : Addr) (xs : List Addr)
    → Chain m a xs
    → p ∉ xs
    → Chain (set_prev p q m) a xs
Chain-set_prev m p q a xs c d =
    Chain-frame m (set_prev p q m) a xs c (all-refl (a ∷ xs))
      (All-map xs (λ j ne. ground (arith, ne)) d)
  where
    all-refl : (l : List Addr) → All (λ j. m.next j ≡ m.next j) l
    all-refl [] = tt
    all-refl (x ∷ l) = (refl, all-refl l)

-- The successor of a node of a chain.
pub Chain-next :
    (m : Memory) (a c y : Addr) (xs ys : List Addr) → Chain m a (xs ++ c ∷ y ∷ ys) → m.next c ≡ y
Chain-next m a c y [] ys h = h.3.0
Chain-next m a c y (x ∷ xs) ys h = Chain-next m x c y xs ys h.3
