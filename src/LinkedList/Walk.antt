-- ===== src/LinkedList/Walk.antt =====
-- The walks of lib/kernel/list.c: `elem_find`, `list_traversal`, `list_len` and `list_empty` as
-- functions of the sequence of nodes, with one round of fuel more than there are nodes.
use os_zhenxiang.Prelude.{
  ℕ, zero, suc, ◌+◌, ◌^◌, ◌<◌, ◌≡◌, ◌≢◌, refl, Bool, false, some, List, [], ◌∷◌, ◌++◌, arith, ◌==◌,
  if◌then◌else◌, u32, length, ap, ◌∙◌, has,
}
use os_zhenxiang.LinkedList.{
  Addr, null, Memory, Plist, find_from, elem_find, list_empty, traverse_from, list_traversal,
  len_from, list_len,
}
use os_zhenxiang.LinkedList.Chain.{All-back, Chain, IsList, Chain-fresh}

-- the first node that the callback accepts, or NULL
unfoldable pub first_match : (Addr → Bool) → List Addr → Addr
first_match f [] = null
first_match f (x ∷ xs) = if f x then x else first_match f xs

module _ (m : Memory) (plist : Plist) where
  -- From a node of the list a walk sees the node, then what follows it.
  node-ne_tail :
      (x : Addr) (xs : List Addr) → Chain m x (xs ++ plist.tail ∷ []) → (x == plist.tail) ≡ false
  node-ne_tail x xs c =
      let (ne, _) =
        All-back (λ j. x ≢ j) xs (plist.tail ∷ []) (Chain-fresh m x (xs ++ plist.tail ∷ []) c) in
      ground (arith, ne)

  find_from-has :
      (fuel : ℕ) (obj a e : Addr) (xs : List Addr)
      → Chain m a (xs ++ plist.tail ∷ [])
      → m.next a ≡ e
      → length xs < fuel
      → find_from fuel plist obj e m ≡ some (has obj xs)
  unfolding find_from has
  find_from-has zero obj a e xs c n h = absurd (omega arith)
  find_from-has (suc fuel) obj a e [] c n h = ground (arith, c.0)
  find_from-has (suc fuel) obj a e (x ∷ xs) c n h =
      ground (arith, c.0, node-ne_tail x xs c.3, find_from-has fuel obj x (m.next x) xs c.3 refl)

  traverse_from-first_match :
      (fuel : ℕ) (f : Addr → Bool) (a e : Addr) (xs : List Addr)
      → Chain m a (xs ++ plist.tail ∷ [])
      → m.next a ≡ e
      → length xs < fuel
      → traverse_from fuel plist f e m ≡ some (first_match f xs)
  unfolding traverse_from first_match
  traverse_from-first_match zero f a e xs c n h = absurd (omega arith)
  traverse_from-first_match (suc fuel) f a e [] c n h = ground (arith, c.0)
  traverse_from-first_match (suc fuel) f a e (x ∷ xs) c n h =
      ground (
        arith,
        c.0,
        node-ne_tail x xs c.3,
        traverse_from-first_match fuel f x (m.next x) xs c.3 refl,
      )

  len_from-length :
      (fuel len : ℕ) (a e : Addr) (xs : List Addr)
      → Chain m a (xs ++ plist.tail ∷ [])
      → m.next a ≡ e
      → length xs < fuel
      → len + length xs < 2 ^ 32
      → len_from fuel plist e len m ≡ some (len + length xs)
  unfolding len_from
  len_from-length zero len a e xs c n h small = absurd (omega arith)
  len_from-length (suc fuel) len a e [] c n h small = ground (arith, c.0)
  len_from-length (suc fuel) len a e (x ∷ xs) c n h small =
      let u : u32 (len + 1) ≡ len + 1 = omega arith in
      ground (
        arith,
        c.0,
        u,
        node-ne_tail x xs c.3,
        len_from-length fuel (u32 (len + 1)) x (m.next x) xs c.3 refl,
      )

  -- `list_empty` says whether the list has no node.
  pub list_empty-length :
      (xs : List Addr) → IsList m plist xs → list_empty plist m ≡ (length xs == 0)
  unfolding list_empty
  list_empty-length [] is = ground (arith, is.0)
  list_empty-length (x ∷ xs) is = ground (arith, is.0, node-ne_tail x xs is.3)

  -- `elem_find` says whether the node is in the list.
  pub elem_find-has :
      (fuel : ℕ) (obj : Addr) (xs : List Addr)
      → IsList m plist xs
      → length xs < fuel
      → elem_find fuel plist obj m ≡ some (has obj xs)
  unfolding elem_find
  elem_find-has fuel obj xs is h = find_from-has fuel obj plist.head _ xs is refl h

  -- `list_len` counts the nodes.
  pub list_len-length :
      (fuel : ℕ) (xs : List Addr)
      → IsList m plist xs
      → length xs < fuel
      → length xs < 2 ^ 32
      → list_len fuel plist m ≡ some (length xs)
  unfolding list_len
  list_len-length fuel xs is h small =
      len_from-length fuel 0 plist.head _ xs is refl h (omega arith) ∙ ap some (omega arith)

  -- `list_traversal` returns the first node that the callback accepts, or NULL.
  pub list_traversal-first_match :
      (fuel arg : ℕ) (func : Addr → ℕ → Bool) (xs : List Addr)
      → IsList m plist xs
      → length xs < fuel
      → list_traversal fuel plist func arg m ≡ some (first_match (λ e. func e arg) xs)
  unfolding list_traversal first_match
  list_traversal-first_match fuel arg func [] is h = rw (list_empty-length [] is)
  list_traversal-first_match fuel arg func (x ∷ xs) is h =
      let e : list_empty plist m ≡ false = ground (arith, list_empty-length (x ∷ xs) is) in
      rw e (traverse_from-first_match fuel (λ e. func e arg) plist.head _ (x ∷ xs) is refl h)
