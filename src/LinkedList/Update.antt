-- ===== src/LinkedList/Update.antt =====
-- `list_insert_before`, `list_remove` and what is built on them (lib/kernel/list.c) as operations on
-- the sequence of nodes.
use os_zhenxiang.Prelude.{◌≡◌, ◌≢◌, sym, ap, ap₂, subst, List, [], ◌∷◌, ◌++◌, arith, update}
use mathlib.Core.List.{append_assoc, append-nil}
use os_zhenxiang.Interrupt.{section_restores}
use os_zhenxiang.LinkedList.{
  Addr, Memory, Plist, list_init, list_insert_before, list_push, list_append, list_remove, list_pop,
}
use os_zhenxiang.LinkedList.Chain.{
  ◌∉◌, Chain, IsList, All-map, All-map₂, All-front, All-back, All-append, Chain-fresh, Chain-next,
  Chain-frame, prev-ne,
}

-- The four writes of an insertion after `q`, before `c`.
relink : (q c e : Addr) → Memory → Memory
relink q c e m = record m {
  next = update (update m.next q e) e c;
  prev = update (update m.prev e q) c e;
}

insert-relink : (c e : Addr) (m : Memory) → list_insert_before c e m ≡ relink (m.prev c) c e m
unfolding relink list_insert_before
insert-relink c e m =
    ap (λ f. record (relink (m.prev c) c e m) { intr = f }) (section_restores m.intr).1

-- Behind the inserted node nothing changes but the node's own predecessor.
Chain-relink_rest :
    (m : Memory) (q c e : Addr) (ys : List Addr)
    → Chain m c ys
    → q ∉ c ∷ ys
    → e ∉ c ∷ ys
    → c ∉ ys
    → Chain (relink q c e m) c ys
unfolding relink
Chain-relink_rest m q c e ys ch dq de dc =
    Chain-frame m (relink q c e m) c ys ch (All-map₂ (c ∷ ys) (λ j a b. ground (arith, a, b)) dq de)
      (All-map₂ ys (λ j a b. ground (arith, a, b)) de.1 dc)

-- An insertion before a node of a chain puts the new node there.
Chain-relink :
    (m : Memory) (c e a : Addr) (xs ys : List Addr)
    → Chain m a (xs ++ c ∷ ys)
    → e ∉ a ∷ xs ++ c ∷ ys
    → Chain (relink (m.prev c) c e m) a (xs ++ e ∷ c ∷ ys)
unfolding relink
Chain-relink m c e a [] ys (nx, pv, d, ch) (ea, out) = (
  ground (arith, ea),
  ground (arith, out.0),
  (λ p. ea (sym p), d),
  (
    ground arith,
    ground arith,
    out,
    Chain-relink_rest m (m.prev c) c e ys ch (subst (λ q. q ∉ c ∷ ys) (sym pv) d) out
        (Chain-fresh m c ys ch),
  ),
)
Chain-relink m c e a (x ∷ xs) ys (nx, pv, d, ch) (ea, out) =
    let front = All-front (λ j. a ≢ j) (x ∷ xs) (c ∷ ys) d in
    let back = All-back (λ j. a ≢ j) (x ∷ xs) (c ∷ ys) d in
    let xc = (All-back (λ j. x ≢ j) xs (c ∷ ys) (Chain-fresh m x (xs ++ c ∷ ys) ch)).0 in
    (
      ground (arith, ea, prev-ne m a x c xs ys ch front),
      ground (arith, out.0, xc),
      All-append (λ j. a ≢ j) (x ∷ xs) (e ∷ c ∷ ys) front (λ p. ea (sym p), back),
      Chain-relink m c e x xs ys ch out,
    )

-- `list_insert_before` puts the new node before the given one.
pub list_insert_before_lem :
    (m : Memory) (plist : Plist) (c e : Addr) (xs ys : List Addr)
    → Chain m plist.head (xs ++ c ∷ ys)
    → e ∉ plist.head ∷ xs ++ c ∷ ys
    → Chain (list_insert_before c e m) plist.head (xs ++ e ∷ c ∷ ys)
list_insert_before_lem m plist c e xs ys ch out =
    rw (insert-relink c e m) (Chain-relink m c e plist.head xs ys ch out)

-- `list_append` adds a node that is not in the list at its end.
pub list_append_lem :
    (m : Memory) (plist : Plist) (e : Addr) (xs : List Addr)
    → IsList m plist xs
    → e ∉ plist.head ∷ xs ++ plist.tail ∷ []
    → IsList (list_append plist e m) plist (xs ++ e ∷ [])
unfolding list_append
list_append_lem m plist e xs is out =
    rw append_assoc (list_insert_before_lem m plist plist.tail e xs [] is out)

-- `list_push` adds a node that is not in the list at its front.
pub list_push_lem :
    (m : Memory) (plist : Plist) (e : Addr) (xs : List Addr)
    → IsList m plist xs
    → e ∉ plist.head ∷ xs ++ plist.tail ∷ []
    → IsList (list_push plist e m) plist (e ∷ xs)
unfolding list_push
list_push_lem m plist e [] is out =
    subst (λ c. IsList (list_insert_before c e m) plist (e ∷ [])) (sym is.0)
      (list_insert_before_lem m plist plist.tail e [] [] is out)
list_push_lem m plist e (x ∷ xs) is out =
    subst (λ c. IsList (list_insert_before c e m) plist (e ∷ x ∷ xs)) (sym is.0)
      (list_insert_before_lem m plist x e [] (xs ++ plist.tail ∷ []) is out)

-- The two writes of a removal of what stands between `q` and `y`.
unlink : (q y : Addr) → Memory → Memory
unlink q y m = record m { next = update m.next q y; prev = update m.prev y q }

remove-unlink : (e : Addr) (m : Memory) → list_remove e m ≡ unlink (m.prev e) (m.next e) m
unfolding unlink list_remove
remove-unlink e m =
    ap₂
      (λ n f. record m {
        next = update m.next (m.prev e) (m.next e);
        prev = update m.prev n (m.prev e);
        intr = f;
      })
      same (section_restores m.intr).1
  where
    -- the second write reads the node's successor after the first
    same : update m.next (m.prev e) (m.next e) e ≡ m.next e
    same = ground arith

-- Taking a node out of a chain leaves the others in order.
Chain-unlink :
    (m : Memory) (e a y : Addr) (xs ys : List Addr)
    → Chain m a (xs ++ e ∷ y ∷ ys)
    → Chain (unlink (m.prev e) (m.next e) m) a (xs ++ y ∷ ys)
unfolding unlink
Chain-unlink m e a y [] ys (nx, pv, d, (ny, py, de, ch)) = (
  ground arith,
  ground arith,
  d.1,
  Chain-frame m (unlink (m.prev e) (m.next e) m) y ys ch
      (All-map (y ∷ ys) (λ j ne. ground (arith, ne)) d.1)
      (All-map ys (λ j ne. ground (arith, ne)) (Chain-fresh m y ys ch)),
)
Chain-unlink m e a y (x ∷ xs) ys (nx, pv, d, ch) =
    let front = All-front (λ j. a ≢ j) (x ∷ xs) (e ∷ y ∷ ys) d in
    let back = All-back (λ j. a ≢ j) (x ∷ xs) (e ∷ y ∷ ys) d in
    let fresh = Chain-fresh m x (xs ++ e ∷ y ∷ ys) ch in
    let xy = (All-back (λ j. x ≢ j) xs (e ∷ y ∷ ys) fresh).1.0 in
    (
      ground (arith, prev-ne m a x e xs (y ∷ ys) ch front),
      ground (arith, xy, Chain-next m x e y xs ys ch),
      All-append (λ j. a ≢ j) (x ∷ xs) (y ∷ ys) front back.1,
      Chain-unlink m e x y xs ys ch,
    )

-- `list_remove` takes the node out, and keeps the others in order.
pub list_remove_lem :
    (m : Memory) (plist : Plist) (e : Addr) (xs ys : List Addr)
    → IsList m plist (xs ++ e ∷ ys)
    → IsList (list_remove e m) plist (xs ++ ys)
list_remove_lem m plist e xs [] is =
    rw (remove-unlink e m, append-nil)
      (Chain-unlink m e plist.head plist.tail xs [] (rw append_assoc at is))
list_remove_lem m plist e xs (y ∷ ys) is =
    rw (remove-unlink e m, append_assoc)
      (Chain-unlink m e plist.head y xs (ys ++ plist.tail ∷ []) (rw append_assoc at is))

-- `list_pop` returns the first node of a list and takes it out.
pub list_pop_lem :
    (m : Memory) (plist : Plist) (e : Addr) (xs : List Addr)
    → IsList m plist (e ∷ xs)
    → ((list_pop plist m).0 ≡ e) × IsList (list_pop plist m).1 plist xs
unfolding list_pop
list_pop_lem m plist e xs is = (
  is.0,
  subst (λ c. IsList (list_remove c m) plist xs) (sym is.0) (list_remove_lem m plist e [] xs is),
)

-- `list_init` makes an empty list of two ends.
pub list_init_lem :
    (m : Memory) (plist : Plist) → plist.head ≢ plist.tail → IsList (list_init plist m) plist []
unfolding list_init
list_init_lem m plist ne = (ground arith, ground arith, (ne, tt), tt)

-- Insertion and removal leave the interrupt flag as it was.
pub intr_kept :
    (m : Memory) (c e : Addr)
    → ((list_insert_before c e m).intr ≡ m.intr) × ((list_remove e m).intr ≡ m.intr)
unfolding list_insert_before list_remove
intr_kept m c e = ((section_restores m.intr).1, (section_restores m.intr).1)
