-- ===== src/LinkedList.antt =====
-- lib/kernel/list.c and list.h: the doubly linked lists that the queues of the kernel are made of.
-- An address is a number; the nodes and the ends of all lists stand in one memory, so the model
-- keeps who points to whom. The walks take fuel, and `none` means that it ran out.
pub mod Chain
pub mod Update
pub mod Walk
mod Tests
use os_zhenxiang.Prelude.{
  ℕ, zero, suc, ◌+◌, ◌%◌, ◌^◌, Bool, true, false, Option, none, some, ◌==◌, if◌then◌else◌, u32,
  update,
}
use os_zhenxiang.Interrupt.{IntrStatus, intr_disable, intr_set_status}

abbrev pub Addr : Type 0
Addr = ℕ

abbrev pub null : Addr
null = 0

-- The fields of every `struct list_elem`, and the interrupt flag.
pub record Memory : Type 0 where
  pub prev : Addr → Addr
  pub next : Addr → Addr
  pub intr : IntrStatus

-- `struct list`: the addresses of its two ends.
pub record Plist : Type 0 where
  pub head : Addr
  pub tail : Addr

abbrev pub set_next : Addr → Addr → Memory → Memory
set_next p q m = record m { next = update m.next p q }

abbrev pub set_prev : Addr → Addr → Memory → Memory
set_prev p q m = record m { prev = update m.prev p q }

abbrev disable : Memory → Memory
disable m = record m { intr = (intr_disable m.intr).0 }

abbrev restore : IntrStatus → Memory → Memory
restore old m = record m { intr = (intr_set_status old m.intr).0 }

pub list_init : Plist → Memory → Memory
list_init plist m =
    let m = set_prev plist.head null m in
    let m = set_next plist.head plist.tail m in
    let m = set_prev plist.tail plist.head m in set_next plist.tail null m

pub list_insert_before : (before elem : Addr) → Memory → Memory
list_insert_before before elem m =
    let old_status = (intr_disable m.intr).1 in
    let m = disable m in
    let m = set_next (m.prev before) elem m in
    let m = set_prev elem (m.prev before) m in
    let m = set_next elem before m in let m = set_prev before elem m in restore old_status m

pub list_push : Plist → Addr → Memory → Memory
list_push plist elem m = list_insert_before (m.next plist.head) elem m

pub list_append : Plist → Addr → Memory → Memory
list_append plist elem m = list_insert_before plist.tail elem m

pub list_remove : Addr → Memory → Memory
list_remove pelem m =
    let old_status = (intr_disable m.intr).1 in
    let m = disable m in
    let m = set_next (m.prev pelem) (m.next pelem) m in
    let m = set_prev (m.next pelem) (m.prev pelem) m in restore old_status m

pub list_pop : Plist → Memory → Addr × Memory
list_pop plist m = let elem = m.next plist.head in (elem, list_remove elem m)

-- `while (elem != &plist->tail)` of `elem_find`
pub find_from : ℕ → Plist → (obj_elem elem : Addr) → Memory → Option Bool
find_from zero plist obj_elem elem m = none
find_from (suc fuel) plist obj_elem elem m =
    let rest = find_from fuel plist obj_elem (m.next elem) m in
    if elem == plist.tail then some false else if elem == obj_elem then some true else rest

pub elem_find : ℕ → Plist → Addr → Memory → Option Bool
elem_find fuel plist obj_elem m = find_from fuel plist obj_elem (m.next plist.head) m

unfoldable pub list_empty : Plist → Memory → Bool
list_empty plist m = m.next plist.head == plist.tail

-- The loop of `list_traversal`; `func` is the callback with its `arg` given.
pub traverse_from : ℕ → Plist → (Addr → Bool) → Addr → Memory → Option Addr
traverse_from zero plist func elem m = none
traverse_from (suc fuel) plist func elem m =
    let rest = traverse_from fuel plist func (m.next elem) m in
    if elem == plist.tail then some null else if func elem then some elem else rest

pub list_traversal : ℕ → Plist → (Addr → ℕ → Bool) → ℕ → Memory → Option Addr
list_traversal fuel plist func arg m =
    if list_empty plist m
    then some null
    else traverse_from fuel plist (λ elem. func elem arg) (m.next plist.head) m

pub len_from : ℕ → Plist → Addr → (len : ℕ) → Memory → Option ℕ
len_from zero plist elem len m = none
len_from (suc fuel) plist elem len m =
    let rest = len_from fuel plist (m.next elem) (u32 (len + 1)) m in
    if elem == plist.tail then some len else rest

pub list_len : ℕ → Plist → Memory → Option ℕ
list_len fuel plist m = len_from fuel plist (m.next plist.head) 0 m
