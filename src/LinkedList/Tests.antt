-- ===== src/LinkedList/Tests.antt =====
-- Runs of the list operations, and the theorems at a concrete memory.
use os_zhenxiang.Prelude.{◌≡◌, refl, true, false, some, [], ◌∷◌, arith, ◌==◌, if◌then◌else◌}
use os_zhenxiang.Interrupt.{intr_on}
use os_zhenxiang.LinkedList.{
  Memory, Plist, list_init, list_insert_before, list_push, list_append, list_remove, list_pop,
  elem_find, list_traversal, list_len, find_from, traverse_from, len_from, list_empty,
}
use os_zhenxiang.LinkedList.Chain.{IsList, Chain}
use os_zhenxiang.LinkedList.Update.{
  list_insert_before_lem, list_append_lem, list_push_lem, list_remove_lem, list_pop_lem,
  list_init_lem, intr_kept,
}
use os_zhenxiang.LinkedList.Walk.{
  first_match, list_empty-length, list_len-length, list_traversal-first_match,
}

abbrev plist : Plist
plist = record { head = 1; tail = 2 }

abbrev blank : Memory
blank = record { prev = λ _. 0; next = λ _. 0; intr = intr_on }

-- the nodes 5 and 6
abbrev two : Memory
two = record {
  prev = λ a. if a == 2 then 6 else if a == 6 then 5 else if a == 5 then 1 else 0;
  next = λ a. if a == 1 then 5 else if a == 5 then 6 else if a == 6 then 2 else 0;
  intr = intr_on;
}

two-IsList : IsList two plist (5 ∷ 6 ∷ [])
two-IsList = omega arith

runs :
    let m = list_push plist 4 (list_append plist 6 (list_append plist 5 (list_init plist blank))) in
    ((list_pop plist m).0 ≡ 4)
    × (list_len 9 plist m ≡ some 3)
    × (elem_find 9 plist 6 m ≡ some true)
    × (elem_find 9 plist 6 (list_remove 6 m) ≡ some false)
    × (list_traversal 9 plist (λ e arg. e == arg) 5 m ≡ some 5)
    × (list_traversal 9 plist (λ e arg. e == arg) 9 m ≡ some 0)
unfolding list_init list_push list_append list_insert_before list_pop list_remove list_len len_from
    elem_find find_from list_traversal traverse_from list_empty
runs = (refl, refl, refl, refl, refl, refl)

list_init_lem_example : IsList (list_init plist blank) plist []
list_init_lem_example = list_init_lem blank plist (omega arith)

list_insert_before_lem_example : Chain (list_insert_before 6 7 two) 1 (5 ∷ 7 ∷ 6 ∷ 2 ∷ [])
list_insert_before_lem_example =
    list_insert_before_lem two plist 6 7 (5 ∷ []) (2 ∷ []) two-IsList (omega arith)

list_append_lem_example : IsList (list_append plist 7 two) plist (5 ∷ 6 ∷ 7 ∷ [])
list_append_lem_example = list_append_lem two plist 7 (5 ∷ 6 ∷ []) two-IsList (omega arith)

list_push_lem_example : IsList (list_push plist 7 two) plist (7 ∷ 5 ∷ 6 ∷ [])
list_push_lem_example = list_push_lem two plist 7 (5 ∷ 6 ∷ []) two-IsList (omega arith)

list_remove_lem_example : IsList (list_remove 5 two) plist (6 ∷ [])
list_remove_lem_example = list_remove_lem two plist 5 [] (6 ∷ []) two-IsList

list_pop_lem_example : ((list_pop plist two).0 ≡ 5) × IsList (list_pop plist two).1 plist (6 ∷ [])
list_pop_lem_example = list_pop_lem two plist 5 (6 ∷ []) two-IsList

intr_kept_example :
    ((list_insert_before 6 7 two).intr ≡ intr_on) × ((list_remove 7 two).intr ≡ intr_on)
intr_kept_example = intr_kept two 6 7

list_empty-length_example : list_empty plist two ≡ false
list_empty-length_example = list_empty-length two plist (5 ∷ 6 ∷ []) two-IsList

list_len-length_example : list_len 3 plist two ≡ some 2
list_len-length_example =
    list_len-length two plist 3 (5 ∷ 6 ∷ []) two-IsList (omega arith) (omega arith)

list_traversal-first_match_example : list_traversal 3 plist (λ e arg. e == arg) 6 two ≡ some 6
unfolding first_match
list_traversal-first_match_example =
    list_traversal-first_match two plist 3 6 (λ e arg. e == arg) (5 ∷ 6 ∷ []) two-IsList
      (omega arith)
