-- ===== src/LinkedList.antt =====
-- list.c: the singly linked lists of untyped pointers. A list is the sequence of its `data`
-- pointers, which are compared as addresses.
pub mod Laws
use opennap.Base.{ℕ, ◌+◌, Bool, List, [], ◌∷◌, ◌==◌, if◌then◌else◌, Option, none, some}

unfoldable pub list_new : Bool → ℕ → List ℕ
list_new alloc_ok p = if alloc_ok then p ∷ [] else []

-- The first node with the pointer is unlinked.
unfoldable pub list_delete : List ℕ → ℕ → List ℕ
list_delete [] datum = []
list_delete (p ∷ list) datum = if p == datum then list else p ∷ list_delete list datum

unfoldable pub list_append : List ℕ → List ℕ → List ℕ
list_append [] b = b
list_append (p ∷ l) b = p ∷ list_append l b

unfoldable pub list_append_data : Bool → List ℕ → ℕ → List ℕ
unfolding list_new list_append
list_append_data alloc_ok l d = list_append l (list_new alloc_ok d)

-- The calls of the callback, which may be null.
unfoldable pub list_free : List ℕ → Bool → List ℕ
list_free [] cb = []
list_free (p ∷ l) cb = if cb then p ∷ list_free l cb else list_free l cb

unfoldable pub list_count_from : ℕ → List ℕ → ℕ
list_count_from count [] = count
list_count_from count (p ∷ list) = list_count_from (count + 1) list

unfoldable pub list_count : List ℕ → ℕ
unfolding list_count_from
list_count list = list_count_from 0 list

-- The rest of the list from the first node with the pointer, or null.
unfoldable pub list_find : List ℕ → ℕ → List ℕ
list_find [] datum = []
list_find (p ∷ list) datum = if p == datum then p ∷ list else list_find list datum
