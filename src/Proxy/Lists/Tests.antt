-- ===== src/Proxy/Lists/Tests.antt =====
-- The theorems on the lists of proxylab_code/util.c at a list with one node.
use csapp_lab_code.Base.{◌≡◌, refl, [], ◌∷◌}
use csapp_lab_code.Proxy.Lists.{Nodes, list_init, list_insert, list_remove}
use csapp_lab_code.Proxy.Lists.Ring.{IsRing, elements, list_init-IsRing}
use csapp_lab_code.Proxy.Lists.Insert.{list_insert-IsRing}
use csapp_lab_code.Proxy.Lists.Remove.{list_remove-IsRing}

abbrev no_nodes : Nodes
no_nodes = record { p_elem = λ p. 0; p_prev = λ p. 0; p_next = λ p. 0; freed = [] }

one_node : Nodes
unfolding list_init list_insert
one_node = list_insert 8 4 70 (list_init 4 no_nodes)

one_node-IsRing : IsRing one_node 4 (8 ∷ [])
unfolding one_node
one_node-IsRing =
    (list_insert-IsRing (list_init 4 no_nodes) 4 8 70 [] (list_init-IsRing no_nodes 4) (refl, tt)).0

list_insert-IsRing_example :
    IsRing (list_insert 12 4 90 one_node) 4 (12 ∷ 8 ∷ [])
    × (elements (list_insert 12 4 90 one_node) (12 ∷ 8 ∷ []) ≡ 90 ∷ elements one_node (8 ∷ []))
list_insert-IsRing_example =
    list_insert-IsRing one_node 4 12 90 (8 ∷ []) one_node-IsRing (refl, (refl, tt))

list_remove-IsRing_example :
    IsRing (list_remove 8 one_node) 4 []
    × (elements (list_remove 8 one_node) [] ≡ [])
    × ((list_remove 8 one_node).freed ≡ 8 ∷ one_node.freed)
list_remove-IsRing_example = list_remove-IsRing one_node 4 8 [] [] one_node-IsRing
