-- ===== src/NodeService/Domain/Tests.antt =====
-- The theorems about NSDomain (Sylar/NodeService/ns_protocol.cc) at concrete inputs.
use my_sylar_server.Base.{ℕ, ◌≡◌, inl, inr, some, none, [], ◌∷◌, arith}
use my_sylar_server.NodeService.NodeSet.{NsNode}
use my_sylar_server.NodeService.Domain.{NsDomain, add_node, del_node, lookup}
use my_sylar_server.NodeService.Domain.Valid.{IsValid}
use my_sylar_server.NodeService.Domain.Laws.{add_node_lem, del_node_lem}

abbrev node : ℕ → NsNode
node id = record { id = id; ip = 49 ∷ []; port = 80; weight = 1 }

-- Command 5 is served by the nodes 1 and 2, command 9 by node 3.
abbrev served : NsDomain
served = record {
  domain = [];
  datas =
      (5, record { cmd = 5; datas = (1, node 1) ∷ (2, node 2) ∷ [] })
      ∷ (9, record { cmd = 9; datas = (3, node 3) ∷ [] })
      ∷ [];
}

served-IsValid : IsValid served
served-IsValid = record {
  sets_rise = ((omega arith, tt), (tt, tt));
  good = (
    record { rising = ((omega arith, tt), (tt, tt)); some_node = omega arith },
    (record { rising = (tt, tt); some_node = omega arith }, tt),
  );
}

add_node_lem_example :
    (lookup 5 4 (add_node 5 (node 4) served) ≡ some (node 4))
    × (lookup 5 2 (add_node 5 (node 4) served) ≡ lookup 5 2 served)
    × IsValid (add_node 5 (node 4) served)
add_node_lem_example = add_node_lem 5 5 2 (node 4) served served-IsValid (inr (omega arith))

del_node_lem_example :
    ((del_node 9 3 served).1 ≡ lookup 9 3 served)
    × (lookup 9 3 (del_node 9 3 served).0 ≡ none)
    × (lookup 5 2 (del_node 9 3 served).0 ≡ lookup 5 2 served)
    × IsValid (del_node 9 3 served).0
del_node_lem_example = del_node_lem 9 3 5 2 served served-IsValid (inl (omega arith))
