-- ===== src/NodeService/DomainSet/Tests.antt =====
-- The theorem about NSDomainSet (Sylar/NodeService/ns_protocol.cc) at a concrete input: the domains are named 1 and 2.
use my_sylar_server.Base.{ℕ, ℕ_discrete, ◌≡◌, refl, subst, inl, none, some, [], ◌∷◌, arith}
use my_sylar_server.Base.Dict.{dict_find, dict_set}
use my_sylar_server.Base.OrderedMap.{map_find, map_insert, map_erase, Rising}
use my_sylar_server.NodeService.NodeSet.{NsNode, NsNodeSet}
use my_sylar_server.NodeService.NodeSet as NodeSet
use my_sylar_server.NodeService.Domain.{NsDomain, get_set}
use my_sylar_server.NodeService.DomainSet.{NsDomainSet, del_in_domain}
use my_sylar_server.NodeService.DomainSet.Laws.{set_of, node_of, has_set, del_in_domain_lem}

abbrev last_node : NsNodeSet
last_node = record {
  cmd = 5;
  datas = (1, record { id = 1; ip = 49 ∷ []; port = 80; weight = 1 }) ∷ [];
}

abbrev one_command : NsDomain
one_command = record { domain = 1 ∷ []; datas = (5, last_node) ∷ [] }

abbrev domains : NsDomainSet ℕ
domains = record { datas = (1, one_command) ∷ (2, one_command) ∷ [] }

rises : (ns : NsNodeSet) → set_of ℕ_discrete 1 5 domains ≡ some ns → Rising ns.datas
unfolding dict_find ℕ_discrete get_set map_find
rises ns h =
    let same : last_node ≡ ns = cc in subst (λ (t : NsNodeSet). Rising t.datas) same (tt, tt)

del_in_domain_lem_example :
    (node_of ℕ_discrete 1 5 1 (del_in_domain ℕ_discrete 1 5 1 domains) ≡ none)
    × (node_of ℕ_discrete 2 5 1 (del_in_domain ℕ_discrete 1 5 1 domains)
        ≡ node_of ℕ_discrete 2 5 1 domains)
    × (has_set ℕ_discrete 1 5 (del_in_domain ℕ_discrete 1 5 1 domains)
        ≡ has_set ℕ_discrete 1 5 domains)
del_in_domain_lem_example =
    del_in_domain_lem ℕ_discrete 1 2 5 1 5 1 domains rises (inl (omega arith))

-- The set of the last node is left empty.
del_in_domain-empty :
    set_of ℕ_discrete 1 5 (del_in_domain ℕ_discrete 1 5 1 domains)
    ≡ some (record { cmd = 5; datas = [] })
unfolding dict_find ℕ_discrete get_set map_find del_in_domain NodeSet.del dict_set map_insert
    map_erase
del_in_domain-empty = refl
