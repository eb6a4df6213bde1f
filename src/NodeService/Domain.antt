-- ===== src/NodeService/Domain.antt =====
-- NSDomain of Sylar/NodeService/ns_protocol.cc. Child modules: `Valid` (the invariant), `Laws` (what `add` and
-- `del` do to the nodes of a domain).
pub mod Valid
pub mod Laws
mod Tests
use my_sylar_server.Base.{ℕ, ◌==◌, Option, none, some, List, map, length, if◌then◌else◌}
use my_sylar_server.Base.OrderedMap.{map_find, map_insert, map_erase}
use my_sylar_server.NodeService.NodeSet.{NsNode, NsNodeSet, ns_node_set}
use my_sylar_server.NodeService.NodeSet as NodeSet

-- `NSDomain`
pub record NsDomain : Type 0 where
  pub domain : List ℕ
  pub datas : List (ℕ × NsNodeSet)

-- `get(cmd)`
unfoldable pub get_set : ℕ → NsDomain → Option NsNodeSet
get_set cmd d = map_find cmd d.datas

-- `add(info)` of a whole node set
unfoldable pub add_set : NsNodeSet → NsDomain → NsDomain
add_set info d = record d { datas = map_insert info.cmd info d.datas }

-- `add(cmd, info)`: a missing set is made and put in first, and then the node goes into the set.
unfoldable pub add_node : ℕ → NsNode → NsDomain → NsDomain
unfolding get_set add_set
add_node cmd info d = elim (get_set cmd d) [
  | some ns ↦ record d { datas = map_insert cmd (NodeSet.add info ns) d.datas }
  | none ↦
      let d' = add_set (ns_node_set cmd) d in
      record d' { datas = map_insert cmd (NodeSet.add info (ns_node_set cmd)) d'.datas }
]

-- `del(cmd)`
unfoldable pub del_set : ℕ → NsDomain → NsDomain
del_set cmd d = record d { datas = map_erase cmd d.datas }

-- `del(cmd, id)`: a set that is left without nodes goes too.
unfoldable pub del_node : ℕ → ℕ → NsDomain → NsDomain × Option NsNode
unfolding get_set del_set
del_node cmd id d = elim (get_set cmd d) [
  | none ↦ (d, none)
  | some ns ↦
      let (ns', info) = NodeSet.del id ns in
      let d' : NsDomain = record d { datas = map_insert cmd ns' d.datas } in
      (if NodeSet.size ns' == 0 then del_set cmd d' else d', info)
]

unfoldable pub list_sets : NsDomain → List NsNodeSet
list_sets d = map (λ i. i.1) d.datas

unfoldable pub count_sets : NsDomain → ℕ
count_sets d = length d.datas

-- The node of an id under a command.
unfoldable pub lookup : ℕ → ℕ → NsDomain → Option NsNode
unfolding get_set
lookup cmd id d = elim (get_set cmd d) [ none ↦ none | some ns ↦ NodeSet.get id ns ]
