-- ===== src/NodeService/NodeSet.antt =====
-- NSNode and NSNodeSet of Sylar/NodeService/ns_protocol.cc.
use Prim.Native.Nat.{bit_or}
use my_sylar_server.Base.{ℕ, ◌*◌, ◌%◌, ◌^◌, Option, none, some, List, [], map, length}
use my_sylar_server.Base.OrderedMap.{map_find, map_insert, map_erase}

-- `NSNode`; `ip` is a string of bytes.
pub record NsNode : Type 0 where
  pub id : ℕ
  pub ip : List ℕ
  pub port : ℕ
  pub weight : ℕ

-- `inet_addr` is a function of the C library: the address as a number of 32 bits.
module _ (inet_addr : List ℕ → ℕ) where
  unfoldable pub get_id : List ℕ → ℕ → ℕ
  get_id ip port = bit_or (inet_addr ip * 2 ^ 32 % 2 ^ 64) port

  unfoldable pub ns_node : List ℕ → ℕ → ℕ → NsNode
  ns_node ip port weight = record { id = get_id ip port; ip = ip; port = port; weight = weight }

-- `NSNodeSet`
pub record NsNodeSet : Type 0 where
  pub cmd : ℕ
  pub datas : List (ℕ × NsNode)

abbrev pub ns_node_set : ℕ → NsNodeSet
ns_node_set cmd = record { cmd = cmd; datas = [] }

unfoldable pub size : NsNodeSet → ℕ
size s = length s.datas

unfoldable pub add : NsNode → NsNodeSet → NsNodeSet
add info s = record s { datas = map_insert info.id info s.datas }

-- The node that was there, if one was.
unfoldable pub del : ℕ → NsNodeSet → NsNodeSet × Option NsNode
del id s = elim (map_find id s.datas) [
  | none ↦ (s, none)
  | some rt ↦ (record s { datas = map_erase id s.datas }, some rt)
]

unfoldable pub get : ℕ → NsNodeSet → Option NsNode
get id s = map_find id s.datas

unfoldable pub list_all : NsNodeSet → List NsNode
list_all s = map (λ i. i.1) s.datas
