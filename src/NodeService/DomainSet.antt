-- ===== src/NodeService/DomainSet.antt =====
-- NSDomainSet of Sylar/NodeService/ns_protocol.cc, over names of domains of any type. The map is an association
-- list; `listAll` walks it in the order of its entries, which in C++ is that of the names. Child module:
-- `Laws`.
pub mod Laws
mod Tests
use my_sylar_server.Base.{ℕ, Option, none, some, List, [], ◌∷◌, map, Bool, if◌then◌else◌}
use my_sylar_server.Base.Dict.{dict_find, dict_set, dict_erase}
use my_sylar_server.NodeService.NodeSet as NodeSet
use my_sylar_server.NodeService.Domain.{NsDomain, get_set}
use my_sylar_server.Base.OrderedMap.{map_insert}

-- `NSDomainSet`; `name_of` is `getDomain`, and `NSDomain(domain)` is a domain without node sets.
pub record NsDomainSet (P : Type 0) : Type 0 where
  pub datas : List (P × NsDomain)

module _ {P : Type 0} (dec : Discrete P) where
  unfoldable pub add_domain : (NsDomain → P) → NsDomain → NsDomainSet P → NsDomainSet P
  add_domain name_of info s = record s { datas = dict_set dec (name_of info) info s.datas }

  unfoldable pub del_domain : P → NsDomainSet P → NsDomainSet P
  del_domain domain s = record s { datas = dict_erase dec domain s.datas }

  -- `get`: the domain, and the object behind the call.
  unfoldable pub get_domain :
      (P → NsDomain) → P → Bool → NsDomainSet P → Option NsDomain × NsDomainSet P
  get_domain new_domain domain auto_create s = elim (dict_find dec domain s.datas) [
    | some d ↦ (some d, s)
    | none ↦
        if auto_create
        then (
          some (new_domain domain),
          record s { datas = dict_set dec domain (new_domain domain) s.datas },
        )
        else (none, s)
  ]

  -- `del(domain, cmd, id)`: the node goes from its set; the set and the domain stay.
  unfoldable pub del_in_domain : P → ℕ → ℕ → NsDomainSet P → NsDomainSet P
  unfolding get_set
  del_in_domain domain cmd id s = elim (dict_find dec domain s.datas) [
    | none ↦ s
    | some d ↦ elim (get_set cmd d) [
      | none ↦ s
      | some ns ↦ record s {
        datas =
            dict_set dec domain (record d { datas = map_insert cmd (NodeSet.del id ns).0 d.datas })
              s.datas;
      }
    ]
  ]

unfoldable pub list_domains : {P : Type 0} → NsDomainSet P → List NsDomain
list_domains s = map (λ i. i.1) s.datas

-- `swap` of two objects
unfoldable pub swap : {P : Type 0} → NsDomainSet P → NsDomainSet P → NsDomainSet P × NsDomainSet P
swap s t = (record s { datas = t.datas }, record t { datas = s.datas })
