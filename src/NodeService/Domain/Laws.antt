-- ===== src/NodeService/Domain/Laws.antt =====
-- What the methods of NSDomain (Sylar/NodeService/ns_protocol.cc) do to the nodes of a domain, seen as one map
-- from a command and an id to a node.
use my_sylar_server.Base.{
  ℕ, suc, ◌==◌, ◌≡◌, ◌≢◌, ◌⊎◌, inl, inr, refl, sym, ap, ◌∙◌, subst, Option, none, some, List, [],
  ◌∷◌, length, arith, ℕ_discrete, ==_iff, Option-cases, true, Bool-cases,
}
use my_sylar_server.Base.OrderedMap.{
  map_find, map_insert, map_erase, Rising, find-insert_self, find-insert_ne, find-erase_self,
  find-erase_ne, insert-Rising, erase-Rising, erase_absent, erase-insert, insert-insert,
}
use my_sylar_server.NodeService.NodeSet.{NsNode, NsNodeSet, ns_node_set}
use my_sylar_server.NodeService.NodeSet as NodeSet
use my_sylar_server.NodeService.Domain.{
  NsDomain, get_set, add_set, add_node, del_set, del_node, lookup,
}
use my_sylar_server.NodeService.Domain.Valid.{
  IsValid, insert-AllGood, erase-AllGood, find-IsGood, length-insert,
}

module _ (d : NsDomain) where
  lookup_found :
      (c i : ℕ) (s : NsNodeSet) → map_find c d.datas ≡ some s → lookup c i d ≡ map_find i s.datas
  unfolding lookup get_set NodeSet.get
  lookup_found c i s h = rw (lookup, h)

  lookup_absent : (c i : ℕ) → map_find c d.datas ≡ none → lookup c i d ≡ none
  unfolding lookup get_set
  lookup_absent c i h = rw (lookup, h)

-- Two domains that agree on a command agree on its nodes.
lookup_agree :
    (c i : ℕ) (d e : NsDomain)
    → map_find c d.datas ≡ map_find c e.datas
    → lookup c i d ≡ lookup c i e
unfolding lookup get_set
lookup_agree c i d e h = rw (lookup, h)

-- The nodes under `cmd` before a change of its set, as a map.
abbrev nodes_of : ℕ → NsDomain → List (ℕ × NsNode)
nodes_of cmd d = elim (map_find cmd d.datas) [ none ↦ [] | some s ↦ s.datas ]

lookup-nodes_of : (cmd i : ℕ) (d : NsDomain) → lookup cmd i d ≡ map_find i (nodes_of cmd d)
unfolding map_find
lookup-nodes_of cmd i d = elim (Option-cases (map_find cmd d.datas)) [
  | inl h ↦ lookup_absent d cmd i h ∙ sym (rw (nodes_of, h))
  | inr (s, h) ↦ lookup_found d cmd i s h ∙ sym (rw (nodes_of, h))
]

-- After `add_node` the set of `cmd` holds the node beside what it held, and the other sets stay.
record Added (cmd : ℕ) (info : NsNode) (d e : NsDomain) : Type 0 where
  set : NsNodeSet
  there : map_find cmd e.datas ≡ some set
  nodes : set.datas ≡ map_insert info.id info (nodes_of cmd d)
  others : (c : ℕ) → c ≢ cmd → map_find c e.datas ≡ map_find c d.datas

add_node-Added : (cmd : ℕ) (info : NsNode) (d : NsDomain) → Added cmd info d (add_node cmd info d)
unfolding add_node get_set add_set NodeSet.add
add_node-Added cmd info d = elim (Option-cases (map_find cmd d.datas)) [
  | inr (s, h) ↦ record {
    set = NodeSet.add info s;
    there = rw (add_node, h) (find-insert_self cmd (NodeSet.add info s) d.datas);
    nodes = rw (add_node, nodes_of, h);
    others = λ c other. rw (add_node, h) (find-insert_ne c cmd (NodeSet.add info s) d.datas other);
  }
  | inl h ↦
      let new : NsNodeSet = NodeSet.add info (ns_node_set cmd) in
      record {
        set = new;
        there =
            rw (add_node, h) (find-insert_self cmd new (map_insert cmd (ns_node_set cmd) d.datas));
        nodes = rw (add_node, nodes_of, h);
        others = λ c other.
            rw (add_node, h)
              (find-insert_ne c cmd new (map_insert cmd (ns_node_set cmd) d.datas) other
                ∙ find-insert_ne c cmd (ns_node_set cmd) d.datas other);
      }
]

-- `del` of a node set, as one change of its map.
pub set_del_lem :
    (id : ℕ) (s : NsNodeSet)
    → NodeSet.del id s ≡ (record s { datas = map_erase id s.datas }, map_find id s.datas)
unfolding NodeSet.del
set_del_lem id s = elim (Option-cases (map_find id s.datas)) [
  | inl h ↦ rw (NodeSet.del, h, erase_absent id s.datas h)
  | inr (info, h) ↦ rw (NodeSet.del, h)
]

no_nodes {ℓ} :
    {V : Type ℓ} (m : List (ℕ × V)) (q : ℕ) → (length m == 0) ≡ true → map_find q m ≡ none
unfolding map_find
no_nodes [] q h = refl
no_nodes (x ∷ m) q h = absurd (omega (arith, (==_iff (suc (length m)) 0).0 h))

-- After `del_node` the nodes under `cmd` are those that were there but for `id`, the other sets stay,
-- and the domain is valid.
record Removed (cmd id : ℕ) (d : NsDomain) (r : NsDomain × Option NsNode) : Type 0 where
  gave : r.1 ≡ lookup cmd id d
  nodes : (q : ℕ) → lookup cmd q r.0 ≡ map_find q (map_erase id (nodes_of cmd d))
  others : (c : ℕ) → c ≢ cmd → map_find c r.0.datas ≡ map_find c d.datas
  valid : IsValid r.0

del_node-Removed : (cmd id : ℕ) (d : NsDomain) → IsValid d → Removed cmd id d (del_node cmd id d)
unfolding del_node get_set del_set NodeSet.size map_find map_erase
del_node-Removed cmd id d v = elim (Option-cases (map_find cmd d.datas)) [
  | inl h ↦
      rw (del_node, h)
        (record {
          gave = sym (lookup_absent d cmd id h);
          nodes = λ q. lookup_absent d cmd q h ∙ sym (rw (nodes_of, h));
          others = λ c other. refl;
          valid = v;
        })
  | inr (s, h) ↦
      let s' : NsNodeSet = record s { datas = map_erase id s.datas } in
      let before : nodes_of cmd d ≡ s.datas = rw (nodes_of, h) in
      let same : (q : ℕ)
          → map_find q (map_erase id s.datas) ≡ map_find q (map_erase id (nodes_of cmd d)) =
        λ q. ap (λ (m : List (ℕ × NsNode)). map_find q (map_erase id m)) (sym before) in
      let good = find-IsGood cmd s d.datas v.good h in
      elim (Bool-cases (length (map_erase id s.datas) == 0)) [
        | inl empty ↦
            rw (del_node, h, set_del_lem id s, empty)
              (record {
                gave = sym (lookup_found d cmd id s h);
                nodes = λ q.
                    lookup_absent _ cmd q (
                      find-erase_self cmd (map_insert cmd s' d.datas)
                        (insert-Rising cmd s' d.datas v.sets_rise))
                    ∙ sym (no_nodes (map_erase id s.datas) q empty)
                    ∙ same q;
                others = λ c other.
                    find-erase_ne c cmd (map_insert cmd s' d.datas) other
                    ∙ find-insert_ne c cmd s' d.datas other;
                valid = rw (erase-insert cmd s' d.datas v.sets_rise) (record {
                  sets_rise = erase-Rising cmd d.datas v.sets_rise;
                  good = erase-AllGood cmd d.datas v.good;
                });
              })
        | inr left ↦
            rw (del_node, h, set_del_lem id s, left)
              (record {
                gave = sym (lookup_found d cmd id s h);
                nodes = λ q. lookup_found _ cmd q s' (find-insert_self cmd s' d.datas) ∙ same q;
                others = λ c other. find-insert_ne c cmd s' d.datas other;
                valid = record {
                  sets_rise = insert-Rising cmd s' d.datas v.sets_rise;
                  good =
                      insert-AllGood cmd s' d.datas
                        (record {
                          rising = erase-Rising id s.datas good.rising;
                          some_node = ground (arith, left);
                        })
                        v.good;
                };
              })
      ]
]

nodes_of-Rising : (cmd : ℕ) (d : NsDomain) → IsValid d → Rising (nodes_of cmd d)
nodes_of-Rising cmd d v = elim (Option-cases (map_find cmd d.datas)) [
  | inl h ↦ rw (nodes_of, h) tt
  | inr (s, h) ↦ rw (nodes_of, h) ((find-IsGood cmd s d.datas v.good h).rising)
]

-- `del` of a node of a valid domain: it returns the node that was there, the node is gone, every
-- other node stays as it was, and no node set is left empty.
pub del_node_lem :
    (cmd id c i : ℕ) (d : NsDomain)
    → IsValid d
    → (c ≢ cmd) ⊎ (i ≢ id)
    → ((del_node cmd id d).1 ≡ lookup cmd id d)
      × (lookup cmd id (del_node cmd id d).0 ≡ none)
      × (lookup c i (del_node cmd id d).0 ≡ lookup c i d)
      × IsValid (del_node cmd id d).0
del_node_lem cmd id c i d v other =
    let r = del_node-Removed cmd id d v in
    let e : NsDomain = (del_node cmd id d).0 in
    (
      r.gave,
      r.nodes id ∙ find-erase_self id (nodes_of cmd d) (nodes_of-Rising cmd d v),
      elim (ℕ_discrete c cmd) [
        | no p ↦ lookup_agree c i e d (r.others c p)
        | yes p ↦
            let ne : i ≢ id = elim other [ inl q ↦ absurd (q p) | inr q ↦ q ] in
            subst (λ (t : ℕ). lookup t i e ≡ lookup t i d) (sym p)
              (r.nodes i ∙ find-erase_ne i id (nodes_of cmd d) ne ∙ sym (lookup-nodes_of cmd i d))
      ],
      r.valid,
    )

-- `add` of a node keeps a domain valid.
add_node-IsValid :
    (cmd : ℕ) (info : NsNode) (d : NsDomain) → IsValid d → IsValid (add_node cmd info d)
unfolding add_node get_set add_set NodeSet.add
add_node-IsValid cmd info d v = elim (Option-cases (map_find cmd d.datas)) [
  | inr (s, h) ↦
      let good = find-IsGood cmd s d.datas v.good h in
      rw (add_node, h)
        (record {
          sets_rise = insert-Rising cmd (NodeSet.add info s) d.datas v.sets_rise;
          good =
              insert-AllGood cmd (NodeSet.add info s) d.datas
                (record {
                  rising = insert-Rising info.id info s.datas good.rising;
                  some_node = length-insert info.id info s.datas;
                })
                v.good;
        })
  | inl h ↦
      let new : NsNodeSet = NodeSet.add info (ns_node_set cmd) in
      rw (add_node, h, insert-insert cmd new (ns_node_set cmd) d.datas)
        (record {
          sets_rise = insert-Rising cmd new d.datas v.sets_rise;
          good =
              insert-AllGood cmd new d.datas
                (record {
                  rising = insert-Rising info.id info [] tt;
                  some_node = length-insert info.id info [];
                })
                v.good;
        })
]

-- The node is found under its command and id, and every other node stays as it was.
add_node_nodes :
    (cmd c i : ℕ) (info : NsNode) (d : NsDomain)
    → (c ≢ cmd) ⊎ (i ≢ info.id)
    → (lookup cmd info.id (add_node cmd info d) ≡ some info)
      × (lookup c i (add_node cmd info d) ≡ lookup c i d)
add_node_nodes cmd c i info d other =
    let e : NsDomain = add_node cmd info d in
    let a = add_node-Added cmd info d in
    let at_cmd : (q : ℕ) → lookup cmd q e ≡ map_find q (map_insert info.id info (nodes_of cmd d)) =
      λ q. lookup_found e cmd q a.set a.there ∙ ap (map_find q) a.nodes in
    (
      at_cmd info.id ∙ find-insert_self info.id info (nodes_of cmd d),
      elim (ℕ_discrete c cmd) [
        | no p ↦ lookup_agree c i e d (a.others c p)
        | yes p ↦
            let ne : i ≢ info.id = elim other [ inl q ↦ absurd (q p) | inr q ↦ q ] in
            subst (λ (t : ℕ). lookup t i e ≡ lookup t i d) (sym p)
              (at_cmd i
                ∙ find-insert_ne i info.id info (nodes_of cmd d) ne
                ∙ sym (lookup-nodes_of cmd i d))
      ],
    )

-- `add` of a node to a valid domain: it is found under its command and id, every other node stays as
-- it was, under this and the other commands, and the domain stays valid.
pub add_node_lem :
    (cmd c i : ℕ) (info : NsNode) (d : NsDomain)
    → IsValid d
    → (c ≢ cmd) ⊎ (i ≢ info.id)
    → (lookup cmd info.id (add_node cmd info d) ≡ some info)
      × (lookup c i (add_node cmd info d) ≡ lookup c i d)
      × IsValid (add_node cmd info d)
add_node_lem cmd c i info d v other =
    let (found, kept) = add_node_nodes cmd c i info d other in
    (found, kept, add_node-IsValid cmd info d v)
