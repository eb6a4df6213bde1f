-- ===== src/NodeService/DomainSet/Laws.antt =====
-- What `del(domain, cmd, id)` of NSDomainSet (Sylar/NodeService/ns_protocol.cc) leaves behind.
use my_sylar_server.Base.{
  ℕ, ◌≡◌, ◌≢◌, ◌⊎◌, inl, inr, refl, sym, ap, subst, ◌∙◌, Bool, true, false, Option, none, some,
  Option-cases, ℕ_discrete,
}
use my_sylar_server.Base.Dict.{dict_find, dict_set, dict_find-set_self, dict_find-set_ne}
use my_sylar_server.Base.OrderedMap.{
  map_insert, map_erase, Rising, find-insert_self, find-insert_ne, find-erase_self, find-erase_ne,
}
use my_sylar_server.NodeService.NodeSet.{NsNode, NsNodeSet}
use my_sylar_server.NodeService.NodeSet as NodeSet
use my_sylar_server.NodeService.Domain.{NsDomain, get_set}
use my_sylar_server.NodeService.Domain.Laws.{set_del_lem}
use my_sylar_server.NodeService.DomainSet.{NsDomainSet, del_in_domain}

module _ {P : Type 0} (dec : Discrete P) where
  -- The node set of a command in a domain.
  abbrev pub set_of : P → ℕ → NsDomainSet P → Option NsNodeSet
  set_of domain cmd s = elim (dict_find dec domain s.datas) [ none ↦ none | some d ↦ get_set cmd d ]

  abbrev get_of : ℕ → Option NsNodeSet → Option NsNode
  get_of id none = none
  get_of id (some ns) = NodeSet.get id ns

  -- The node of an id under a command of a domain.
  abbrev pub node_of : P → ℕ → ℕ → NsDomainSet P → Option NsNode
  node_of domain cmd id s = get_of id (set_of domain cmd s)

  abbrev is_there : Option NsNodeSet → Bool
  is_there none = false
  is_there (some ns) = true

  abbrev pub has_set : P → ℕ → NsDomainSet P → Bool
  has_set domain cmd s = is_there (set_of domain cmd s)

  -- A set without a node.
  abbrev less : ℕ → Option NsNodeSet → Option NsNodeSet
  less id none = none
  less id (some ns) = some (record ns { datas = map_erase id ns.datas })

  get_of-less_self :
      (id : ℕ) (o : Option NsNodeSet)
      → ((ns : NsNodeSet) → o ≡ some ns → Rising ns.datas)
      → get_of id (less id o) ≡ none
  unfolding NodeSet.get
  get_of-less_self id none rises = refl
  get_of-less_self id (some ns) rises = find-erase_self id ns.datas (rises ns refl)

  get_of-less_ne : (id i : ℕ) (o : Option NsNodeSet) → i ≢ id → get_of i (less id o) ≡ get_of i o
  unfolding NodeSet.get
  get_of-less_ne id i none ne = refl
  get_of-less_ne id i (some ns) ne = find-erase_ne i id ns.datas ne

  is_there-less : (id : ℕ) (o : Option NsNodeSet) → is_there (less id o) ≡ is_there o
  is_there-less id none = refl
  is_there-less id (some ns) = refl

  -- The set of `cmd` loses the node, and every other set is what it was.
  record Lost (domain : P) (cmd id : ℕ) (s t : NsDomainSet P) : Type 0 where
    here : set_of domain cmd t ≡ less id (set_of domain cmd s)
    others : (p : P) (c : ℕ) → (p ≢ domain) ⊎ (c ≢ cmd) → set_of p c t ≡ set_of p c s

  module _ (domain : P) (cmd id : ℕ) (s : NsDomainSet P) where
    abbrev behind : NsDomainSet P
    behind = del_in_domain dec domain cmd id s

    del_there :
        (d : NsDomain) (ns : NsNodeSet)
        → dict_find dec domain s.datas ≡ some d
        → get_set cmd d ≡ some ns
        → Lost domain cmd id s behind
    unfolding del_in_domain get_set
    del_there d ns h k =
        let ns' : NsNodeSet = record ns { datas = map_erase id ns.datas } in
        let d' : NsDomain = record d { datas = map_insert cmd ns' d.datas } in
        let after : behind ≡ record s { datas = dict_set dec domain d' s.datas } =
          rw (del_in_domain, h, k, set_del_lem id ns) refl in
        let now = dict_find-set_self dec domain d' s.datas in
        record {
          here =
              ap (set_of domain cmd) after
              ∙ rw (set_of, now, h, k) (find-insert_self cmd ns' d.datas);
          others = λ p c other. ap (set_of p c) after ∙ elim (dec p domain) [
            | no ne ↦ rw (set_of, dict_find-set_ne dec p domain d' s.datas ne) refl
            | yes e ↦
                let ne : c ≢ cmd = elim other [ inl q ↦ absurd (q e) | inr q ↦ q ] in
                subst
                  (λ (x : P).
                    set_of x c (record s { datas = dict_set dec domain d' s.datas }) ≡ set_of x c s)
                  (sym e) (rw (set_of, now, h) (find-insert_ne c cmd ns' d.datas ne))
          ];
        }

    del_in_domain-Lost : Lost domain cmd id s behind
    unfolding del_in_domain get_set
    del_in_domain-Lost = elim (Option-cases (dict_find dec domain s.datas)) [
      | inl h ↦
          let after : behind ≡ s = rw (del_in_domain, h) refl in
          record {
            here = ap (set_of domain cmd) after ∙ rw (set_of, h) refl;
            others = λ p c other. ap (set_of p c) after;
          }
      | inr (d, h) ↦ elim (Option-cases (get_set cmd d)) [
        | inr (ns, k) ↦ del_there d ns h k
        | inl k ↦
            let after : behind ≡ s = rw (del_in_domain, h, k) refl in
            record {
              here = ap (set_of domain cmd) after ∙ rw (set_of, h, k) refl;
              others = λ p c other. ap (set_of p c) after;
            }
      ]
    ]

  -- After `del(domain, cmd, id)` the node is not there, every other node of this and of the other sets and
  -- domains is what it was, and no set goes, even if it is left empty. The set's map rises in its ids.
  pub del_in_domain_lem :
      (domain p : P) (cmd id c i : ℕ) (s : NsDomainSet P)
      → ((ns : NsNodeSet) → set_of domain cmd s ≡ some ns → Rising ns.datas)
      → (p ≢ domain) ⊎ ((c ≢ cmd) ⊎ (i ≢ id))
      → (node_of domain cmd id (del_in_domain dec domain cmd id s) ≡ none)
        × (node_of p c i (del_in_domain dec domain cmd id s) ≡ node_of p c i s)
        × (has_set domain cmd (del_in_domain dec domain cmd id s) ≡ has_set domain cmd s)
  del_in_domain_lem domain p cmd id c i s rises other =
      let t = del_in_domain dec domain cmd id s in
      let r = del_in_domain-Lost domain cmd id s in
      let elsewhere : (p ≢ domain) ⊎ (c ≢ cmd) → node_of p c i t ≡ node_of p c i s =
        λ q. ap (get_of i) (r.others p c q) in
      let in_set : i ≢ id → node_of domain cmd i t ≡ node_of domain cmd i s =
        λ q. ap (get_of i) r.here ∙ get_of-less_ne id i (set_of domain cmd s) q in
      (
        ap (get_of id) r.here ∙ get_of-less_self id (set_of domain cmd s) rises,
        elim (dec p domain) [
          | no ne ↦ elsewhere (inl ne)
          | yes e ↦ elim (ℕ_discrete c cmd) [
            | no ne ↦ elsewhere (inr ne)
            | yes f ↦
                let ne : i ≢ id = elim other [
                  | inl q ↦ absurd (q e)
                  | inr q ↦ elim q [ inl u ↦ absurd (u f) | inr u ↦ u ]
                ] in
                subst (λ (x : P). node_of x c i t ≡ node_of x c i s) (sym e)
                  (subst (λ (x : ℕ). node_of domain x i t ≡ node_of domain x i s) (sym f)
                    (in_set ne))
          ]
        ],
        ap is_there r.here ∙ is_there-less id (set_of domain cmd s),
      )
