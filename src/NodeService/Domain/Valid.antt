-- ===== src/NodeService/Domain/Valid.antt =====
-- The invariant of NSDomain (Sylar/NodeService/ns_protocol.cc): the keys of its maps rise, and no node set is
-- empty.
use my_sylar_server.Base.{
  ℕ, ◌<◌, ◌≡◌, sym, ◌∙◌, subst, some, List, [], ◌∷◌, length, arith, ℕ_discrete,
}
use my_sylar_server.Base.OrderedMap.{
  map_find, map_insert, map_erase, Rising, find-cons_self, find-cons_ne,
}
use my_sylar_server.NodeService.NodeSet.{NsNodeSet}
use my_sylar_server.NodeService.Domain.{NsDomain}

pub record IsGood (s : NsNodeSet) : Type 0 where
  pub rising : Rising s.datas
  pub some_node : 0 < length s.datas

abbrev pub AllGood : List (ℕ × NsNodeSet) → Type 0
AllGood [] = Unit {0}
AllGood ((_, s) ∷ m) = IsGood s × AllGood m

pub record IsValid (d : NsDomain) : Type 0 where
  pub sets_rise : Rising d.datas
  pub good : AllGood d.datas

pub insert-AllGood :
    (k : ℕ) (s : NsNodeSet) (m : List (ℕ × NsNodeSet))
    → IsGood s
    → AllGood m
    → AllGood (map_insert k s m)
unfolding map_insert
insert-AllGood k s [] g a = (g, tt)
insert-AllGood k s ((j, w) ∷ m) g a = ground (arith, g, a.0, a.1, insert-AllGood k s m g a.1)

pub erase-AllGood : (k : ℕ) (m : List (ℕ × NsNodeSet)) → AllGood m → AllGood (map_erase k m)
unfolding map_erase
erase-AllGood k [] a = tt
erase-AllGood k ((j, w) ∷ m) a = ground (arith, a.0, a.1, erase-AllGood k m a.1)

pub find-IsGood :
    (k : ℕ) (s : NsNodeSet) (m : List (ℕ × NsNodeSet))
    → AllGood m
    → map_find k m ≡ some s
    → IsGood s
unfolding map_find
find-IsGood k s [] a e = absurd (cc)
find-IsGood k s ((j, w) ∷ m) a e = elim (ℕ_discrete j k) [
  | yes p ↦ let same : some w ≡ some s = sym (find-cons_self j k w m p) ∙ e in subst IsGood (cc) a.0
  | no p ↦ find-IsGood k s m a.1 (sym (find-cons_ne j k w m p) ∙ e)
]

pub length-insert {ℓ} :
    {V : Type ℓ} (k : ℕ) (v : V) (m : List (ℕ × V)) → 0 < length (map_insert k v m)
unfolding map_insert
length-insert k v [] = omega arith
length-insert k v ((j, w) ∷ m) = ground (arith, length-insert k v m)
