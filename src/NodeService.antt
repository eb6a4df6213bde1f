-- ===== src/NodeService.antt =====
-- Sylar/NodeService/ns_protocol.h and ns_protocol.cc: the registry of the nodes that serve the commands of
-- a domain. Child modules: `NodeSet` (NSNode and NSNodeSet), `Domain` (NSDomain) and `DomainSet`
-- (NSDomainSet).
--
-- A map is the list of its entries in the order of the keys. A shared pointer in a map stands for
-- its object: a change through a pointer that was looked up is a change of the entry. No node set is
-- taken to be shared by two entries. A lock spans each method's body.
pub mod NodeSet
pub mod Domain
pub mod DomainSet
