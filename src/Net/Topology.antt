-- ===== src/Net/Topology.antt =====
-- src/net/Topology.h and Topology.cpp: directed links between peers. Each method is one step under
-- the mutex.
use interchain_communication.Prelude.{
  Bool, ◌&&◌, List, [], ◌∷◌, ◌++◌, Bytes, bytes_eq, if◌then◌else◌,
}

pub record PeerId : Type 0 where
  pub chain_id : Bytes
  pub node_id : Bytes

pub record LinkSpec : Type 0 where
  pub from : PeerId
  pub to : PeerId

abbrev pub Topology : Type 0
Topology = List LinkSpec

unfoldable pub peer_id_equal : PeerId → PeerId → Bool
peer_id_equal a b = bytes_eq a.chain_id b.chain_id && bytes_eq a.node_id b.node_id

unfoldable pub add_link : Topology → LinkSpec → Topology
add_link links link = links ++ link ∷ []

unfoldable pub neighbors : Topology → PeerId → List PeerId
unfolding peer_id_equal
neighbors [] p = []
neighbors (l ∷ links) p =
    let rest = neighbors links p in if peer_id_equal l.from p then l.to ∷ rest else rest
