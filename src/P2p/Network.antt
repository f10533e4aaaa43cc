-- ===== src/P2p/Network.antt =====
-- internal/p2p/network.go. `peers` is the field of this name, which is never written.
pub mod Others
use suffren.Base.{
  Bool, true, false, Option, none, some, String, List, [], ◌∷◌, ite, if◌then◌else◌, string_key,
}
use suffren.GoMap.{GoMap, lookup}
use suffren.Crdt.GCounter.{NodeId}
use suffren.P2p.Client as Client
use suffren.P2p.Client.{Tcp, Client as Connections}

module _ {W Connection Message : Type 0} (tcp : Tcp W Connection Message)
    (peers : GoMap NodeId String) where
  -- An unknown node is an error.
  unfoldable pub send :
      W → Connections Connection → NodeId → Message → W × Connections Connection × Bool
  unfolding Client.send lookup
  send w c node_id msg = elim (lookup node_id peers) [
    | none ↦ (w, c, false)
    | some addr ↦ Client.send tcp w c addr msg
  ]

  -- The loops over the peers, which log an error and go on.
  unfoldable pub broadcast_from :
      GoMap NodeId String → W → Connections Connection → Message → W × Connections Connection
  unfolding send
  broadcast_from [] w c msg = (w, c)
  broadcast_from ((node_id, addr) ∷ nodes) w c msg =
      let (w1, c1, sent) = send w c node_id msg in broadcast_from nodes w1 c1 msg

  unfoldable pub broadcast : W → Connections Connection → Message → W × Connections Connection
  unfolding broadcast_from
  broadcast w c msg = broadcast_from peers w c msg

  unfoldable pub broadcast_to_others_from :
      GoMap NodeId String
      → W
      → Connections Connection
      → Message
      → NodeId
      → W × Connections Connection
  unfolding send
  broadcast_to_others_from [] w c msg sender_id = (w, c)
  broadcast_to_others_from ((node_id, addr) ∷ nodes) w c msg sender_id =
      let (w1, c1, sent) = send w c node_id msg in
      let skipped = broadcast_to_others_from nodes w c msg sender_id in
      let rest = broadcast_to_others_from nodes w1 c1 msg sender_id in
      ite (string_key.dec node_id sender_id) skipped rest

  unfoldable pub broadcast_to_others :
      W → Connections Connection → Message → NodeId → W × Connections Connection
  unfolding broadcast_to_others_from
  broadcast_to_others w c msg sender_id = broadcast_to_others_from peers w c msg sender_id

-- An error of the server is logged, and the client is closed all the same.
unfoldable pub close :
    {W Connection Message : Type 0}
    → Tcp W Connection Message
    → (W → W × Bool)
    → W
    → Connections Connection
    → W × Connections Connection × Bool
unfolding Client.close
close tcp close_server w c = Client.close tcp (close_server w).0 c
