-- ===== src/P2p/Network/Others.antt =====
-- To whom a broadcast goes.
use suffren.Base.{
  ◌≡◌, ◌≢◌, refl, sym, ◌∙◌, ap, false, none, some, String, [], ◌∷◌, if_pos, if_neg, string_key,
}
use suffren.GoMap.{GoMap, remove}
use suffren.GoMap.Laws.{lookup-remove_ne}
use suffren.Crdt.GCounter.{NodeId}
use suffren.P2p.Client as Client
use suffren.P2p.Client.{Tcp, Client as Connections}
use suffren.P2p.Network.{
  send, broadcast_from, broadcast, broadcast_to_others_from, broadcast_to_others,
}

module _ {W Connection Message : Type 0} (tcp : Tcp W Connection Message)
    (peers : GoMap NodeId String) (msg : Message) (sender : NodeId) where
  send-remove :
      (w : W) (c : Connections Connection) (node : NodeId)
      → node ≢ sender
      → send tcp (remove sender peers) w c node msg ≡ send tcp peers w c node msg
  unfolding send
  send-remove w c node ne =
      ap (λ o. elim o [ none ↦ (w, c, false) | some addr ↦ Client.send tcp w c addr msg ])
        (lookup-remove_ne sender node peers (λ e. ne (sym e)))

  others_from :
      (nodes : GoMap NodeId String) (w : W) (c : Connections Connection)
      → broadcast_to_others_from tcp peers nodes w c msg sender
        ≡ broadcast_from tcp (remove sender peers) (remove sender nodes) w c msg
  unfolding broadcast_to_others_from broadcast_from remove
  others_from [] w c = refl
  others_from ((node, addr) ∷ nodes) w c = elim (string_key.dec node sender) [
    | yes p ↦
        if_pos (string_key.dec node sender) p _ _
        ∙ others_from nodes w c
        ∙ sym (
            ap (λ ns. broadcast_from tcp (remove sender peers) ns w c msg)
              (if_pos (string_key.dec node sender) p (remove sender nodes) _))
    | no ne ↦
        if_neg (string_key.dec node sender) ne _ _
        ∙ others_from nodes (send tcp peers w c node msg).0 (send tcp peers w c node msg).1
        ∙ ap (λ r. broadcast_from tcp (remove sender peers) (remove sender nodes) r.0 r.1 msg)
            (sym (send-remove w c node ne))
        ∙ sym (
            ap (λ ns. broadcast_from tcp (remove sender peers) ns w c msg)
              (if_neg (string_key.dec node sender) ne (remove sender nodes) _))
  ]

  -- `BroadcastToOthers` does to the world and to the connections what `Broadcast` does with the
  -- sender taken out of the peers, whichever of the sends fail.
  pub broadcast_to_others-broadcast :
      (w : W) (c : Connections Connection)
      → broadcast_to_others tcp peers w c msg sender ≡ broadcast tcp (remove sender peers) w c msg
  unfolding broadcast_to_others broadcast
  broadcast_to_others-broadcast w c = others_from peers w c
