-- ===== src/Server/Dispatch/Keeps.antt =====
-- Every packet of a client is handled to an end, and keeps the tables valid.
use syncscribe.Common.{
  ℕ, ◌≤◌, ◌<◌, refl, Option, none, some, ◌==◌, if◌then◌else◌, length, ◌>>=◌, Yields, yields, bind,
  weaken, Yields-if, bit_and,
}
use syncscribe.Types.{
  Header, Packet, ℤ, pos, negsuc, client_maximum, variable_size_maximum, channel_ticket_size,
  version_major, type_msg_mask, type_subscribe, type_unsubscribe, type_define, type_undefine,
  type_write, type_read, type_client_list, type_event_list, type_client_id, type_channel,
  type_channel_list, error_notfound, error_notsupport,
}
use syncscribe.Id.{char_at}
use syncscribe.Server.{Server}
use syncscribe.Server.Consumers.Closing.{close_client_socket-Closed}
use syncscribe.Server.Consumers.{close_client_socket}
use syncscribe.Server.Send.{Env, with_client, send_server_status}
use syncscribe.Server.Frame.{IsEnv, with_client-Sent, send_server_status-Sent}
use syncscribe.Server.Valid.{IsValid, Sent-IsValid}
use syncscribe.Server.Events.Keeps.{KeepsValid, in_clients}
use syncscribe.Server.Events.Changes.{
  client_subscribe-IsValid, client_unsubscribe-IsValid, add_event-IsValid, free_event-IsValid,
}
use syncscribe.Server.Events.Access.{client_read-IsValid, client_write-IsValid}
use syncscribe.Server.Listing.Keeps.{
  client_send_clientlist-Sent, client_send_eventlist-Sent, client_send_channellist-Sent,
}
use syncscribe.Server.Channels.Keeps.{client_channel-IsValid}
use syncscribe.Server.Dispatch.{
  handshake, identify, ignore, handle, count_rx, client_process_packet,
}

-- A packet as the receive loops hand it over: the size is masked, and so much memory lies behind
-- the header, and at least that of a ticket.
pub record IsReceived (p : Packet) : Type 0 where
  pub small : p.header.data_size ≤ variable_size_maximum
  pub data_there : p.header.data_size ≤ length p.buffer
  pub ticket_there : channel_ticket_size ≤ length p.buffer

module _ (env : Env) (c : ℕ) (w : IsEnv env) (h : c < client_maximum) where
  pub handshake-IsValid :
      (header : Header) (s : Server) → IsValid s → Yields IsValid (handshake env c header s)
  unfolding handshake
  handshake-IsValid header s v = bind _ answered λ t u.
      weaken (with_client-Sent t c (identify header) (λ x. refl) (in_clients t c u h))
        (λ r p. Sent-IsValid p u)
    where
      told : (code : ℕ) → Yields IsValid (send_server_status env c code s)
      told code =
          weaken (send_server_status-Sent env c code s (in_clients s c v h))
            (λ t p. Sent-IsValid p v)

      answered : Yields IsValid (
          if header.data0 == version_major
          then send_server_status env c error_notfound s
          else (do t ← send_server_status env c error_notsupport s; close_client_socket c t))
      answered =
          Yields-if (header.data0 == version_major) _ _ (λ _. told error_notfound)
            (λ _.
              bind _ (told error_notsupport)
                λ t u. weaken (close_client_socket-Closed c t u h) (λ r k. k.valid))

  ignore-IsValid : {r : Option (ℤ × Server)} → KeepsValid r → Yields IsValid (ignore r)
  ignore-IsValid k = bind _ k λ p u. yields _ u

  -- What the switch leaves: nothing, or a valid server.
  data Handled : Option Server → Type 0 where
    unknown : Handled none
    handled : (t : Server) → IsValid t → Handled (some t)

  done-Handled : {r : Option Server} → Yields IsValid r → Yields Handled (do t ← r; some (some t))
  done-Handled k = bind _ k λ t u. yields _ (handled t u)

  handle-Handled :
      (p : Packet) (s : Server) → IsReceived p → IsValid s → Yields Handled (handle env c p s)
  unfolding handle
  handle-Handled p s ok v =
      let lt = in_clients s c v h in
      let hd = p.header in
      let kind = bit_and hd.type type_msg_mask in
      Yields-if (kind == type_subscribe) _ _
        (λ _.
          done-Handled (
            ignore-IsValid
              (client_subscribe-IsValid env c hd.id hd.type hd.update_counter s w v h)))
        λ _.
          Yields-if (kind == type_unsubscribe) _ _
            (λ _. done-Handled (ignore-IsValid (client_unsubscribe-IsValid c hd.id s v h)))
            λ _.
              Yields-if (kind == type_define) _ _
                (λ _.
                  done-Handled
                    (ignore-IsValid (add_event-IsValid hd.id hd.type none hd.data_size s v tt)))
                λ _.
                  Yields-if (kind == type_undefine) _ _
                    (λ _. yields _ (handled _ (free_event-IsValid hd.id s v)))
                    λ _.
                      Yields-if (kind == type_write) _ _
                        (λ _. done-Handled (
                          ignore-IsValid (
                            client_write-IsValid env c hd.id hd.type p.buffer hd.data_size s w v h
                              ok.small ok.data_there)))
                        λ _.
                          Yields-if (kind == type_read) _ _
                            (λ _.
                              done-Handled
                                (ignore-IsValid (client_read-IsValid env c hd.id s w v h)))
                            λ _.
                              Yields-if (kind == type_client_list) _ _
                                (λ _. done-Handled (
                                  weaken
                                    (client_send_clientlist-Sent env c (char_at hd.id) s w v lt)
                                    (λ t q. Sent-IsValid q v)))
                                λ _.
                                  Yields-if (kind == type_event_list) _ _
                                    (λ _. done-Handled (
                                      weaken
                                        (client_send_eventlist-Sent env c (char_at hd.id) s w v lt)
                                        (λ t q. Sent-IsValid q v)))
                                    λ _.
                                      Yields-if (kind == type_client_id) _ _
                                        (λ _. done-Handled (handshake-IsValid hd s v))
                                        λ _.
                                          Yields-if (kind == type_channel) _ _
                                            (λ _. done-Handled (
                                              ignore-IsValid (
                                                client_channel-IsValid env c hd p.buffer s w v h
                                                  ok.ticket_there)))
                                            λ _.
                                              Yields-if (kind == type_channel_list) _ _
                                                (λ _. done-Handled (
                                                  weaken
                                                    (client_send_channellist-Sent env c
                                                      (char_at hd.id) s w v lt)
                                                    (λ t q. Sent-IsValid q v)))
                                                λ _. yields _ unknown

  finish :
      (s : Server) {r : Option Server}
      → IsValid s
      → Handled r
      → KeepsValid (elim r [
        | none ↦ some (negsuc 0, s)
        | some t ↦ do u ← with_client c count_rx t; some (pos 0, u)
      ])
  finish s v unknown = yields _ v
  finish s v (handled t u) =
      bind _ (with_client-Sent t c count_rx (λ x. refl) (in_clients t c u h))
        λ r q. yields _ (Sent-IsValid q u)

  -- Whatever a packet asks for, from a client of a server with valid tables, with its size masked and so
  -- much memory and a ticket's behind its header, `syncs_client_process_packet` runs to
  -- an end with every copy inside its objects, and the tables are valid afterwards. The stack's packet
  -- has its 4095 bytes: the entries of a list are written to it as well.
  pub client_process_packet-IsValid :
      (p : Packet) (s : Server)
      → IsReceived p
      → IsValid s
      → KeepsValid (client_process_packet env c p s)
  unfolding client_process_packet
  client_process_packet-IsValid p s ok v = bind _ (handle-Handled p s ok v) λ r k. finish s v k
