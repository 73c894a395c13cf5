-- ===== src/Server/Dispatch.antt =====
-- libsyncs/syncs-server.c: `syncs_client_process_packet`.
pub mod Keeps
use syncscribe.Common.{
  ℕ, ◌+◌, ◌*◌, ◌%◌, List, Option, none, some, ◌==◌, if◌then◌else◌, get_elem?, take, inc32, ◌>>=◌,
  bit_and, bit_or,
}
use syncscribe.Types.{
  SyncsId, Header, Packet, ℤ, pos, negsuc, id_size, version_major, type_msg_mask, type_subscribe,
  type_unsubscribe, type_define, type_undefine, type_write, type_read, type_client_list,
  type_event_list, type_client_id, type_channel, type_channel_list, error_notfound,
  error_notsupport,
}
use syncscribe.Id.{char_at}
use syncscribe.Server.{Client, Server}
use syncscribe.Server.Slots.{free_event}
use syncscribe.Server.Consumers.{close_client_socket}
use syncscribe.Server.Send.{Env, with_client, send_server_status}
use syncscribe.Server.Events.{
  client_subscribe, client_unsubscribe, add_event, client_read, client_write,
}
use syncscribe.Server.Listing.{
  client_send_clientlist, client_send_eventlist, client_send_channellist,
}
use syncscribe.Server.Channels.{client_channel}

-- `c->id` and `c->version`, as `SYNCS_TYPE_CLIENT_ID` sets them.
abbrev pub identify : Header → Client → Client
identify h client = record client {
  id = h.id;
  version = bit_or (bit_and h.data0 0xff * 256) (bit_and h.data1 0xff);
}

-- The case of `SYNCS_TYPE_CLIENT_ID`.
unfoldable pub handshake : Env → ℕ → Header → Server → Option Server
unfolding send_server_status close_client_socket
handshake env c h s = do
  s' ←
      if h.data0 == version_major
      then send_server_status env c error_notfound s
      else (do told ← send_server_status env c error_notsupport s; close_client_socket c told)
  with_client c (identify h) s'

-- What a called function returns is dropped.
abbrev pub ignore : Option (ℤ × Server) → Option Server
ignore r = do (code, s) ← r; some s

-- The switch on the message type; `none` inside is the `default`. The argument of the lists is the
-- first character of the identifier.
unfoldable pub handle : Env → ℕ → Packet → Server → Option (Option Server)
unfolding handshake
handle env c packet s =
    let h = packet.header in
    let kind = bit_and h.type type_msg_mask in
    let done = λ (r : Option Server). (do s' ← r; some (some s')) in
    if kind == type_subscribe
    then done (ignore (client_subscribe env c h.id h.type h.update_counter s))
    else if kind == type_unsubscribe
    then done (ignore (client_unsubscribe c h.id s))
    else if kind == type_define
    then done (ignore (add_event h.id h.type none h.data_size s))
    else if kind == type_undefine
    then some (some (free_event s h.id))
    else if kind == type_write
    then done (ignore (client_write env c h.id h.type packet.buffer h.data_size s))
    else if kind == type_read
    then done (ignore (client_read env c h.id s))
    else if kind == type_client_list
    then done (client_send_clientlist env c (char_at h.id) s)
    else if kind == type_event_list
    then done (client_send_eventlist env c (char_at h.id) s)
    else if kind == type_client_id
    then done (handshake env c h s)
    else if kind == type_channel
    then done (ignore (client_channel env c h packet.buffer s))
    else if kind == type_channel_list
    then done (client_send_channellist env c (char_at h.id) s)
    else some none

abbrev pub count_rx : Client → Client
count_rx client = record client { rx_event_count = inc32 client.rx_event_count }

-- `syncs_client_process_packet`. The packet's buffer is the memory from its data on.
unfoldable pub client_process_packet : Env → ℕ → Packet → Server → Option (ℤ × Server)
unfolding handle
client_process_packet env c packet s = do
  handled ← handle env c packet s
  elim handled [
    | none ↦ some (negsuc 0, s)
    | some s' ↦ do s'' ← with_client c count_rx s'; some (pos 0, s'')
  ]
