-- ===== src/Server/Channels.antt =====
-- libsyncs/syncs-server.c: announcing a channel and asking for its ticket.
pub mod Keeps
use syncscribe.Common.{
  ℕ, ◌≤◌, List, [], ◌∷◌, ◌++◌, Option, none, some, leb, ◌==◌, if◌then◌else◌, get_elem?, set, update,
  take, drop, inc32, word, bytes_of, memcpy, ◌>>=◌, bit_and, length,
}
use syncscribe.Types.{
  SyncsId, Header, Packet, ChannelTicket, ℤ, pos, negsuc, channel_anons, channel_request,
  channel_ticket, channel_mask, channel_ticket_size,
}
use syncscribe.Id.{fill_header}
use syncscribe.Server.{Channel, Client, Server}
use syncscribe.Server.Slots.{find_channel, create_channel}
use syncscribe.Server.Consumers.{holds}
use syncscribe.Server.Send.{Env, client_send, tcp_packet, udp_packet}

-- `memcpy(&ticket, data, sizeof(struct syncs_channel_ticket))`: as much is read whatever the
-- packet's size; `none` where the memory ends before.
unfoldable pub read_ticket : List ℕ → Option ChannelTicket
read_ticket source =
    if leb channel_ticket_size (length source)
    then some (record {
      ip = word (take 4 source);
      port = word (take 2 (drop 4 source));
      flags = word (take 4 (drop 6 source));
    })
    else none

-- The bytes of a ticket.
unfoldable pub write_ticket : ChannelTicket → List ℕ
write_ticket t = bytes_of 4 t.ip ++ (bytes_of 2 t.port ++ bytes_of 4 t.flags)

-- What an announcement by client c, at address ip, makes of the channel.
abbrev pub announced : ℕ → ℕ → ChannelTicket → Channel → Channel
announced c ip ticket channel = record channel {
  anons_count = inc32 channel.anons_count;
  ticket = record ticket { ip = ip };
  producer = some c;
  producers_count =
      if holds c channel.producer then channel.producers_count else inc32 channel.producers_count;
}

-- `syncs_add_channel` from the channel on.
unfoldable pub announce_at : ℕ → ℕ → List ℕ → Server → Option (ℤ × Server)
unfolding read_ticket
announce_at c i source s = do
  client ← get_elem? s.clients c
  ticket ← read_ticket source
  some (pos 0, record s { channels = update s.channels i (announced c client.addr.ip ticket) })

unfoldable pub add_channel : ℕ → SyncsId → List ℕ → Server → Option (ℤ × Server)
unfolding find_channel create_channel announce_at
add_channel c id source s = elim (find_channel s id) [
  | some i ↦ announce_at c i source s
  | none ↦ elim (create_channel s id) [
    | none ↦ some (negsuc 0, s)
    | some (i, s') ↦ announce_at c i source s'
  ]
]

unfoldable pub client_channel_request : Env → ℕ → SyncsId → Server → Option (ℤ × Server)
unfolding find_channel client_send write_ticket
client_channel_request env c id s = elim (find_channel s id) [
  | none ↦ some (negsuc 0, s)
  | some i ↦ do
    channel ← get_elem? s.channels i
    buffer ← memcpy env.stack.buffer (write_ticket channel.ticket) channel_ticket_size
    let header : Header = record (fill_header env.stack.header id channel_ticket) {
      data_size = channel_ticket_size;
    }
    let packet : Packet = record { header = header; buffer = buffer }
    (r, s') ← client_send env c (tcp_packet packet) (udp_packet packet) s
    some (pos 0, s')
]

unfoldable pub client_channel : Env → ℕ → Header → List ℕ → Server → Option (ℤ × Server)
unfolding add_channel client_channel_request
client_channel env c header source s =
    let kind = bit_and header.type channel_mask in
    if kind == channel_anons
    then (do (r, s') ← add_channel c header.id source s; some (pos 0, s'))
    else if kind == channel_request
    then (do (r, s') ← client_channel_request env c header.id s; some (pos 0, s'))
    else some (negsuc 0, s)
