-- ===== src/Server/Slots.antt =====
-- libsyncs/syncs-server.c: the tables of events, channels and clients. A pointer into a table is
-- the index of the entry.
pub mod Cases
pub mod Unique
use syncscribe.Common.{
  ℕ, zero, suc, Bool, true, false, ◌&&◌, Option, none, some, ◌==◌, replicate, set, update,
  find_index, inc32, dec32, not,
}
use syncscribe.Types.{SyncsId, ℤ, pos, negsuc, client_maximum}
use syncscribe.Id.{is_free, mark_free, idcmp}
use syncscribe.Server.{Event, Client, Channel, Address, Server}

-- `socketfd == -1` and `socketfd == UDP_SOCKET_STUB`.
abbrev pub is_closed : ℤ → Bool
is_closed (pos n) = false
is_closed (negsuc zero) = true
is_closed (negsuc (suc n)) = false

abbrev pub is_udp_stub : ℤ → Bool
is_udp_stub (pos n) = false
is_udp_stub (negsuc zero) = false
is_udp_stub (negsuc (suc zero)) = true
is_udp_stub (negsuc (suc (suc n))) = false

abbrev pub unused_client : Client → Bool
unused_client c = is_closed c.socketfd

abbrev pub free_slot : Event → Bool
free_slot e = is_free e.id

abbrev pub live_slot : Event → Bool
live_slot e = not (is_free e.id)

abbrev pub has_id : SyncsId → Event → Bool
has_id id e = idcmp e.id id

abbrev pub free_channel_slot : Channel → Bool
free_channel_slot ch = is_free ch.id

abbrev pub channel_has_id : SyncsId → Channel → Bool
channel_has_id id ch = idcmp ch.id id

unfoldable pub get_free_client : Server → Option ℕ
get_free_client s = find_index unused_client s.clients

-- `data[0] = 0` is all that is cleared of the event's memory.
unfoldable pub event_init : SyncsId → Event → Event
event_init id event = record event {
  callback = none;
  count = 0;
  memory = set event.memory 0 0;
  data_size = 0;
  data_type = 0;
  producer = none;
  update_counter = 0;
  consumers_count = 0;
  producers_count = 0;
  consumers = replicate client_maximum none;
  id = id;
}

unfoldable pub channel_init : SyncsId → Channel → Channel
channel_init id channel = record channel {
  producer = none;
  anons_count = 0;
  producers_count = 0;
  request_count = 0;
  id = id;
}

unfoldable pub create_channel : Server → SyncsId → Option (ℕ × Server)
create_channel s id = elim (find_index free_channel_slot s.channels) [
  | none ↦ none
  | some i ↦ some (
    i,
    record s {
      channels = update s.channels i (channel_init id);
      channel_count = inc32 s.channel_count;
    },
  )
]

unfoldable pub create_event : Server → SyncsId → Option (ℕ × Server)
create_event s id = elim (find_index free_slot s.events) [
  | none ↦ none
  | some i ↦ some (
    i,
    record s { events = update s.events i (event_init id); event_count = inc32 s.event_count },
  )
]

unfoldable pub find_event : Server → SyncsId → Option ℕ
find_event s id = find_index (has_id id) s.events

abbrev pub udp_with_id : SyncsId → Client → Bool
udp_with_id id c = is_udp_stub c.socketfd && idcmp c.id id

abbrev pub udp_with_addr : Address → Client → Bool
udp_with_addr a c = is_udp_stub c.socketfd && (c.addr.ip == a.ip) && (c.addr.port == a.port)

unfoldable pub find_uclient_id : Server → SyncsId → Option ℕ
find_uclient_id s id = find_index (udp_with_id id) s.clients

unfoldable pub find_uclient_addr : Server → Address → Option ℕ
find_uclient_addr s addr = find_index (udp_with_addr addr) s.clients

unfoldable pub find_channel : Server → SyncsId → Option ℕ
find_channel s id = find_index (channel_has_id id) s.channels

abbrev pub mark_event_free : Event → Event
mark_event_free e = record e { id = mark_free e.id }

abbrev pub mark_channel_free : Channel → Channel
mark_channel_free ch = record ch { id = mark_free ch.id }

unfoldable pub free_event : Server → SyncsId → Server
unfolding find_event
free_event s id = elim (find_event s id) [
  | none ↦ s
  | some i ↦ record s {
    events = update s.events i mark_event_free;
    event_count = dec32 s.event_count;
  }
]

unfoldable pub free_channel : Server → SyncsId → Server
unfolding find_channel
free_channel s id = elim (find_channel s id) [
  | none ↦ s
  | some i ↦ record s {
    channels = update s.channels i mark_channel_free;
    channel_count = dec32 s.channel_count;
  }
]
