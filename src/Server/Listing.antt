-- ===== src/Server/Listing.antt =====
-- libsyncs/syncs-server.c: the client, event and channel lists, sent in parts. The three functions
-- are one loop over a table; a `Table` holds what differs.
pub mod Keeps
pub mod Chars
pub mod Parts
pub mod Rounds
pub mod Gathered
use syncscribe.Common.{
  ℕ, zero, suc, ◌+◌, ◌-◌, ◌*◌, ◌/◌, ◌%◌, ◌^◌, min, List, [], ◌∷◌, ◌++◌, Option, none, some, leb,
  ◌==◌, if◌then◌else◌, get_elem?, set, update, take, drop, inc8, memcpy, ◌>>=◌,
}
use syncscribe.Types.{
  SyncsId, Header, EventInfo, ClientInfo, ChannelInfo, ℤ, packet_magic, packet_magic_data,
  event_maximum, client_maximum, channel_maximum, variable_size_maximum, event_info_size,
  client_info_size, channel_info_size, variable_info_size_maximum, type_event_list,
  type_client_list, type_channel_list,
}
use syncscribe.Id.{is_free}
use syncscribe.Server.{Event, Client, Channel, Address, Server, Output}
use syncscribe.Server.Slots.{is_closed}
use syncscribe.Server.Send.{Env, client_send, count_tx, with_client}

-- A table of the server as its list packets show it, in entries of type A.
pub record Table (A : Type 0) : Type 0 where
  -- `SYNCS_..._MAXIMUM`, the entries that fit in a packet, and `sizeof` of an entry.
  pub size : ℕ
  pub per_packet : ℕ
  pub entry_size : ℕ
  pub type : ℕ
  -- What slot i of the table writes into an entry of the packet, if it is in use.
  pub fill : Server → ℕ → Option (A → Option A)
  pub over_tcp : Header → List A → ℤ → Output
  pub over_udp : Header → List A → Address → Output

-- `id.c[k] = v` in the header.
abbrev pub set_char : ℕ → ℕ → Header → Header
set_char k v h = record h { id = set h.id k (v % 256) }

module _ {A : Type 0} (table : Table A) (env : Env) (c : ℕ) where
  -- `id.c[2]` and `data_size`, the send, and `tx_event_count++`.
  unfoldable pub send_part : Header → ℕ → List A → Server → Option (Header × Server)
  unfolding client_send
  send_part h k slots s = do
    let h' : Header = record (set_char 2 k h) { data_size = k * table.entry_size }
    (r, s1) ←
        client_send env c (table.over_tcp h' (take k slots)) (table.over_udp h' (take k slots)) s
    s2 ← with_client c count_tx s1
    some (h', s2)

  -- The end of a round that has filled k entries: a full packet goes out, and the next begins.
  unfoldable pub flush : Header → ℕ → List A → Server → Option (Header × ℕ × Server)
  unfolding send_part
  flush h k slots s =
      if leb table.per_packet k
      then (do
        (h', s') ← send_part h k slots s
        some (record h' { id = update h'.id 0 inc8 }, 0, s'))
      else some (h, k, s)

  -- The loop over the table, with the rounds left, the slot, the entries filled, the packet's
  -- header and its entries.
  unfoldable pub list_from : ℕ → ℕ → ℕ → Header → List A → Server → Option Server
  unfolding flush
  list_from zero i k h slots s = do (h', s') ← send_part (set_char 4 1 h) k slots s; some s'
  list_from (suc rounds) i k h slots s = elim (table.fill s i) [
    | none ↦ list_from rounds (i + 1) k h slots s
    | some f ↦ do
      info ← get_elem? slots k
      info' ← f info
      let slots' = set slots k info'
      (h', k', s') ← flush h (k + 1) slots' s
      list_from rounds (i + 1) k' h' slots' s'
  ]

  -- The header with which a list starts: `total` is the server's count of the entries, and
  -- `sequance` the request's number.
  unfoldable pub list_header : ℕ → ℕ → Header
  list_header total sequance =
      let h : Header = record env.stack.header {
        magic = packet_magic;
        magic_data = packet_magic_data;
        type = table.type;
      } in
      set_char 4 0
        (set_char 3 sequance (set_char 1 (total / table.per_packet + 1) (set_char 0 0 h)))

  unfoldable pub send_list : ℕ → ℕ → List A → Server → Option Server
  unfolding list_from list_header
  send_list total sequance slots s = list_from table.size 0 0 (list_header total sequance) slots s

-- `client_info[client_count] = …`.
abbrev pub client_entry : Client → ClientInfo → ClientInfo
client_entry client info = record info {
  id = client.id;
  event_subscribe = client.event_subscribe;
  event_write = client.event_write;
  rx_event_count = client.rx_event_count;
  tx_event_count = client.tx_event_count;
  ip = client.addr.ip;
}

abbrev pub listed_client : Option Client → Option (ClientInfo → Option ClientInfo)
listed_client none = none
listed_client (some client) =
    if is_closed client.socketfd then none else some (λ info. some (client_entry client info))

abbrev pub client_table : Table ClientInfo
client_table = record {
  size = client_maximum;
  per_packet = variable_size_maximum / client_info_size;
  entry_size = client_info_size;
  type = type_client_list;
  fill = λ s i. listed_client (get_elem? s.clients i);
  over_tcp = λ h l fd. Output.tcp_clients fd h l;
  over_udp = λ h l a. Output.udp_clients a h l;
}

unfoldable pub client_send_clientlist : Env → ℕ → ℕ → Server → Option Server
unfolding send_list
client_send_clientlist env c sequance s =
    send_list client_table env c s.client_count sequance env.client_slots s

-- `event_info[event_count] = …`: `time` and the rest of `short_data` stay as they were.
abbrev pub event_entry : Event → EventInfo → Option EventInfo
event_entry event info = do
  short_data ← memcpy info.short_data event.memory (min event.data_size variable_info_size_maximum)
  some (record info {
    id = event.id;
    consumers_count = event.consumers_count;
    count = event.count;
    data_size = event.data_size % 2 ^ 16;
    producers_count = event.producers_count;
    type = event.data_type;
    short_data = short_data;
  })

abbrev pub listed_event : Option Event → Option (EventInfo → Option EventInfo)
listed_event none = none
listed_event (some event) = if is_free event.id then none else some (event_entry event)

abbrev pub event_table : Table EventInfo
event_table = record {
  size = event_maximum;
  per_packet = variable_size_maximum / event_info_size;
  entry_size = event_info_size;
  type = type_event_list;
  fill = λ s i. listed_event (get_elem? s.events i);
  over_tcp = λ h l fd. Output.tcp_events fd h l;
  over_udp = λ h l a. Output.udp_events a h l;
}

unfoldable pub client_send_eventlist : Env → ℕ → ℕ → Server → Option Server
unfolding send_list
client_send_eventlist env c sequance s =
    send_list event_table env c s.event_count sequance env.event_slots s

-- `channel_info[channel_count] = …`.
abbrev pub channel_entry : Channel → ChannelInfo → ChannelInfo
channel_entry channel info = record info {
  id = channel.id;
  anons_count = channel.anons_count;
  request_count = channel.request_count;
  ip = channel.ticket.ip;
  port = channel.ticket.port;
}

abbrev pub listed_channel : Option Channel → Option (ChannelInfo → Option ChannelInfo)
listed_channel none = none
listed_channel (some channel) =
    if is_free channel.id then none else some (λ info. some (channel_entry channel info))

abbrev pub channel_table : Table ChannelInfo
channel_table = record {
  size = channel_maximum;
  per_packet = variable_size_maximum / channel_info_size;
  entry_size = channel_info_size;
  type = type_channel_list;
  fill = λ s i. listed_channel (get_elem? s.channels i);
  over_tcp = λ h l fd. Output.tcp_channels fd h l;
  over_udp = λ h l a. Output.udp_channels a h l;
}

unfoldable pub client_send_channellist : Env → ℕ → ℕ → Server → Option Server
unfolding send_list
client_send_channellist env c sequance s =
    send_list channel_table env c s.channel_count sequance env.channel_slots s
