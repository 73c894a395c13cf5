-- ===== src/Server/Tests.antt =====
-- A small server, with two clients connected and one event, for the tests.
mod Receive
mod Events
mod Run
mod Lists
use syncscribe.Common.{
  ℕ, zero, suc, bytes_of, length-append, ◌≡◌, refl, List, [], ◌∷◌, ◌++◌, Option, none, some, arith,
  replicate, length, All-replicate, length-replicate, find_index, count, Yields,
}
use syncscribe.Types.{
  EventInfo, ClientInfo, ChannelInfo, Header, Packet, SyncsId, pos, negsuc, packet_magic,
  packet_magic_data, client_maximum, channel_maximum, variable_size_maximum,
  event_data_size_maximum,
}
use syncscribe.Id.{idstr}
use syncscribe.Wire.{write_header}
use syncscribe.Server.{Event, Client, Channel, Server}
use syncscribe.Server.Consumers.{
  holds, add_client_to_event, remove_client_from_event, close_client_socket,
}
use syncscribe.Server.Consumers.Closing.{Closed, close_client_socket-Closed}
use syncscribe.Server.Send.{Env, put_client}
use syncscribe.Server.Frame.{HasShort, IsEnv, InRange}
use syncscribe.Server.Valid.{IsValid, IsValidEvent, occupied}
use syncscribe.Server.Membership.{
  add_client_to_event-IsValidEvent, remove_client_from_event-IsValidEvent,
  remove_client_from_event_gone,
}
use syncscribe.Server.Dispatch.{client_process_packet}
use syncscribe.Server.Dispatch.Keeps.{IsReceived, client_process_packet-IsValid}
use syncscribe.Server.Events.Keeps.{KeepsValid}
use syncscribe.Server.Receive.{received, client_handler, store, scan_packets, Scan}
use syncscribe.Server.Receive.Loop.{Ended, scan_packets-Ended}
use syncscribe.Server.Receive.Handler.{Rests, client_handler-Rests}

abbrev pub free_id : SyncsId
free_id = replicate 32 255

abbrev pub temp : SyncsId
temp = idstr (116 ∷ 101 ∷ 109 ∷ 112 ∷ [])

abbrev pub blank : Event
blank = record {
  id = free_id;
  memory = replicate variable_size_maximum 0;
  data_type = 0;
  data_size = 0;
  count = 0;
  update_counter = 0;
  consumers_count = 0;
  producers_count = 0;
  consumers = replicate client_maximum none;
  producer = none;
  callback = none;
}

abbrev pub int_event : Event
int_event = record blank { id = temp; data_type = 0x200; data_size = 4 }

abbrev pub away : Client
away = record {
  id = free_id;
  socketfd = negsuc 0;
  addr = record { ip = 0; port = 0 };
  event_subscribe = 0;
  event_write = 0;
  rx_event_count = 0;
  tx_event_count = 0;
  tx_error = 0;
  version = 0;
  buffer = replicate 200 0;
  buffer_recv = 0;
}

abbrev pub first : Client
first = record away { socketfd = pos 7 }

abbrev pub second : Client
second = record away { socketfd = pos 8 }

abbrev pub no_channel : Channel
no_channel = record {
  id = free_id;
  ticket = record { ip = 0; port = 0; flags = 0 };
  anons_count = 0;
  request_count = 0;
  producers_count = 0;
  producer = none;
}

abbrev pub small : Server
small = record {
  id = idstr (115 ∷ []);
  events = int_event ∷ replicate 255 blank;
  clients = first ∷ (second ∷ replicate 62 away);
  channels = replicate channel_maximum no_channel;
  channel_count = 0;
  event_count = 1;
  client_count = 2;
  uclient_count = 0;
  sync_offset = 0;
  update_counter = 5;
  output = [];
}

abbrev pub subscribe_header : Header
subscribe_header = record {
  magic = packet_magic;
  crc = 0;
  type = 0xf05;
  id = temp;
  data0 = 0;
  data1 = 0;
  update_counter = 0;
  data_size = 0;
  magic_data = packet_magic_data;
}

abbrev pub no_event_info : EventInfo
no_event_info = record {
  id = temp;
  type = 0;
  short_data = replicate 32 0;
  data_size = 0;
  time = 0;
  count = 0;
  consumers_count = 0;
  producers_count = 0;
}

abbrev pub no_channel_info : ChannelInfo
no_channel_info = record { id = temp; anons_count = 0; request_count = 0; ip = 0; port = 0 }

abbrev no_client_info : ClientInfo
no_client_info = record {
  id = temp;
  event_subscribe = 0;
  event_write = 0;
  rx_event_count = 0;
  tx_event_count = 0;
  ip = 0;
}

abbrev pub env : Env
env = record {
  stack = record { header = subscribe_header; buffer = replicate event_data_size_maximum 0 };
  client_slots = replicate 78 no_client_info;
  event_slots = replicate 45 no_event_info;
  channel_slots = replicate 89 no_channel_info;
  now_sec = 100;
  now_nsec = 5;
  send_result = λ c. pos 0;
}

pub env-IsEnv : IsEnv env
env-IsEnv = record {
  room = length-replicate {A = ℕ} event_data_size_maximum 0;
  clients_room = length-replicate 78 no_client_info;
  events_room = length-replicate 45 no_event_info;
  channels_room = length-replicate 89 no_channel_info;
  short = All-replicate HasShort 45 no_event_info refl;
}

nobody : (n : ℕ) → count occupied (replicate n none) ≡ 0
unfolding count
nobody zero = refl
nobody (suc n) = omega (arith, nobody n)

never : (c n : ℕ) → count (holds c) (replicate n none) ≡ 0
unfolding count
never c zero = refl
never c (suc n) = omega (arith, never c n)

pub blank-IsValidEvent : IsValidEvent blank
blank-IsValidEvent = record {
  room = length-replicate {A = ℕ} variable_size_maximum 0;
  fits = omega arith;
  slots = length-replicate {A = Option ℕ} client_maximum none;
  counted = omega (arith, nobody client_maximum);
  once = λ c. omega (arith, never c client_maximum);
  ranged = All-replicate (InRange client_maximum) client_maximum none tt;
}

pub int_event-IsValidEvent : IsValidEvent int_event
int_event-IsValidEvent =
    let v = blank-IsValidEvent in
    record {
      room = v.room;
      fits = omega arith;
      slots = v.slots;
      counted = v.counted;
      once = v.once;
      ranged = v.ranged;
    }

pub small-IsValid : IsValid small
small-IsValid = record {
  events_length = omega (arith, length-replicate 255 blank);
  clients_length = omega (arith, length-replicate 62 away);
  channels_length = length-replicate channel_maximum no_channel;
  events = (int_event-IsValidEvent, All-replicate IsValidEvent 255 blank blank-IsValidEvent);
}

abbrev pub joined : Event
joined = (add_client_to_event 1 int_event second).1

pub joined-IsValidEvent : IsValidEvent joined
joined-IsValidEvent =
    add_client_to_event-IsValidEvent 1 int_event second int_event-IsValidEvent (omega arith)
