-- ===== src/Client/Tests.antt =====
-- A connection with one subscription, and the client's properties at it.
use syncscribe.Common.{
  ℕ, ◌≡◌, refl, true, false, List, [], ◌∷◌, ◌++◌, none, some, arith, length, drop, replicate,
  Yields, find_index, word,
}
use syncscribe.Types.{Header, Packet, SyncsId, pos, negsuc, packet_magic, packet_magic_data}
use syncscribe.Id.{idstr, idcmp}
use syncscribe.Server.{Event}
use syncscribe.Server.Delivery.{Carries}
use syncscribe.Client.{Connect, ClientEvent, Gathered, Outside}
use syncscribe.Client.Slots.{client_find_event}
use syncscribe.Client.Packets.{process_event, process_read}
use syncscribe.Common.{length-replicate}
use syncscribe.Types.{event_data_size_maximum}
use syncscribe.Client.Packets.{process_packet}
use syncscribe.Client.Packets.Rooms.{IsConnect}
use syncscribe.Client.Packets.Safe.{process_packet-IsConnect}
use syncscribe.Server.Receive.{received}
use syncscribe.Client.Receive.{Receiving, recv_round}
use syncscribe.Client.Receive.Round.{GoesOn, recv_round-GoesOn}
use syncscribe.Client.Packets.Parts.{
  IsPart, Parts, more, last, stray, receive_parts, receive_parts-IsGathered, IsGathered,
}
use syncscribe.Client.Packets.Heard.{
  Heard, Handed, process_event-Heard, wait_event-process_event, read-process_read,
}
use syncscribe.Client.Calls.{wait_for_read, Wait, wait_event, read}

abbrev temp : SyncsId
temp = idstr (116 ∷ 101 ∷ 109 ∷ 112 ∷ [])

abbrev name : List ℕ
name = 116 ∷ 101 ∷ 109 ∷ 112 ∷ []

abbrev header : Header
header = record {
  magic = packet_magic;
  crc = 0;
  type = 0x202;
  id = temp;
  data0 = 0;
  data1 = 0;
  update_counter = 3;
  data_size = 4;
  magic_data = packet_magic_data;
}

abbrev packet : Packet
packet = record { header = header; buffer = 9 ∷ 8 ∷ 7 ∷ 6 ∷ 0 ∷ 0 ∷ [] }

abbrev sent : Event
sent = record {
  id = temp;
  memory = 9 ∷ 8 ∷ 7 ∷ 6 ∷ 5 ∷ [];
  data_type = 0x200;
  data_size = 4;
  count = 1;
  update_counter = 3;
  consumers_count = 1;
  producers_count = 1;
  consumers = some 0 ∷ [];
  producer = none;
  callback = none;
}

packet-Carries : Carries sent packet
packet-Carries = record { id = refl; size = refl; bytes = refl }

abbrev subscription : ClientEvent
subscription = record {
  id = temp;
  callback = some (record { cb = 1; args = 2 });
  update_counter = 0;
  flags = 0x200;
  memory = some (replicate 8 0);
  data_size = 0;
  data_user_size = 8;
}

abbrev nothing : Gathered
nothing = record { info = some (replicate 8 0); sequence = 5; wait_packet = 0; recv = 0; wait = 1 }

abbrev connection : Connect
connection = record {
  id = temp;
  server_id = temp;
  socketfd = pos 4;
  usocketfd = negsuc 0;
  read_data = replicate 511 0;
  onexit = 0;
  ready = 1;
  connect_wait = 0;
  read_size = 0;
  read_id = temp;
  read_wait = 0;
  saddr = record { ip = 0; port = 0 };
  event_wait = 1;
  ticket_data = record { ip = 0; port = 0; flags = 0 };
  ticket_id = temp;
  ticket_wait = 0;
  events = subscription ∷ [];
  events_queue = none;
  channels = [];
  eventlist = nothing;
  clientlist = nothing;
  channellist = nothing;
  output = [];
}

abbrev outside : Outside
outside = record { stack = packet; send_result = pos 0 }

found : client_find_event connection temp ≡ some 0
unfolding client_find_event idcmp find_index word idstr
found = refl

process_event-Heard_example :
    Yields (Heard sent 0 subscription packet connection) (process_event packet connection)
process_event-Heard_example =
    process_event-Heard packet sent packet-Carries connection 0 subscription (replicate 8 0) found
      refl refl (omega arith) (omega arith)

abbrev at_once : Wait
at_once s = (false, s)

wait_event-process_event_example :
    Yields
      (λ t.
        Yields
          (Handed packet sent packet-Carries subscription (replicate 6 1))
          (wait_event at_once (replicate 6 1) 6 t))
      (process_event packet connection)
wait_event-process_event_example =
    wait_event-process_event packet sent packet-Carries connection 0 subscription (replicate 8 0)
      at_once (replicate 6 1) 6 found refl refl (omega arith) (omega arith) (omega arith)
      (omega arith)

-- The answer comes while the read waits.
abbrev answered : Connect → Connect
answered s = elim (process_read packet s) [ none ↦ s | some t ↦ t ]

read-process_read_example :
    Yields
      (λ r. (r.0 ≡ pos 0) × (r.1 ≡ 9 ∷ 8 ∷ 7 ∷ 6 ∷ 1 ∷ 1 ∷ []) × (r.2 ≡ 4))
      (read outside (wait_for_read answered) 0x200 name (replicate 6 1) 6 connection)
read-process_read_example =
    read-process_read outside 0x200 name (replicate 6 1) 6 connection packet answered refl refl
      (omega arith) (omega arith) (omega arith) (omega arith) (λ t h. rw (h, answered) refl)

-- Two parts with two entries of two bytes each and one, and a part of an older request between them.
abbrev part : ℕ → ℕ → ℕ → ℕ → List ℕ → Packet
part number count sequence end_mark bytes = record {
  header = record header {
    id = number ∷ 2 ∷ count ∷ sequence ∷ end_mark ∷ replicate 27 0;
    data_size = length bytes;
  };
  buffer = bytes ++ replicate 4 0;
}

abbrev four : List ℕ
four = 1 ∷ 2 ∷ 3 ∷ 4 ∷ []

abbrev two : List ℕ
two = 5 ∷ 6 ∷ []

first_part : IsPart 2 5 0 2 four false (part 0 2 5 0 four)
first_part = record {
  number = refl;
  entries = refl;
  answers = refl;
  end_mark = refl;
  size = refl;
  carried = refl;
  there = omega arith;
  whole = refl;
  few = omega arith;
}

last_part : IsPart 2 5 1 1 two true (part 1 1 5 1 two)
last_part = record {
  number = refl;
  entries = refl;
  answers = refl;
  end_mark = refl;
  size = refl;
  carried = refl;
  there = omega arith;
  whole = refl;
  few = omega arith;
}

three-Parts :
    Parts 2 5 0 (part 0 2 5 0 four ∷ (part 1 1 4 1 two ∷ (part 1 1 5 1 two ∷ []))) (four ++ two) 3
three-Parts =
    more 0 2 1 four two (part 0 2 5 0 four) (part 1 1 4 1 two ∷ (part 1 1 5 1 two ∷ [])) first_part
      (omega arith)
      (stray 1 1 two (part 1 1 4 1 two) (part 1 1 5 1 two ∷ []) refl
        (last 1 1 two (part 1 1 5 1 two) last_part))

receive_parts-IsGathered_example :
    Yields
      (IsGathered 2 5 ((four ++ two) ++ drop (length (four ++ two)) (replicate 8 0)) 3)
      (receive_parts 2 (part 0 2 5 0 four ∷ (part 1 1 4 1 two ∷ (part 1 1 5 1 two ∷ []))) nothing)
receive_parts-IsGathered_example =
    receive_parts-IsGathered 2 5 3 (four ++ two) (replicate 8 0)
      (part 0 2 5 0 four ∷ (part 1 1 4 1 two ∷ (part 1 1 5 1 two ∷ []))) nothing three-Parts refl
      refl refl refl (omega arith) (omega arith)

-- A client that waits for events and has asked for no list.
abbrev quiet : Connect
quiet = record connection {
  events = record subscription { memory = some (replicate 511 0) } ∷ [];
  eventlist = record nothing { info = none };
  clientlist = record nothing { info = none };
  channellist = record nothing { info = none };
}

quiet-IsConnect : IsConnect quiet
quiet-IsConnect = record {
  read_room = length-replicate {A = ℕ} 511 0;
  rooms = (omega (arith, length-replicate {A = ℕ} 511 0), tt);
  no_events = refl;
  no_clients = refl;
  no_channels = refl;
}

abbrev roomy : Outside
roomy = record {
  stack = record { header = header; buffer = replicate event_data_size_maximum 0 };
  send_result = pos 0;
}

process_packet-IsConnect_example :
    Yields IsConnect
      (process_packet roomy (record { header = header; buffer = replicate 12 7 }) quiet)
process_packet-IsConnect_example =
    process_packet-IsConnect roomy (record { header = header; buffer = replicate 12 7 }) quiet
      (record { room = length-replicate {A = ℕ} event_data_size_maximum 0 })
      (record {
        small = omega arith;
        data_there = omega (arith, length-replicate {A = ℕ} 12 7);
        ticket_there = omega (arith, length-replicate {A = ℕ} 12 7);
      })
      quiet-IsConnect

abbrev resting : Receiving
resting = record { buffer = replicate 200 0; buffer_recv = 0; connect = quiet }

recv_round-GoesOn_example :
    Yields (GoesOn resting) (recv_round roomy (received (replicate 70 83)) resting)
recv_round-GoesOn_example =
    recv_round-GoesOn roomy (record { room = length-replicate {A = ℕ} event_data_size_maximum 0 })
      (replicate 70 83) resting quiet-IsConnect (omega (arith, length-replicate {A = ℕ} 70 83))
      (omega (arith, length-replicate {A = ℕ} 70 83, length-replicate {A = ℕ} 200 0))
