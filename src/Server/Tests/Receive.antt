-- ===== src/Server/Tests/Receive.antt =====
-- The properties of clients, packets and the receive loop at the small server.
use syncscribe.Common.{
  ◌>>=◌, ℕ, bytes_of, length-append, ◌≡◌, refl, List, [], ◌∷◌, ◌++◌, none, arith, replicate, length,
  length-replicate, find_index, Yields,
}
use syncscribe.Types.{Packet}
use syncscribe.Id.{idstr}
use syncscribe.Wire.{write_header}
use syncscribe.Server.Consumers.{
  holds, add_client_to_event, remove_client_from_event, close_client_socket,
}
use syncscribe.Server.Consumers.Closing.{Closed, close_client_socket-Closed}
use syncscribe.Server.Valid.{IsValidEvent}
use syncscribe.Server.Membership.{
  add_client_to_event-IsValidEvent, remove_client_from_event-IsValidEvent,
  remove_client_from_event_gone,
}
use syncscribe.Server.Dispatch.{client_process_packet}
use syncscribe.Server.Dispatch.Keeps.{IsReceived, client_process_packet-IsValid}
use syncscribe.Server.Events.Keeps.{KeepsValid}
use syncscribe.Server.Receive.{received, client_handler, scan_packets, Scan}
use syncscribe.Server.Receive.Loop.{Ended, scan_packets-Ended}
use syncscribe.Server.Receive.Lost.{client_handler_lost}
use syncscribe.Server.Receive.Handler.{Rests, client_handler-Rests}
use syncscribe.Server.Tests.{
  int_event, second, small, subscribe_header, env, joined, env-IsEnv, int_event-IsValidEvent,
  small-IsValid, joined-IsValidEvent,
}

add_client_to_event-IsValidEvent_example : IsValidEvent (add_client_to_event 1 int_event second).1
add_client_to_event-IsValidEvent_example =
    add_client_to_event-IsValidEvent 1 int_event second int_event-IsValidEvent (omega arith)

remove_client_from_event-IsValidEvent_example :
    IsValidEvent (remove_client_from_event 1 joined second).0
remove_client_from_event-IsValidEvent_example =
    remove_client_from_event-IsValidEvent 1 joined second joined-IsValidEvent

remove_client_from_event_gone_example :
    find_index (holds 1) (remove_client_from_event 1 joined second).0.consumers ≡ none
remove_client_from_event_gone_example =
    remove_client_from_event_gone 1 joined second joined-IsValidEvent

close_client_socket-Closed_example : Yields (Closed 1 small) (close_client_socket 1 small)
close_client_socket-Closed_example = close_client_socket-Closed 1 small small-IsValid (omega arith)

abbrev subscribe_packet : Packet
subscribe_packet = record { header = subscribe_header; buffer = replicate 20 0 }

subscribe_packet-IsReceived : IsReceived subscribe_packet
subscribe_packet-IsReceived = record {
  small = omega arith;
  data_there = omega (arith, length-replicate {A = ℕ} 20 0);
  ticket_there = omega (arith, length-replicate {A = ℕ} 20 0);
}

client_process_packet-IsValid_example :
    KeepsValid (client_process_packet env 1 subscribe_packet small)
client_process_packet-IsValid_example =
    client_process_packet-IsValid env 1 env-IsEnv (omega arith) subscribe_packet small
      subscribe_packet-IsReceived small-IsValid

abbrev subscribe_bytes : List ℕ
subscribe_bytes = write_header subscribe_header

size_of_bytes : length subscribe_bytes ≡ 60
unfolding write_header bytes_of idstr
size_of_bytes = refl

abbrev scan : Scan
scan = record {
  before = [];
  memory = subscribe_bytes ++ replicate 140 0;
  available = 60;
  server = small;
}

scan_packets-Ended_example : Yields (Ended scan) (scan_packets (λ n. env) 1 61 scan)
scan_packets-Ended_example =
    scan_packets-Ended (λ n. env) 1 (λ n. env-IsEnv) (omega arith) 61 scan
      (record {
        valid = small-IsValid;
        inside = omega (
          arith,
          length-append subscribe_bytes (replicate 140 0),
          length-replicate {A = ℕ} 140 0,
          size_of_bytes,
        );
      })
      (omega arith)

client_handler-Rests_example :
    Yields (Rests 1 second) (client_handler (λ n. env) 1 (received subscribe_bytes) small)
client_handler-Rests_example =
    client_handler-Rests (λ n. env) 1 (λ n. env-IsEnv) (omega arith) subscribe_bytes small second
      small-IsValid refl (omega (arith, size_of_bytes))
      (omega (arith, size_of_bytes, length-replicate {A = ℕ} 200 0))

client_handler_lost_example :
    (client_handler (λ n. env) 1 (received (1 ∷ 2 ∷ [])) small >>= λ t.
    client_handler (λ n. env) 1 (received subscribe_bytes) t)
    ≡ client_handler (λ n. env) 1 (received subscribe_bytes) small
client_handler_lost_example =
    client_handler_lost (λ n. env) (λ n. env) 1 (1 ∷ 2 ∷ []) subscribe_bytes small second refl
      (omega arith) (omega arith) (omega arith) (omega (arith, size_of_bytes))
