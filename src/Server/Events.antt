-- ===== src/Server/Events.antt =====
-- libsyncs/syncs-server.c: subscribing, defining, reading and writing for a client. Each function
-- returns the code that the C function returns and the server afterwards.
pub mod Keeps
pub mod Changes
pub mod Access
pub mod Written
pub mod Answered
pub mod Subscribed
use syncscribe.Common.{
  ℕ, ◌+◌, ◌^◌, ◌%◌, Bool, ◌&&◌, ◌||◌, List, [], ◌∷◌, Option, none, some, ltb, ◌==◌, if◌then◌else◌,
  get_elem?, update, take, inc32, memcpy, ◌>>=◌, bit_and, bit_or,
}
use syncscribe.Types.{
  SyncsId, Header, Packet, ℤ, pos, negsuc, type_force, type_read, type_sync, type_echo,
  type_var_mask, type_var_any, type_var_not_defined, variable_size_maximum,
}
use syncscribe.Id.{fill_header, get_size_by_type}
use syncscribe.Server.{Event, Client, Callback, Server, Output}
use syncscribe.Server.Slots.{find_event, create_event, free_event}
use syncscribe.Server.Consumers.{holds, add_client_to_event, remove_client_from_event}
use syncscribe.Server.Send.{
  Env, put_client, put_event, emit, client_send, tcp_packet, udp_packet, count_tx, with_client,
  send_event, resend_event,
}

-- Where a lookup that may create the event ends: early, with a code, or at an event.
pub data Found : Type 0 where
  refused : ℤ → Found
  at : ℕ → Server → Found

abbrev pub set_type : ℕ → Event → Event
set_type flags e = record e { data_type = bit_and flags type_var_mask }

-- How `syncs_client_subscribe` and `syncs_client_write` begin.
unfoldable pub find_or_create : SyncsId → ℕ → Server → Found
unfolding find_event create_event
find_or_create id flags s = elim (find_event s id) [
  | some i ↦ at i s
  | none ↦ if bit_and flags type_force == 0 then refused (negsuc 0) else elim (create_event s id) [
    | none ↦ refused (negsuc 1)
    | some (i, s') ↦ at i (record s' { events = update s'.events i (set_type flags) })
  ]
]

-- The test on the types of event and request.
unfoldable pub accepts : Event → ℕ → Bool
accepts event flags =
    (bit_and event.data_type type_var_mask == type_var_any)
    || (bit_and flags type_var_mask == type_var_any)
    || (bit_and flags type_var_mask == event.data_type)

-- `syncs_client_subscribe` from the event on.
unfoldable pub subscribe_at : Env → ℕ → ℕ → ℕ → ℕ → Server → Option (ℤ × Server)
unfolding accepts add_client_to_event resend_event
subscribe_at env c i flags update_counter s = do
  event ← get_elem? s.events i
  client ← get_elem? s.clients c
  if accepts event flags
      then (do
        let (r, event', client') = add_client_to_event c event client
        let s' = put_client c client' (put_event i event' s)
        s'' ←
            if ltb update_counter event'.update_counter
            then resend_event env c event' s'
            else some s'
        some (pos 0, s''))
      else some (negsuc 2, s)

unfoldable pub client_subscribe : Env → ℕ → SyncsId → ℕ → ℕ → Server → Option (ℤ × Server)
unfolding find_or_create subscribe_at
client_subscribe env c id flags update_counter s = elim (find_or_create id flags s) [
  | refused r ↦ some (r, s)
  | at i s' ↦ subscribe_at env c i flags update_counter s'
]

unfoldable pub client_unsubscribe : ℕ → SyncsId → Server → Option (ℤ × Server)
unfolding find_event remove_client_from_event
client_unsubscribe c id s = elim (find_event s id) [
  | none ↦ some (pos 0, s)
  | some i ↦ do
    event ← get_elem? s.events i
    client ← get_elem? s.clients c
    let (event', client') = remove_client_from_event c event client
    some (pos 0, put_client c client' (put_event i event' s))
]

-- The size that `syncs_add_event` stores.
unfoldable pub defined_size : ℕ → ℕ → ℕ
defined_size flags size =
    if ltb 1 size && ltb size variable_size_maximum then size else get_size_by_type flags

-- `memcpy` from `data`, unless that is NULL.
abbrev pub copy_data : Option (List ℕ) → ℕ → List ℕ → Option (List ℕ)
copy_data none size memory = some memory
copy_data (some source) size memory = memcpy memory source size

-- `syncs_add_event` from the event on.
unfoldable pub define_at : ℕ → ℕ → Option (List ℕ) → ℕ → Server → Option (ℤ × Server)
unfolding defined_size
define_at i flags source size s = do
  event ← get_elem? s.events i
  let size' = defined_size flags size
  memory ← copy_data source size' event.memory
  let event' : Event = record event {
    data_type = bit_and flags type_var_mask;
    data_size = size';
    memory = memory;
  }
  some (pos 0, put_event i event' s)

unfoldable pub add_event : SyncsId → ℕ → Option (List ℕ) → ℕ → Server → Option (ℤ × Server)
unfolding find_event create_event define_at
add_event id flags source size s = elim (find_event s id) [
  | none ↦ elim (create_event s id) [
    | none ↦ some (negsuc 0, s)
    | some (i, s') ↦ define_at i flags source size s'
  ]
  | some i ↦
      if bit_and flags type_force == 0 then some (negsuc 1, s) else define_at i flags source size s
]

-- The answer to a read: of the event found, or of none.
unfoldable pub read_packet : Env → SyncsId → Option Event → Option Packet
read_packet env id none = some (record {
  header = record (fill_header env.stack.header id (bit_or type_read type_var_not_defined)) {
    data_size = 0;
  };
  buffer = env.stack.buffer;
})
read_packet env id (some event) = do
  buffer ← memcpy env.stack.buffer event.memory event.data_size
  some (record {
    header =
        record (fill_header env.stack.header id
          (bit_or type_read (bit_and event.data_type type_var_mask))) {
            data_size = event.data_size % 2 ^ 16;
          };
    buffer = buffer;
  })

abbrev pub event_at : Server → Option ℕ → Option Event
event_at s none = none
event_at s (some i) = get_elem? s.events i

unfoldable pub client_read : Env → ℕ → SyncsId → Server → Option (ℤ × Server)
unfolding find_event read_packet client_send
client_read env c id s = do
  packet ← read_packet env id (event_at s (find_event s id))
  (r, s') ← client_send env c (tcp_packet packet) (udp_packet packet) s
  s'' ← with_client c count_tx s'
  some (pos 0, s'')

-- `cb(args, id->c, event->data, event->data_size)`, if there is one. The function is the user's: it
-- is recorded with the bytes that it is handed, and taken not to call the server itself.
abbrev pub run_callback : Option Callback → SyncsId → List ℕ → Server → Server
run_callback none id value s = s
run_callback (some cb) id value s = emit (Output.call cb id value) s

-- What a write by client c makes of the event.
unfoldable pub written_event : ℕ → Event → ℕ → List ℕ → ℕ → Event
written_event c event counter memory size = record event {
  producer = some c;
  producers_count =
      if holds c event.producer then event.producers_count else inc32 event.producers_count;
  count = inc32 event.count;
  memory = memory;
  data_size = size;
  update_counter = counter;
}

-- `syncs_client_write` from the event on.
unfoldable pub write_at : Env → ℕ → ℕ → SyncsId → ℕ → List ℕ → ℕ → Server → Option (ℤ × Server)
unfolding written_event send_event
write_at env c i id flags source size s = do
  event ← get_elem? s.events i
  if bit_and flags type_var_mask == event.data_type
      then (do
        client ← get_elem? s.clients c
        memory ← memcpy event.memory source size
        let event' = written_event c event s.update_counter memory size
        let s1 : Server =
            record (put_client c (record client { event_write = inc32 client.event_write })
              (put_event i event' s)) { update_counter = (s.update_counter + 1) % 2 ^ 64 }
        let s2 = run_callback event'.callback id (take size event'.memory) s1
        s3 ←
            send_event env event'
              (bit_and flags (bit_or (bit_or type_var_mask type_sync) type_echo)) s2
        some (pos 0, s3))
      else some (negsuc 2, s)

unfoldable pub client_write : Env → ℕ → SyncsId → ℕ → List ℕ → ℕ → Server → Option (ℤ × Server)
unfolding find_or_create write_at
client_write env c id flags source size s = elim (find_or_create id flags s) [
  | refused r ↦ some (r, s)
  | at i s' ↦ write_at env c i id flags source size s'
]
