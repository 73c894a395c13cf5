-- ===== src/Server/Api.antt =====
-- libsyncs/syncs-server.c: creating a server, and the calls of an application that embeds it.
pub mod Keeps
use syncscribe.Common.{
  ℕ, ◌+◌, List, [], ◌∷◌, ◌++◌, Option, none, some, ltb, ◌==◌, if◌then◌else◌, length, get_elem?,
  update, take, replicate, inc32, memcpy, ◌>>=◌, bit_and, bit_or,
}
use syncscribe.Types.{
  SyncsId, ℤ, pos, negsuc, event_maximum, client_maximum, channel_maximum, id_size,
  variable_size_maximum, client_buffer_size, type_force, type_var_int32, type_var_int64,
  type_var_float, type_var_double, type_var_string,
}
use syncscribe.Id.{idstr, mark_free, get_size_by_type}
use syncscribe.Server.{Event, Client, Channel, Callback, Server}
use syncscribe.Server.Slots.{find_event, create_event, free_event}
use syncscribe.Server.Send.{Env, put_event, send_event}
use syncscribe.Server.Events.{add_event, run_callback}

abbrev pub zero_id : SyncsId
zero_id = replicate id_size 0

-- The entries of memory that `calloc` has cleared.
abbrev pub zero_event : Event
zero_event = record {
  id = zero_id;
  memory = replicate variable_size_maximum 0;
  data_type = 0;
  data_size = 0;
  count = 0;
  update_counter = 0;
  consumers_count = 0;
  producers_count = 0;
  consumers = replicate client_maximum none;
  producer = none;
  callback = none;
}

abbrev pub zero_client : Client
zero_client = record {
  id = zero_id;
  socketfd = pos 0;
  addr = record { ip = 0; port = 0 };
  event_subscribe = 0;
  event_write = 0;
  rx_event_count = 0;
  tx_event_count = 0;
  tx_error = 0;
  version = 0;
  buffer = replicate client_buffer_size 0;
  buffer_recv = 0;
}

abbrev pub zero_channel : Channel
zero_channel = record {
  id = zero_id;
  ticket = record { ip = 0; port = 0; flags = 0 };
  anons_count = 0;
  request_count = 0;
  producers_count = 0;
  producer = none;
}

-- `syncs_server_structure_init` over cleared memory: every slot is free, and the offset the default.
unfoldable pub structure_init : Server
structure_init = record {
  id = zero_id;
  events = replicate event_maximum (record zero_event { id = mark_free zero_id });
  clients = replicate client_maximum (record zero_client { socketfd = negsuc 0 });
  channels = replicate channel_maximum (record zero_channel { id = mark_free zero_id });
  channel_count = 0;
  event_count = 0;
  client_count = 0;
  uclient_count = 0;
  sync_offset = 300;
  update_counter = 0;
  output = [];
}

-- `syncs_server_create`, less the address, the port and the thread; `cid` may be NULL.
unfoldable pub server_create : Option (List ℕ) → Server
unfolding structure_init
server_create none = structure_init
server_create (some cid) = record structure_init { id = idstr cid }

-- `syncs_server_set_sync_offset`, for an offset that is not negative.
unfoldable pub server_set_sync_offset : ℕ → Server → Server
server_set_sync_offset ms s = record s { sync_offset = ms }

-- How `syncs_server_subscribe_event` and `syncs_server_write` find their event.
pub data Target : Type 0 where
  fails : ℤ → Target
  event : ℕ → Server → Target

unfoldable pub find_or_force : SyncsId → ℕ → Server → Target
unfolding find_event create_event
find_or_force id flags s = elim (find_event s id) [
  | some i ↦ event i s
  | none ↦
      if bit_and flags type_force == 0
      then fails (negsuc 0)
      else elim (create_event s id) [ none ↦ fails (negsuc 1) | some (i, s') ↦ event i s' ]
]

abbrev pub set_callback : Option Callback → Event → Event
set_callback cb e = record e { callback = cb }

unfoldable pub server_subscribe_event : ℕ → List ℕ → Callback → Server → ℤ × Server
unfolding find_or_force
server_subscribe_event flags cid cb s = elim (find_or_force (idstr cid) flags s) [
  | fails r ↦ (r, s)
  | event i s' ↦ (pos 0, record s' { events = update s'.events i (set_callback (some cb)) })
]

unfoldable pub server_unsubscribe_event : List ℕ → Server → Server
unfolding find_event
server_unsubscribe_event cid s = elim (find_event s (idstr cid)) [
  | none ↦ s
  | some i ↦ record s { events = update s.events i (set_callback none) }
]

-- A write of the application takes the event over from its producer.
abbrev pub released : List ℕ → ℕ → Event → Event
released memory size e = record e {
  memory = memory;
  data_size = size;
  producer = none;
  producers_count = elim e.producer [ none ↦ e.producers_count | some c ↦ inc32 e.producers_count ];
}

-- `syncs_server_write` from the event on.
unfoldable pub server_write_at : Env → ℕ → ℕ → List ℕ → ℕ → Server → Option (ℤ × Server)
unfolding send_event
server_write_at env i flags source size s = do
  e ← get_elem? s.events i
  let size' = if size == 0 then get_size_by_type flags else size
  memory ← memcpy e.memory source size'
  let e' = released memory size' e
  s' ← send_event env e' flags (put_event i e' s)
  some (pos 0, s')

unfoldable pub server_write : Env → ℕ → List ℕ → List ℕ → ℕ → Server → Option (ℤ × Server)
unfolding find_or_force server_write_at
server_write env flags cid source size s = elim (find_or_force (idstr cid) flags s) [
  | fails r ↦ some (r, s)
  | event i s' ↦ server_write_at env i flags source size s'
]

-- The typed writes hand over the bytes of the value.
abbrev pub server_write_int32 : Env → ℕ → List ℕ → List ℕ → Server → Option (ℤ × Server)
server_write_int32 env flags id value s =
    server_write env (bit_or flags type_var_int32) id value 0 s

abbrev pub server_write_int64 : Env → ℕ → List ℕ → List ℕ → Server → Option (ℤ × Server)
server_write_int64 env flags id value s =
    server_write env (bit_or flags type_var_int64) id value 0 s

abbrev pub server_write_float : Env → ℕ → List ℕ → List ℕ → Server → Option (ℤ × Server)
server_write_float env flags id value s =
    server_write env (bit_or flags type_var_float) id value 0 s

abbrev pub server_write_double : Env → ℕ → List ℕ → List ℕ → Server → Option (ℤ × Server)
server_write_double env flags id value s =
    server_write env (bit_or flags type_var_double) id value 0 s

-- With the terminator.
abbrev pub server_write_str : Env → ℕ → List ℕ → List ℕ → Server → Option (ℤ × Server)
server_write_str env flags id text s =
    server_write env (bit_or flags type_var_string) id (text ++ 0 ∷ []) (length text + 1) s

-- `syncs_server_read`: the code, what `data` holds afterwards, and `*data_size`.
unfoldable pub server_read : List ℕ → List ℕ → ℕ → Server → Option (ℤ × List ℕ × ℕ)
unfolding find_event
server_read cid target size s = elim (find_event s (idstr cid)) [
  | none ↦ some (negsuc 0, target, size)
  | some i ↦ do
    e ← get_elem? s.events i
    let size' = if ltb e.data_size size then e.data_size else size
    target' ← memcpy target e.memory size'
    some (pos 0, target', size')
]

abbrev pub server_read_int32 : List ℕ → List ℕ → Server → Option (ℤ × List ℕ × ℕ)
server_read_int32 id target s = server_read id target 4 s

abbrev pub server_read_int64 : List ℕ → List ℕ → Server → Option (ℤ × List ℕ × ℕ)
server_read_int64 id target s = server_read id target 8 s

abbrev pub server_read_float : List ℕ → List ℕ → Server → Option (ℤ × List ℕ × ℕ)
server_read_float id target s = server_read id target 4 s

abbrev pub server_read_double : List ℕ → List ℕ → Server → Option (ℤ × List ℕ × ℕ)
server_read_double id target s = server_read id target 8 s

abbrev pub server_read_str : List ℕ → List ℕ → ℕ → Server → Option (ℤ × List ℕ × ℕ)
server_read_str id target size s = server_read id target size s

-- `syncs_server_cb_event`.
unfoldable pub server_cb_event : SyncsId → Server → Option Server
unfolding find_event
server_cb_event id s = elim (find_event s id) [
  | none ↦ some s
  | some i ↦ do
    e ← get_elem? s.events i
    some (run_callback e.callback id (take e.data_size e.memory) s)
]

unfoldable pub server_define : List ℕ → ℕ → Option (List ℕ) → ℕ → Server → Option (ℤ × Server)
unfolding add_event
server_define cid flags source size s =
    if ltb variable_size_maximum size
    then some (negsuc 4, s)
    else add_event (idstr cid) flags source size s

unfoldable pub server_undefine : List ℕ → Server → ℤ × Server
unfolding free_event
server_undefine cid s = (pos 0, free_event s (idstr cid))
