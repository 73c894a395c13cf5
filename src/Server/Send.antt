-- ===== src/Server/Send.antt =====
-- libsyncs/syncs-server.c: the packets that the server sends.
-- What the code does not set is read from the stack as it was left: `Env` holds it, with the clock
-- and the outcome of each send.
use syncscribe.Common.{
  ℕ, zero, suc, ◌+◌, ◌-◌, ◌*◌, ◌^◌, ◌%◌, Bool, ◌&&◌, List, [], ◌∷◌, ◌++◌, Option, none, some, ltb,
  ◌==◌, if◌then◌else◌, get_elem?, set, inc32, memcpy, ◌>>=◌, bit_and, bit_or,
}
use syncscribe.Types.{
  Header, Packet, EventInfo, ClientInfo, ChannelInfo, ℤ, pos, negsuc, type_event, type_sync,
  type_echo, type_server_status, status_lost,
}
use syncscribe.Id.{fill_header, fill_header_request_str}
use syncscribe.Server.{Event, Client, Address, Server, Output}
use syncscribe.Server.Consumers.{holds}

-- One packet's worth of the outside world: the uninitialised `struct syncs_packet` on the stack,
-- also as the arrays of entries that the list packets overlay on its buffer; `clock_gettime`; and
-- what `syncs_blocking_send` returns for each client.
pub record Env : Type 0 where
  pub stack : Packet
  pub client_slots : List ClientInfo
  pub event_slots : List EventInfo
  pub channel_slots : List ChannelInfo
  pub now_sec : ℕ
  pub now_nsec : ℕ
  pub send_result : ℕ → ℤ

abbrev pub put_client : ℕ → Client → Server → Server
put_client c client s = record s { clients = set s.clients c client }

abbrev pub put_event : ℕ → Event → Server → Server
put_event i event s = record s { events = set s.events i event }

abbrev pub emit : Output → Server → Server
emit o s = record s { output = s.output ++ o ∷ [] }

-- The three kinds of `socketfd` in `syncs_client_send`, with what is sent over either protocol.
unfoldable pub send_over : ℤ → ℤ → (ℤ → Output) → Output → Server → ℤ × Server
send_over (pos fd) result over_tcp over_udp s = (result, emit (over_tcp (pos fd)) s)
send_over (negsuc zero) result over_tcp over_udp s = (negsuc 0, s)
send_over (negsuc (suc zero)) result over_tcp over_udp s = (pos 0, emit over_udp s)
send_over (negsuc (suc (suc n))) result over_tcp over_udp s = (negsuc 0, s)

unfoldable pub client_send :
    Env → ℕ → (ℤ → Output) → (Address → Output) → Server → Option (ℤ × Server)
unfolding send_over
client_send env c over_tcp over_udp s = do
  client ← get_elem? s.clients c
  some (send_over client.socketfd (env.send_result c) over_tcp (over_udp client.addr) s)

abbrev pub tcp_packet : Packet → ℤ → Output
tcp_packet p fd = Output.tcp fd p

abbrev pub udp_packet : Packet → Address → Output
udp_packet p a = Output.udp a p

abbrev pub count_tx : Client → Client
count_tx client = record client { tx_event_count = inc32 client.tx_event_count }

abbrev pub count_tx_error : Client → Client
count_tx_error client = record client { tx_error = inc32 client.tx_error }

-- A change of one client's counters.
abbrev pub with_client : ℕ → (Client → Client) → Server → Option Server
with_client c f s = do client ← get_elem? s.clients c; some (put_client c (f client) s)

-- `sync_time` moved on by `offset_s` seconds and `offset_ms` milliseconds, as the two 32-bit words.
unfoldable pub sync_calculate : Env → ℕ → ℕ → ℕ × ℕ
sync_calculate env offset_s offset_ms =
    let sec = env.now_sec + offset_s in
    let nsec = env.now_nsec + offset_ms * 1_000_000 in
    if ltb 1_000_000_000 nsec
    then ((sec + 1) % 2 ^ 32, (nsec - 1_000_000_000) % 2 ^ 32)
    else (sec % 2 ^ 32, nsec % 2 ^ 32)

-- The packet of `syncs_send_event`.
unfoldable pub event_header : Env → Event → ℕ → ℕ → Header
unfolding sync_calculate
event_header env event flags sync_offset =
    let h = fill_header env.stack.header event.id (bit_or type_event event.data_type) in
    let h' : Header = record h { data_size = event.data_size % 2 ^ 16 } in
    let sync = sync_calculate env 0 sync_offset in
    if bit_and flags type_sync == 0
    then h'
    else record h' { type = bit_or h'.type type_sync; data0 = sync.0; data1 = sync.1 }

-- The test of the send loop.
unfoldable pub is_skipped : Event → ℕ → ℕ → Bool
is_skipped event flags c = holds c event.producer && (bit_and flags type_echo == 0)

-- One consumer's turn in the send loop.
unfoldable pub send_to_consumer : Env → Packet → ℕ → Server → Option Server
unfolding client_send
send_to_consumer env packet c s = do
  s1 ← with_client c count_tx s
  (r, s2) ← client_send env c (tcp_packet packet) (udp_packet packet) s1
  elim r [ pos zero ↦ some s2 | _ ↦ with_client c count_tx_error s2 ]

-- The send loop, over the consumers left.
unfoldable pub send_to_consumers :
    Env → Packet → Event → ℕ → List (Option ℕ) → Server → Option Server
unfolding send_to_consumer is_skipped
send_to_consumers env packet event flags [] s = some s
send_to_consumers env packet event flags (none ∷ cs) s =
    send_to_consumers env packet event flags cs s
send_to_consumers env packet event flags (some c ∷ cs) s = do
  s' ← if is_skipped event flags c then some s else send_to_consumer env packet c s
  send_to_consumers env packet event flags cs s'

unfoldable pub event_packet : Env → Event → ℕ → ℕ → Option Packet
unfolding event_header
event_packet env event flags sync_offset = do
  buffer ← memcpy env.stack.buffer event.memory event.data_size
  some (record { header = event_header env event flags sync_offset; buffer = buffer })

unfoldable pub send_event : Env → Event → ℕ → Server → Option Server
unfolding event_packet send_to_consumers
send_event env event flags s = do
  packet ← event_packet env event flags s.sync_offset
  send_to_consumers env packet event flags event.consumers s

unfoldable pub resend_event : Env → ℕ → Event → Server → Option Server
unfolding client_send
resend_event env c event s = do
  buffer ← memcpy env.stack.buffer event.memory event.data_size
  let header : Header = fill_header env.stack.header event.id (bit_or type_event status_lost)
  let packet : Packet = record {
    header = record header { data_size = event.data_size % 2 ^ 16 };
    buffer = buffer;
  }
  (r, s') ← client_send env c (tcp_packet packet) (udp_packet packet) s
  with_client c count_tx s'

-- The packet of the two status senders. `update_counter` is 64 bits wide, and the codes small.
unfoldable pub status_packet : Env → Server → ℕ → Packet
status_packet env s code = record {
  header = record (fill_header_request_str env.stack.header s.id type_server_status) {
    update_counter = code;
  };
  buffer = env.stack.buffer;
}

unfoldable pub send_server_status : Env → ℕ → ℕ → Server → Option Server
unfolding client_send status_packet
send_server_status env c code s = do
  let packet = status_packet env s code
  (r, s') ← client_send env c (tcp_packet packet) (udp_packet packet) s
  with_client c count_tx s'

unfoldable pub send_udp_server_status : Env → Address → ℕ → Server → Server
unfolding status_packet
send_udp_server_status env addr code s = emit (Output.udp addr (status_packet env s code)) s
