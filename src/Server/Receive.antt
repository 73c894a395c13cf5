-- ===== src/Server/Receive.antt =====
-- libsyncs/syncs-server.c: the handlers that epoll calls, for a TCP client's bytes, for a datagram
-- and for a new connection.
pub mod Loop
pub mod Handler
pub mod Lost
pub mod Keeps
use syncscribe.Common.{
  ℕ, zero, suc, ◌+◌, ◌-◌, Bool, List, [], ◌∷◌, ◌++◌, Option, none, some, ltb, leb, ◌==◌,
  if◌then◌else◌, get_elem?, set, length, take, drop, bytes_of, inc32, ◌>>=◌, bit_and,
}
use syncscribe.Types.{
  Header, Packet, ℤ, pos, negsuc, header_size, packet_magic, packet_magic_data,
  variable_size_maximum, type_msg_mask, type_client_id, error_unknownclient,
}
use syncscribe.Wire.{read_header}
use syncscribe.Server.{Address, Client, Server, Output}
use syncscribe.Server.Slots.{get_free_client, find_uclient_addr, find_uclient_id}
use syncscribe.Server.Consumers.{close_client_socket}
use syncscribe.Server.Send.{Env, put_client, emit, with_client, send_udp_server_status}
use syncscribe.Server.Dispatch.{client_process_packet}

-- What `recv` gives: an error, of which EAGAIN and EINTR are transient, or bytes.
pub data Recv : Type 0 where
  error_transient error_other : Recv
  received : List ℕ → Recv

-- Where the loop over the buffer stops: the memory before `buffer_head`, the memory from there on,
-- `buffer_recv - buffer_head`, and the server.
pub record Scan : Type 0 where
  pub before : List ℕ
  pub memory : List ℕ
  pub available : ℕ
  pub server : Server

-- `packet_header->data_size &= SYNCS_VARIABLE_SIZE_MAXIMUM`, in the memory and in the header.
abbrev pub masked_size : List ℕ → ℕ
masked_size memory = bit_and (read_header memory).data_size variable_size_maximum

abbrev pub mask_memory : List ℕ → List ℕ
mask_memory memory = take 57 memory ++ (bytes_of 2 (masked_size memory) ++ drop 59 memory)

abbrev pub is_packet : Header → Bool
is_packet h = if h.magic == packet_magic then h.magic_data == packet_magic_data else Bool.false

-- `(struct syncs_packet *) packet_header`, its size masked.
abbrev pub packet_at : List ℕ → Packet
packet_at memory = record {
  header = record (read_header memory) { data_size = masked_size memory };
  buffer = drop header_size memory;
}

-- The loop, on fuel. The environment of each packet is given by its position. `none` inside is the
-- fuel running out.
unfoldable pub scan_packets : (ℕ → Env) → ℕ → ℕ → Scan → Option (Option Scan)
scan_packets env c zero z = some none
scan_packets env c (suc fuel) z =
    let size = masked_size z.memory in
    let memory' = mask_memory z.memory in
    let total = header_size + size in
    let next = record z {
      before = z.before ++ take 1 z.memory;
      memory = drop 1 z.memory;
      available = z.available - 1;
    } in
    let skip = scan_packets env c fuel next in
    let process = (do
      (r, s') ← client_process_packet (env (length z.before)) c (packet_at z.memory) z.server
      scan_packets env c fuel (record z {
        before = z.before ++ take total memory';
        memory = drop total memory';
        available = z.available - total;
        server = s';
      })) in
    if ltb z.available header_size
    then some (some z)
    else if is_packet (read_header z.memory)
    then (if ltb z.available total then some (some (record z { memory = memory' })) else process)
    else skip

-- `memmove(buffer, buffer + buffer_head, left)` and `buffer_recv`, after the loop.
abbrev pub keep_rest : Scan → Client → Client
keep_rest z client = record client {
  buffer =
      if z.available == 0
      then z.before ++ z.memory
      else take z.available z.memory ++ drop z.available (z.before ++ z.memory);
  buffer_recv = z.available;
}

-- `recv` writes what it receives behind the bytes that are left from before.
abbrev pub store : List ℕ → Client → Client
store bytes client = record client {
  buffer =
      take client.buffer_recv client.buffer
      ++ (bytes ++ drop (client.buffer_recv + length bytes) client.buffer);
}

-- `syncs_client_handler`.
unfoldable pub client_handler : (ℕ → Env) → ℕ → Recv → Server → Option Server
unfolding scan_packets
client_handler env c error_transient s = some s
client_handler env c error_other s = close_client_socket c s
client_handler env c (received bytes) s = do
  client ← get_elem? s.clients c
  let client' = store bytes client
  let s' = put_client c client' s
  let available = client.buffer_recv + length bytes
  if ltb (length bytes) header_size
      then (if length bytes == 0 then close_client_socket c s' else some s')
      else (do
        scanned ←
            scan_packets env c (available + 1)
              (record { before = []; memory = client'.buffer; available = available; server = s' })
        z ← scanned
        with_client c (keep_rest z) z.server)

-- `syncs_add_uclient`: the slot and the server, or NULL.
unfoldable pub add_uclient : Server → Address → Option (ℕ × Server)
add_uclient s addr = elim (get_free_client s) [
  | none ↦ none
  | some c ↦ do
    client ← get_elem? s.clients c
    some (
      c,
      record s {
        clients = set s.clients c (record client {
          addr = addr;
          socketfd = negsuc 1;
          event_subscribe = 0;
          rx_event_count = 0;
          tx_event_count = 0;
          event_write = 0;
        });
        uclient_count = inc32 s.uclient_count;
        client_count = inc32 s.client_count;
      },
    )
]

-- The client that a datagram is from, as `syncs_uclient_process_packet` finds or makes it.
unfoldable pub uclient_of : Address → Header → Server → Option (ℕ × Server)
unfolding add_uclient
uclient_of addr h s = elim (find_uclient_addr s addr) [
  | some c ↦ some (c, s)
  | none ↦
      if bit_and h.type type_msg_mask == type_client_id
      then elim (find_uclient_id s h.id) [
        | none ↦ add_uclient s addr
        | some c ↦ do s' ← with_client c (λ client. record client { addr = addr }) s; some (c, s')
      ]
      else none
]

-- The answer to a datagram that no client is behind.
abbrev pub turn_away : Env → Address → Header → Server → Server
turn_away env addr h s =
    if bit_and h.type type_msg_mask == type_client_id
    then s
    else send_udp_server_status env addr error_unknownclient s

unfoldable pub uclient_process_packet : Env → Address → Packet → Server → Option (ℤ × Server)
unfolding uclient_of
uclient_process_packet env addr packet s = elim (uclient_of addr packet.header s) [
  | none ↦ some (negsuc 0, turn_away env addr packet.header s)
  | some (c, s') ↦ do (r, s'') ← client_process_packet env c packet s'; some (pos 0, s'')
]

-- `syncs_udp_handler`: the memory is `ubuffer`, before and after; the bytes those of the datagram.
unfoldable pub udp_handler : Env → Address → List ℕ → List ℕ → Server → Option (ℤ × List ℕ × Server)
unfolding uclient_process_packet
udp_handler env addr bytes ubuffer s =
    let memory = bytes ++ drop (length bytes) ubuffer in
    if ltb (length bytes) header_size
    then some (pos 0, memory, s)
    else if is_packet (read_header memory)
    then (do
      (r, s') ← uclient_process_packet env addr (packet_at memory) s
      some (r, mask_memory memory, s'))
    else some (pos 0, memory, s)

-- What `accept` gives: a socket and the peer's address, or an error, of which some are tolerated.
pub data Accept : Type 0 where
  accepted : ℕ → Address → Accept
  error_tolerated error_fatal : Accept

-- `syncs_add_client`. `accept` leaves the address alone when it fails.
unfoldable pub add_client : Accept → Server → Option (ℤ × Server)
add_client result s = elim (get_free_client s) [
  | none ↦ some (pos 0, s)
  | some c ↦ do
    client ← get_elem? s.clients c
    elim result [
      | error_tolerated ↦ some (pos 0, put_client c (record client { socketfd = negsuc 0 }) s)
      | error_fatal ↦ some (negsuc 0, put_client c (record client { socketfd = negsuc 0 }) s)
      | accepted fd addr ↦ some (
        pos 0,
        record (emit (Output.epoll_add (pos fd)) s) {
          clients = set s.clients c (record client {
            addr = addr;
            socketfd = pos fd;
            event_subscribe = 0;
            rx_event_count = 0;
            tx_event_count = 0;
            event_write = 0;
          });
          client_count = inc32 s.client_count;
        },
      )
    ]
]
