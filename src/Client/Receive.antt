-- ===== src/Client/Receive.antt =====
-- libsyncs/syncs-client.c: the receiving threads of a client.
pub mod Round
use syncscribe.Common.{
  ℕ, zero, suc, ◌+◌, ◌-◌, Bool, ◌&&◌, not, true, false, List, [], ◌∷◌, ◌++◌, Option, none, some,
  ltb, ◌==◌, if◌then◌else◌, length, take, drop, replicate, ◌>>=◌,
}
use syncscribe.Types.{
  negsuc, SyncsId, header_size, variable_size_maximum, event_maximum, channel_maximum,
}
use syncscribe.Id.{mark_free, idstr}
use syncscribe.Wire.{read_header}
use syncscribe.Server.Receive.{
  Recv, error_transient, error_other, received, masked_size, mask_memory, is_packet, packet_at,
}
use syncscribe.Client.{Connect, Gathered, Outside}
use syncscribe.Client.Requests.{send_id}
use syncscribe.Client.Packets.{process_packet}

-- Where the loop over the buffer stands: the memory before `buffer_head`, the memory from there on,
-- `buffer_recv - buffer_head`, and the connection.
pub record ClientScan : Type 0 where
  pub before : List ℕ
  pub memory : List ℕ
  pub available : ℕ
  pub connect : Connect

-- The inner loop of `syncs_recv`, on fuel. `none` inside is the fuel running out.
unfoldable pub scan_client : Outside → ℕ → ClientScan → Option (Option ClientScan)
unfolding process_packet
scan_client env zero z = some none
scan_client env (suc fuel) z =
    let memory' = mask_memory z.memory in
    let total = header_size + masked_size z.memory in
    let skip = scan_client env fuel (record z {
      before = z.before ++ take 1 z.memory;
      memory = drop 1 z.memory;
      available = z.available - 1;
    }) in
    let process = (do
      s' ← process_packet env (packet_at z.memory) z.connect
      scan_client env fuel (record z {
        before = z.before ++ take total memory';
        memory = drop total memory';
        available = z.available - total;
        connect = s';
      })) in
    if ltb z.available header_size
    then some (some z)
    else if is_packet (read_header z.memory)
    then (if ltb z.available total then some (some (record z { memory = memory' })) else process)
    else skip

-- The buffer and `buffer_recv` after the inner loop.
abbrev pub rest_of : ClientScan → List ℕ
rest_of z =
    if z.available == 0
    then z.before ++ z.memory
    else take z.available z.memory ++ drop z.available (z.before ++ z.memory)

-- The state of the outer loop.
pub record Receiving : Type 0 where
  pub buffer : List ℕ
  pub buffer_recv : ℕ
  pub connect : Connect

-- One round of `syncs_recv`: whether the loop goes on, after no `break` and by its own test, and
-- its state.
unfoldable pub recv_round : Outside → Recv → Receiving → Option (Bool × Receiving)
unfolding scan_client
recv_round env error_transient r = some (r.connect.onexit == 0, r)
recv_round env error_other r = some (false, r)
recv_round env (received bytes) r =
    let buffer =
      take r.buffer_recv r.buffer ++ (bytes ++ drop (r.buffer_recv + length bytes) r.buffer) in
    let available = r.buffer_recv + length bytes in
    if ltb (length bytes) header_size
    then some (not (length bytes == 0) && r.connect.onexit == 0, record r { buffer = buffer })
    else (do
      scanned ←
          scan_client env (available + 1)
            (record { before = []; memory = buffer; available = available; connect = r.connect })
      z ← scanned
      some (
        z.connect.onexit == 0,
        record { buffer = rest_of z; buffer_recv = z.available; connect = z.connect },
      ))

-- The loop of `syncs_recv` over what the socket gives, as far as that is known.
unfoldable pub recv_rounds : Outside → List Recv → Receiving → Option Receiving
unfolding recv_round
recv_rounds env [] r = some r
recv_rounds env (x ∷ xs) r =
    if r.connect.onexit == 0
    then (do
      (goes_on, r') ← recv_round env x r
      let rest = recv_rounds env xs r'
      if goes_on then rest else some r')
    else some r

-- `syncs_recv`, less the thread that calls the application back on connecting.
unfoldable pub recv : Outside → List Recv → List ℕ → Connect → Option Receiving
unfolding recv_rounds
recv env xs buffer s = do
  s' ← send_id env s
  r ← recv_rounds env xs (record {
    buffer = buffer;
    buffer_recv = 0;
    connect = record s' { connect_wait = 0; ready = 1 };
  })
  some (record r { connect = record r.connect { ready = 0 } })

-- One round of `syncs_udprecv`: whether the loop goes on, as above, the buffer and the connection.
unfoldable pub udprecv_round : Outside → Recv → List ℕ → Connect → Option (Bool × List ℕ × Connect)
unfolding process_packet
udprecv_round env error_transient buffer s = some (s.onexit == 0, buffer, s)
udprecv_round env error_other buffer s = some (false, buffer, s)
udprecv_round env (received bytes) buffer s =
    let memory = bytes ++ drop (length bytes) buffer in
    if ltb (length bytes) header_size
    then some (not (length bytes == 0) && s.onexit == 0, memory, s)
    else if is_packet (read_header memory)
    then (do
      s' ← process_packet env (packet_at memory) s
      some (s'.onexit == 0, mask_memory memory, s'))
    else some (s.onexit == 0, memory, s)

unfoldable pub udprecv_rounds : Outside → List Recv → List ℕ → Connect → Option (List ℕ × Connect)
unfolding udprecv_round
udprecv_rounds env [] buffer s = some (buffer, s)
udprecv_rounds env (x ∷ xs) buffer s =
    if s.onexit == 0
    then (do
      (goes_on, buffer', s') ← udprecv_round env x buffer s
      let rest = udprecv_rounds env xs buffer' s'
      if goes_on then rest else some (buffer', s'))
    else some (buffer, s)

unfoldable pub udprecv : Outside → List Recv → List ℕ → Connect → Option (List ℕ × Connect)
unfolding udprecv_rounds
udprecv env xs buffer s = do
  s' ← send_id env s
  (buffer', t) ← udprecv_rounds env xs buffer (record s' { connect_wait = 0; ready = 1 })
  some (buffer', record t { ready = 0 })

abbrev pub no_id : SyncsId
no_id = replicate 32 0

-- `calloc` and `syncs_connect_structure_init`, less the locks.
unfoldable pub connect_structure_init : Connect
connect_structure_init =
    let empty : Gathered = record {
      info = none;
      sequence = 0;
      wait_packet = 0;
      recv = 0;
      wait = 0;
    } in
    record {
      id = no_id;
      server_id = no_id;
      socketfd = negsuc 0;
      usocketfd = negsuc 0;
      read_data = replicate variable_size_maximum 0;
      onexit = 0;
      ready = 0;
      connect_wait = 1;
      read_size = 0;
      read_id = no_id;
      read_wait = 0;
      saddr = record { ip = 0; port = 0 };
      event_wait = 1;
      ticket_data = record { ip = 0; port = 0; flags = 0 };
      ticket_id = no_id;
      ticket_wait = 0;
      events = replicate event_maximum (record {
        id = mark_free no_id;
        callback = none;
        update_counter = 0;
        flags = 0;
        memory = none;
        data_size = 0;
        data_user_size = 0;
      });
      events_queue = none;
      channels =
          replicate channel_maximum
            (record { id = mark_free no_id; ticket = record { ip = 0; port = 0; flags = 0 } });
      eventlist = empty;
      clientlist = empty;
      channellist = empty;
      output = [];
    }

-- `syncs_connect` and `syncs_udpconnect`, less the address and the thread; `id` may be NULL.
unfoldable pub connect : Option (List ℕ) → Connect
unfolding connect_structure_init
connect none = connect_structure_init
connect (some id) = record connect_structure_init { id = idstr id }
