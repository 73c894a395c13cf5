-- ===== src/Client/Packets.antt =====
-- libsyncs/syncs-client.c: what a client does with the packets that it receives.
pub mod Parts
pub mod Heard
pub mod Rooms
pub mod Safe
use syncscribe.Common.{
  ℕ, ◌+◌, ◌-◌, ◌*◌, ◌^◌, ◌%◌, Bool, ◌&&◌, List, [], ◌∷◌, ◌++◌, Option, none, some, ◌==◌, leb, ltb,
  not, if◌then◌else◌, length, take, drop, get_elem?, set, memcpy, bit_and, ◌>>=◌,
}
use syncscribe.Types.{
  SyncsId, Header, Packet, ℤ, header_size, type_msg_mask, type_event, type_channel,
  type_server_status, type_read, type_event_list, type_client_list, type_channel_list, type_sync,
  type_channel_mask, channel_ticket, error_notsupport, error_crypt, error_unknownclient,
  event_info_size, client_info_size, channel_info_size,
}
use syncscribe.Id.{idcmp, char_at}
use syncscribe.Server.{Callback}
use syncscribe.Server.Channels.{read_ticket}
use syncscribe.Client.{ClientEvent, Connect, Gathered, ClientOutput, Outside}
use syncscribe.Client.Slots.{client_find_event}
use syncscribe.Client.Requests.{client_emit, send_id}

-- The call of the application's function with the packet's data.
abbrev pub call_back : Option Callback → SyncsId → List ℕ → Connect → Connect
call_back none id value s = s
call_back (some cb) id value s = client_emit (ClientOutput.call cb id value) s

abbrev pub put_client_event : ℕ → ClientEvent → Connect → Connect
put_client_event i e s = record s { events = set s.events i e }

-- The copy for those who wait for events, if the event has memory, and the end of their wait.
unfoldable pub keep_event : ℕ → Packet → ClientEvent → Connect → Option Connect
keep_event i packet e s = elim e.memory [
  | none ↦ some (put_client_event i (record e { update_counter = packet.header.update_counter }) s)
  | some m ↦ do
    m' ← memcpy m packet.buffer packet.header.data_size
    some
        (record (put_client_event i
          (record e {
            memory = some m';
            data_size = packet.header.data_size;
            update_counter = packet.header.update_counter;
          })
          s) { events_queue = some i; event_wait = 0 })
]

unfoldable pub process_event : Packet → Connect → Option Connect
unfolding client_find_event keep_event
process_event packet s = elim (client_find_event s packet.header.id) [
  | none ↦ some s
  | some i ↦ do
    e ← get_elem? s.events i
    keep_event i packet e (call_back e.callback e.id (take packet.header.data_size packet.buffer) s)
]

unfoldable pub channel_process_packet : Packet → Connect → Option Connect
unfolding read_ticket
channel_process_packet packet s =
    if (bit_and packet.header.type type_channel_mask == channel_ticket)
      && (not (s.ticket_wait == 0) && idcmp packet.header.id s.ticket_id)
    then (do
      ticket ← read_ticket packet.buffer
      some (record s { ticket_data = ticket; ticket_wait = 0 }))
    else some s

unfoldable pub process_error : Outside → Packet → Connect → Option Connect
unfolding send_id
process_error env packet s =
    let code = packet.header.update_counter in
    if code == error_notsupport
    then some (record s { onexit = 1 })
    else if code == error_crypt
    then some (record s { onexit = 1 })
    else if code == error_unknownclient
    then send_id env s
    else some s

unfoldable pub process_read : Packet → Connect → Option Connect
process_read packet s =
    if not (s.read_wait == 0) && idcmp packet.header.id s.read_id
    then (do
      data' ← memcpy s.read_data packet.buffer packet.header.data_size
      some (record s { read_size = packet.header.data_size; read_data = data'; read_wait = 0 }))
    else some s

-- `id.c[k]` of a part of a list.
abbrev pub char_of : ℕ → Header → ℕ
char_of k h = char_at (drop k h.id)

-- `memcpy(dst + offset, src, n)`.
unfoldable pub memcpy_at : List ℕ → ℕ → List ℕ → ℕ → Option (List ℕ)
memcpy_at dst offset src n =
    if leb (offset + n) (length dst) && leb n (length src)
    then some (take offset dst ++ (take n src ++ drop (offset + n) dst))
    else none

-- `recv += c`, for a `char` c, which is signed.
abbrev pub add_char : ℕ → ℕ → ℕ
add_char recv c = if ltb c 128 then (recv + c) % 2 ^ 32 else (recv + (2 ^ 32 - 256) + c) % 2 ^ 32

-- A part of a list with entries of so many bytes, as the three cases of the switch take it.
unfoldable pub receive_part : ℕ → Packet → Gathered → Option Gathered
unfolding memcpy_at
receive_part entry_size packet g =
    let h = packet.header in
    elim g.info [
      | none ↦ some g
      | some info ↦
          if (char_of 3 h == g.sequence) && (char_of 0 h == g.wait_packet)
          then (do
            info' ← memcpy_at info (g.recv * entry_size) packet.buffer h.data_size
            some (record g {
              info = some info';
              recv = add_char g.recv (char_of 2 h);
              wait_packet = (g.wait_packet + 1) % 256;
              wait = if char_of 4 h == 1 then 0 else g.wait;
            }))
          else some g
    ]

-- The wait for the time of a synchronised event.
abbrev pub wait_for_sync : Header → Connect → Connect
wait_for_sync h s =
    if bit_and h.type type_sync == 0
    then s
    else client_emit (ClientOutput.wait_sync h.data0 h.data1) s

unfoldable pub process_packet : Outside → Packet → Connect → Option Connect
unfolding process_event channel_process_packet process_error process_read receive_part
process_packet env packet s =
    let h = packet.header in
    let kind = bit_and h.type type_msg_mask in
    if kind == type_event
    then process_event packet (wait_for_sync h s)
    else if kind == type_channel
    then channel_process_packet packet s
    else if kind == type_server_status
    then process_error env packet (record s { server_id = h.id })
    else if kind == type_read
    then process_read packet s
    else if kind == type_event_list
    then (do g ← receive_part event_info_size packet s.eventlist; some (record s { eventlist = g }))
    else if kind == type_client_list
    then (do
      g ← receive_part client_info_size packet s.clientlist
      some (record s { clientlist = g }))
    else if kind == type_channel_list
    then (do
      g ← receive_part channel_info_size packet s.channellist
      some (record s { channellist = g }))
    else some s
