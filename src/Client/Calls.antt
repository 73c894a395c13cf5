-- ===== src/Client/Calls.antt =====
-- libsyncs/syncs-client.c: the calls of the application. A call that waits takes what the receiving
-- thread makes of the connection until the wait is over as its argument.
use syncscribe.Common.{
  ℕ, Bool, true, false, List, Option, none, some, ◌==◌, if◌then◌else◌, ltb, get_elem?, set, memcpy,
  bit_and, bit_or, ◌>>=◌,
}
use syncscribe.Types.{
  SyncsId, Header, ChannelTicket, ℤ, pos, negsuc, header_size, type_read, type_channel,
  channel_request, type_var_mask, type_var_int32, type_var_int64, type_var_float, type_var_double,
  type_var_string, event_data_size_maximum,
}
use syncscribe.Id.{idstr, stridcpy, mark_free, fill_header_request_str, get_size_by_type}
use syncscribe.Server.{Callback}
use syncscribe.Client.{ClientEvent, Connect, Outside}
use syncscribe.Client.Slots.{client_find_event, get_event_str, find_free_channel}
use syncscribe.Client.Requests.{
  bare, connect_send, client_send_subscribe, client_send_unsubscribe, client_send_channel_anons,
}

-- What a wait comes to: whether the condition was met in time, and the connection then.
abbrev pub Wait : Type 0
Wait = Connect → Bool × Connect

-- `syncs_wait_for_read`, with what happens to the connection meanwhile: the condition is met if
-- `read_wait` is 0 then.
abbrev pub wait_for_read : (Connect → Connect) → Wait
wait_for_read meanwhile s = let t = meanwhile s in (t.read_wait == 0, t)

-- `fd >= 0`.
abbrev pub is_connected : ℤ → Bool
is_connected (pos n) = true
is_connected (negsuc n) = false

-- `-EBADFD`, `-ETIMEDOUT`, `-ENOMEM` and their kind.
abbrev pub error_badfd : ℤ
error_badfd = negsuc 76

abbrev pub error_timedout : ℤ
error_timedout = negsuc 109

abbrev pub error_nomem : ℤ
error_nomem = negsuc 11

-- The request of `syncs_read`.
unfoldable pub read_request : Outside → ℕ → List ℕ → Connect → Connect
unfolding connect_send
read_request env flags cid s =
    let h : Header =
      fill_header_request_str env.stack.header cid
        (bit_or type_read (bit_and flags type_var_mask)) in
    (connect_send env (bare env h) header_size (record s { read_wait = 1; read_id = h.id })).1

-- The code, what `data` holds afterwards, `*data_size`, and the connection.
unfoldable pub read :
    Outside → Wait → ℕ → List ℕ → List ℕ → ℕ → Connect → Option (ℤ × List ℕ × ℕ × Connect)
unfolding read_request
read env wait flags cid target size s =
    if is_connected s.socketfd
    then (let (met, t) = wait (read_request env flags cid s) in
        let size' = if ltb t.read_size size then t.read_size else size in
        if met
        then (do target' ← memcpy target t.read_data size'; some (pos 0, target', size', t))
        else some (error_timedout, target, size, t))
    else some (error_badfd, target, size, s)

abbrev pub read_int32 :
    Outside → Wait → ℕ → List ℕ → List ℕ → Connect → Option (ℤ × List ℕ × ℕ × Connect)
read_int32 env wait flags cid target s =
    read env wait (bit_or flags type_var_int32) cid target (get_size_by_type type_var_int32) s

abbrev pub read_int64 :
    Outside → Wait → ℕ → List ℕ → List ℕ → Connect → Option (ℤ × List ℕ × ℕ × Connect)
read_int64 env wait flags cid target s =
    read env wait (bit_or flags type_var_int64) cid target (get_size_by_type type_var_int64) s

abbrev pub read_float :
    Outside → Wait → ℕ → List ℕ → List ℕ → Connect → Option (ℤ × List ℕ × ℕ × Connect)
read_float env wait flags cid target s =
    read env wait (bit_or flags type_var_float) cid target (get_size_by_type type_var_float) s

abbrev pub read_double :
    Outside → Wait → ℕ → List ℕ → List ℕ → Connect → Option (ℤ × List ℕ × ℕ × Connect)
read_double env wait flags cid target s =
    read env wait (bit_or flags type_var_double) cid target (get_size_by_type type_var_double) s

abbrev pub read_str :
    Outside → Wait → ℕ → List ℕ → List ℕ → ℕ → Connect → Option (ℤ × List ℕ × ℕ × Connect)
read_str env wait flags cid target size s =
    read env wait (bit_or flags type_var_string) cid target size s

-- The event in the queue, at once or after the wait.
abbrev pub from_queue : Option ℕ → Wait → Connect → Option ℕ × Connect
from_queue (some i) wait s = (some i, s)
from_queue none wait s = let (met, t) = wait s in (if met then t.events_queue else none, t)

-- What is handed over of the event, if there is one.
unfoldable pub take_event :
    List ℕ → ℕ → Option ℕ × Connect → Option (Option (SyncsId × ℕ × List ℕ × ℕ) × Connect)
take_event target size (none, t) = some (none, t)
take_event target size (some i, t) = do
  e ← get_elem? t.events i
  let size' = if ltb e.data_size size then e.data_size else size
  m ← e.memory
  target' ← memcpy target m size'
  some (some (e.id, e.flags, target', size'), record t { events_queue = none; event_wait = 1 })

-- `syncs_wait_event`: NULL, or the identifier, the flags, what `data` holds and `*data_size`.
unfoldable pub wait_event :
    Wait → List ℕ → ℕ → Connect → Option (Option (SyncsId × ℕ × List ℕ × ℕ) × Connect)
unfolding take_event
wait_event wait target size s = take_event target size (from_queue s.events_queue wait s)

-- The subscription of event i, under the name, after it has been set up.
abbrev pub subscribe_as :
    Outside → ℕ → List ℕ → ℕ → (ClientEvent → ClientEvent) → Connect → Option (ℤ × Connect)
subscribe_as env flags cid i set_up s = do
  e ← get_elem? s.events i
  let e' : ClientEvent = record (set_up e) { flags = flags; id = idstr cid }
  let s' : Connect = record s { events = set s.events i e' }
  some (
    pos 0,
    if is_connected s.socketfd
        then client_send_subscribe env e'.id flags e'.update_counter s'
        else s',
  )

unfoldable pub subscribe_event :
    Outside → ℕ → List ℕ → Option Callback → Connect → Option (ℤ × Connect)
unfolding get_event_str
subscribe_event env flags cid cb s = elim (get_event_str s cid) [
  | none ↦ some (error_nomem, s)
  | some i ↦ subscribe_as env flags cid i (λ e. record e { callback = cb }) s
]

-- The memory is the application's.
unfoldable pub subscribe_event_sync_user :
    Outside → ℕ → List ℕ → List ℕ → ℕ → Connect → Option (ℤ × Connect)
unfolding get_event_str
subscribe_event_sync_user env flags cid user_data user_data_size s = elim (get_event_str s cid) [
  | none ↦ some (error_nomem, s)
  | some i ↦
      subscribe_as env flags cid i
        (λ e. record e { memory = some user_data; data_user_size = user_data_size }) s
]

-- The memory is what `malloc` gives: none, or 4095 bytes. The code tests the wrong pointer.
unfoldable pub subscribe_event_sync :
    Outside → Option (List ℕ) → ℕ → List ℕ → Connect → Option (ℤ × Connect)
unfolding get_event_str
subscribe_event_sync env allocated flags cid s = elim (get_event_str s cid) [
  | none ↦ some (error_nomem, s)
  | some i ↦
      subscribe_as env flags cid i
        (λ e. record e { memory = allocated; data_user_size = event_data_size_maximum }) s
]

unfoldable pub unsubscribe_event : Outside → List ℕ → Connect → Option Connect
unfolding client_find_event client_send_unsubscribe
unsubscribe_event env cid s = elim (client_find_event s (idstr cid)) [
  | none ↦ some s
  | some i ↦ do
    e ← get_elem? s.events i
    let s' = client_send_unsubscribe env e.id e.flags s
    some (record s' { events = set s'.events i (record e { id = mark_free e.id }) })
]

unfoldable pub channel_anons_call : Outside → List ℕ → ℕ → ℕ → Connect → Option (ℤ × Connect)
unfolding find_free_channel client_send_channel_anons
channel_anons_call env cid flags port s = do
  i ← find_free_channel s
  let ticket : ChannelTicket = record { ip = 0; port = port; flags = flags }
  let s' : Connect = record s {
    channels = set s.channels i (record { id = idstr cid; ticket = ticket });
  }
  if is_connected s.socketfd
      then (do t ← client_send_channel_anons env (idstr cid) ticket s'; some (pos 0, t))
      else some (pos 0, s')

-- The loopback address as `htonl(INADDR_LOOPBACK)` stores it, and the server's, by `inet_addr`.
abbrev pub loopback : ℕ
loopback = 0x0100007f

abbrev pub from_outside : ℕ → ChannelTicket → ChannelTicket
from_outside server_ip ticket =
    if ticket.ip == loopback then record ticket { ip = server_ip } else ticket

unfoldable pub channel_request_call :
    Outside → Wait → ℕ → List ℕ → Connect → ℤ × Option ChannelTicket × Connect
unfolding connect_send
channel_request_call env wait server_ip cid s =
    let h : Header =
      fill_header_request_str env.stack.header cid (bit_or type_channel channel_request) in
    let s' = (connect_send env (bare env h) header_size (record s { ticket_id = h.id })).1 in
    if is_connected s.socketfd
    then (let (met, t) = wait s' in
        if met
        then (pos 0, some (from_outside server_ip t.ticket_data), t)
        else (error_timedout, none, t))
    else (error_badfd, none, s)

unfoldable pub is_connect : Connect → ℕ
is_connect s = if s.ready == 0 then 0 else 1

unfoldable pub connect_status : Connect → List ℕ → Option (ℤ × List ℕ)
connect_status s target =
    if s.ready == 0
    then some (negsuc 0, target)
    else (do target' ← stridcpy target s.server_id; some (pos 0, target'))
