-- ===== src/Client/Requests.antt =====
-- libsyncs/syncs-client.c: the packets that a client sends.
use syncscribe.Common.{
  ℕ, zero, suc, ◌+◌, Bool, List, [], ◌∷◌, ◌++◌, Option, none, some, ◌==◌, if◌then◌else◌, length,
  memcpy, bit_and, bit_or, ◌>>=◌,
}
use syncscribe.Types.{
  SyncsId, Header, Packet, ChannelTicket, ℤ, pos, negsuc, header_size, channel_ticket_size,
  version_major, version_minor, type_client_id, type_write, type_subscribe, type_unsubscribe,
  type_define, type_channel, channel_anons, type_var_mask, type_flags_mask, type_var_int32,
  type_var_int64, type_var_float, type_var_double, type_var_string, type_var_empty,
  variable_size_maximum,
}
use syncscribe.Id.{
  fill_header, fill_header_str, fill_header_request_str, fill_header_request_id, get_size_by_type,
  is_free,
}
use syncscribe.Server.Channels.{write_ticket}
use syncscribe.Client.{ClientEvent, ConnectChannel, Connect, ClientOutput, Outside}

abbrev pub client_emit : ClientOutput → Connect → Connect
client_emit o s = record s { output = s.output ++ o ∷ [] }

-- `fd > 0`.
abbrev pub is_open : ℤ → Bool
is_open (pos zero) = Bool.false
is_open (pos (suc n)) = Bool.true
is_open (negsuc n) = Bool.false

unfoldable pub connect_send : Outside → Packet → ℕ → Connect → ℤ × Connect
connect_send env packet size s =
    if is_open s.socketfd
    then (env.send_result, client_emit (ClientOutput.tcp s.socketfd packet size) s)
    else if is_open s.usocketfd
    then (pos 0, client_emit (ClientOutput.udp s.saddr packet size) s)
    else (negsuc 0, s)

-- The flags of a request.
abbrev pub request_flags : ℕ → ℕ
request_flags flags = bit_and flags (bit_or type_var_mask type_flags_mask)

-- A packet of a header alone, over the stack's buffer.
abbrev pub bare : Outside → Header → Packet
bare env h = record { header = h; buffer = env.stack.buffer }

-- What is copied into the packet of a write, if anything: `data` may be NULL.
abbrev pub write_body : Outside → Option (List ℕ) → ℕ → Option (List ℕ × ℕ)
write_body env none size = some (env.stack.buffer, 0)
write_body env (some source) size = if size == 0 then some (env.stack.buffer, 0) else (do
  buffer ← memcpy env.stack.buffer source size
  some (buffer, bit_and size variable_size_maximum))

unfoldable pub write : Outside → ℕ → List ℕ → Option (List ℕ) → ℕ → Connect → Option (ℤ × Connect)
unfolding connect_send
write env flags cid source size s = do
  let h : Header = fill_header_str env.stack.header cid (bit_or type_write (request_flags flags))
  let size' = if size == 0 then get_size_by_type flags else size
  (buffer, sent) ← write_body env source size'
  some (
      connect_send env (record { header = record h { data_size = sent }; buffer = buffer })
        (header_size + sent) s)

-- The typed writes hand over the bytes of the value.
abbrev pub write_int32 : Outside → ℕ → List ℕ → List ℕ → Connect → Option (ℤ × Connect)
write_int32 env flags cid value s = write env (bit_or flags type_var_int32) cid (some value) 0 s

abbrev pub write_int64 : Outside → ℕ → List ℕ → List ℕ → Connect → Option (ℤ × Connect)
write_int64 env flags cid value s = write env (bit_or flags type_var_int64) cid (some value) 0 s

abbrev pub write_float : Outside → ℕ → List ℕ → List ℕ → Connect → Option (ℤ × Connect)
write_float env flags cid value s = write env (bit_or flags type_var_float) cid (some value) 0 s

abbrev pub write_double : Outside → ℕ → List ℕ → List ℕ → Connect → Option (ℤ × Connect)
write_double env flags cid value s = write env (bit_or flags type_var_double) cid (some value) 0 s

-- With the terminator.
abbrev pub write_str : Outside → ℕ → List ℕ → List ℕ → Connect → Option (ℤ × Connect)
write_str env flags cid text s =
    write env (bit_or flags type_var_string) cid (some (text ++ 0 ∷ [])) (length text + 1) s

abbrev pub write_event : Outside → ℕ → List ℕ → Connect → Option (ℤ × Connect)
write_event env flags cid s = write env (bit_or flags type_var_empty) cid none 0 s

unfoldable pub client_send_channel_anons :
    Outside → SyncsId → ChannelTicket → Connect → Option Connect
unfolding connect_send
client_send_channel_anons env id ticket s = do
  buffer ← memcpy env.stack.buffer (write_ticket ticket) channel_ticket_size
  let h : Header = fill_header env.stack.header id (bit_or type_channel channel_anons)
  some
      (connect_send env
        (record { header = record h { data_size = channel_ticket_size }; buffer = buffer })
        (header_size + channel_ticket_size) s).1

unfoldable pub define : Outside → List ℕ → ℕ → Connect → Connect
unfolding connect_send
define env cid flags s =
    (connect_send env
      (bare env
        (fill_header_request_str env.stack.header cid (bit_or type_define (request_flags flags))))
      header_size s).1

-- The type is that of a definition, as in the source.
unfoldable pub undefine : Outside → List ℕ → Connect → Connect
unfolding connect_send
undefine env cid s =
    (connect_send env (bare env (fill_header_request_str env.stack.header cid type_define))
      header_size s).1

abbrev pub subscribe_packet : Outside → SyncsId → ℕ → ℕ → Packet
subscribe_packet env id flags counter =
    bare env
      (record (fill_header_request_id env.stack.header id
        (bit_or type_subscribe (request_flags flags))) { update_counter = counter })

unfoldable pub client_send_subscribe : Outside → SyncsId → ℕ → ℕ → Connect → Connect
unfolding connect_send
client_send_subscribe env id flags counter s =
    (connect_send env (subscribe_packet env id flags counter) header_size s).1

unfoldable pub client_send_unsubscribe : Outside → SyncsId → ℕ → Connect → Connect
unfolding connect_send
client_send_unsubscribe env id flags s =
    (connect_send env
      (bare env (
        fill_header_request_id env.stack.header id (bit_or type_unsubscribe (request_flags flags))))
      header_size s).1

abbrev pub id_packet : Outside → SyncsId → Packet
id_packet env id = bare env (record (fill_header_request_id env.stack.header id type_client_id) {
  data0 = version_major;
  data1 = version_minor;
})

unfoldable pub client_send_id : Outside → SyncsId → Connect → Connect
unfolding connect_send
client_send_id env id s = (connect_send env (id_packet env id) header_size s).1

-- The two loops of `syncs_send_id`.
unfoldable pub subscribe_all : Outside → List ClientEvent → Connect → Connect
unfolding client_send_subscribe
subscribe_all env [] s = s
subscribe_all env (e ∷ es) s =
    subscribe_all env es
      (if is_free e.id then s else client_send_subscribe env e.id e.flags e.update_counter s)

unfoldable pub announce_all : Outside → List ConnectChannel → Connect → Option Connect
unfolding client_send_channel_anons
announce_all env [] s = some s
announce_all env (c ∷ cs) s = do
  s' ← if is_free c.id then some s else client_send_channel_anons env c.id c.ticket s
  announce_all env cs s'

unfoldable pub send_id : Outside → Connect → Option Connect
unfolding client_send_id subscribe_all announce_all
send_id env s =
    let s' = subscribe_all env s.events (client_send_id env s.id s) in
    announce_all env s.channels s'
