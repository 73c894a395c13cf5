-- ===== src/Server/Receive/Keeps.antt =====
-- Datagrams and new connections keep the tables valid.
use syncscribe.Common.{
  ℕ, ◌+◌, ◌≤◌, ◌<◌, ◌≡◌, ◌∙◌, List, ◌++◌, Option, none, some, arith, ◌==◌, ltb, length, drop,
  length-append, length-drop, inl, inr, Option-cases, Bool-cases, Yields, yields, bind, Yields-if,
  Yields-get, ◌>>=◌, find_index, find_index-lt-length, set, length-set, get_elem?, inc32, bit_and,
}
use syncscribe.Types.{
  Header, Packet, ℤ, pos, negsuc, client_maximum, client_buffer_size, header_size,
  variable_size_maximum, type_msg_mask, type_client_id,
}
use syncscribe.Wire.{read_header}
use syncscribe.Server.{Address, Client, Server}
use syncscribe.Server.Slots.{
  get_free_client, find_uclient_addr, find_uclient_id, unused_client, udp_with_addr, udp_with_id,
}
use syncscribe.Server.Send.{Env, send_udp_server_status}
use syncscribe.Server.Frame.{IsEnv, emit-Sent}
use syncscribe.Server.Valid.{IsValid, Sent-IsValid}
use syncscribe.Server.Events.Keeps.{KeepsValid, put_client-IsValid}
use syncscribe.Server.Dispatch.{client_process_packet}
use syncscribe.Server.Dispatch.Keeps.{IsReceived, client_process_packet-IsValid}
use syncscribe.Server.Receive.{
  Accept, accepted, error_tolerated, error_fatal, add_client, add_uclient, uclient_of, turn_away,
  uclient_process_packet, udp_handler, is_packet, packet_at,
}
use syncscribe.Server.Receive.Loop.{packet_at-IsReceived, length-mask_memory, masked_size-le}

-- Other counters, and another client, leave the tables valid.
recount-IsValid :
    (s : Server) (c n m : ℕ) (x : Client)
    → IsValid s
    → IsValid (record s { clients = set s.clients c x; uclient_count = n; client_count = m })
recount-IsValid s c n m x v = record {
  events_length = v.events_length;
  clients_length = length-set s.clients c x ∙ v.clients_length;
  channels_length = v.channels_length;
  events = v.events;
}

-- What is done in a free slot, if there is one.
in_free_slot :
    (s : Server) (f : ℕ → Client → Option (ℤ × Server))
    → IsValid s
    → ((c : ℕ) (x : Client) → KeepsValid (f c x))
    → KeepsValid (elim (get_free_client s) [
      | none ↦ some (pos 0, s)
      | some c ↦ get_elem? s.clients c >>= λ x. f c x
    ])
unfolding get_free_client
in_free_slot s f v k = elim (Option-cases (find_index unused_client s.clients)) [
  | inl full ↦ rw full (yields _ v)
  | inr (c, free) ↦ rw free (
      bind _ (Yields-get s.clients c (find_index-lt-length unused_client s.clients c free))
        λ x at_x. k c x)
]

-- `syncs_add_client` keeps the tables valid, whatever `accept` gives.
pub add_client-IsValid :
    (result : Accept) (s : Server) → IsValid s → KeepsValid (add_client result s)
unfolding add_client
add_client-IsValid error_tolerated s v =
    in_free_slot s _ v
      (λ c x. yields _ (put_client-IsValid s c (record x { socketfd = negsuc 0 }) v))
add_client-IsValid error_fatal s v =
    in_free_slot s _ v
      (λ c x. yields _ (put_client-IsValid s c (record x { socketfd = negsuc 0 }) v))
add_client-IsValid (accepted fd addr) s v = in_free_slot s _ v (λ c x. yields _ (record {
  events_length = v.events_length;
  clients_length = length-set s.clients c _ ∙ v.clients_length;
  channels_length = v.channels_length;
  events = v.events;
}))

-- Where the search for the sender of a datagram ends: nowhere, or at a client of a valid table.
data Sender : Option (ℕ × Server) → Type 0 where
  nobody : Sender none
  sender : (c : ℕ) (t : Server) → c < client_maximum → IsValid t → Sender (some (c, t))

Sender-of_Yields :
    {o : Option (ℕ × Server)} → Yields (λ p. (p.0 < client_maximum) × IsValid p.1) o → Sender o
Sender-of_Yields (yields p k) = sender p.0 p.1 k.0 k.1

add_uclient-Sender : (s : Server) (addr : Address) → IsValid s → Sender (add_uclient s addr)
unfolding add_uclient get_free_client
add_uclient-Sender s addr v = elim (Option-cases (find_index unused_client s.clients)) [
  | inl full ↦ rw (full, add_uclient) nobody
  | inr (c, free) ↦
      let lt = find_index-lt-length unused_client s.clients c free in
      rw (free, add_uclient)
        (Sender-of_Yields (
          bind _ (Yields-get s.clients c lt) λ x at_x. yields _ (
            omega (arith, lt, v.clients_length),
            recount-IsValid s c (inc32 s.uclient_count) (inc32 s.client_count) _ v,
          )))
]

uclient_of-Sender :
    (addr : Address) (h : Header) (s : Server) → IsValid s → Sender (uclient_of addr h s)
unfolding uclient_of find_uclient_addr find_uclient_id
uclient_of-Sender addr h s v = elim (Option-cases (find_index (udp_with_addr addr) s.clients)) [
  | inr (c, known) ↦
      rw (known, uclient_of)
        (sender c s
          (omega
            (arith, find_index-lt-length (udp_with_addr addr) s.clients c known, v.clients_length))
          v)
  | inl absent ↦
      rw (absent, uclient_of)
        (elim (Bool-cases (bit_and h.type type_msg_mask == type_client_id)) [
          | inr other ↦ rw other nobody
          | inl names ↦ rw names (elim (Option-cases (find_index (udp_with_id h.id) s.clients)) [
            | inl unknown ↦ rw (unknown, uclient_of) (add_uclient-Sender s addr v)
            | inr (c, moved) ↦
                let lt = find_index-lt-length (udp_with_id h.id) s.clients c moved in
                rw (moved, uclient_of)
                  (Sender-of_Yields (
                    bind _
                      (bind _ (Yields-get s.clients c lt)
                        λ x at_x. yields _ (put_client-IsValid s c (record x { addr = addr }) v))
                      λ t u. yields _ (omega (arith, lt, v.clients_length), u)))
          ])
        ])
]

turn_away-IsValid :
    (env : Env) (addr : Address) (h : Header) (s : Server)
    → IsValid s
    → IsValid (turn_away env addr h s)
unfolding send_udp_server_status
turn_away-IsValid env addr h s v =
    elim (Bool-cases (bit_and h.type type_msg_mask == type_client_id)) [
      | inl names ↦ rw (names, turn_away) v
      | inr other ↦ rw (other, turn_away) (Sent-IsValid (emit-Sent s _) v)
    ]

uclient_process_packet-IsValid :
    (env : Env) (addr : Address) (p : Packet) (s : Server)
    → IsEnv env
    → IsReceived p
    → IsValid s
    → KeepsValid (uclient_process_packet env addr p s)
unfolding uclient_process_packet
uclient_process_packet-IsValid env addr p s w ok v = go (uclient_of-Sender addr p.header s v)
  where
    go :
        {o : Option (ℕ × Server)}
        → Sender o
        → KeepsValid (elim o [
          | none ↦ some (negsuc 0, turn_away env addr p.header s)
          | some (c, s') ↦ do (r, s'') ← client_process_packet env c p s'; some (pos 0, s'')
        ])
    go nobody = yields _ (turn_away-IsValid env addr p.header s v)
    go (sender c t lt u) =
        bind _ (client_process_packet-IsValid env c w lt p t ok u) λ r k. yields _ k

-- At a server with valid tables, a datagram of any bytes and from anyone that fits into the server's
-- buffer of 32 KiB is handled to an end,
-- with every copy inside its objects, and the tables are valid afterwards. The stack's packet has its
-- 4095 bytes: the entries of a list are written to it as well.
pub udp_handler-IsValid :
    (env : Env) (addr : Address) (bytes ubuffer : List ℕ) (s : Server)
    → IsEnv env
    → IsValid s
    → length ubuffer ≡ client_buffer_size
    → length bytes ≤ client_buffer_size
    → Yields
        (λ r. (length r.1 ≡ client_buffer_size) × IsValid r.2)
        (udp_handler env addr bytes ubuffer s)
unfolding udp_handler
udp_handler-IsValid env addr bytes ubuffer s w v size fits =
    Yields-if (ltb (length bytes) header_size) _ _ (λ _. yields _ (same, v))
      (λ _.
        Yields-if (is_packet (read_header memory)) _ _
          (λ _.
            bind _
              (uclient_process_packet-IsValid env addr (packet_at memory) s w
                (packet_at-IsReceived memory (header_size + variable_size_maximum)
                  (omega (arith, same)) (omega (arith, masked_size-le memory)))
                v)
              λ r u. yields _ (length-mask_memory memory (omega (arith, same)) ∙ same, u))
          (λ _. yields _ (same, v)))
  where
    memory : List ℕ
    memory = bytes ++ drop (length bytes) ubuffer

    same : length memory ≡ client_buffer_size
    same = omega (
      arith,
      length-append bytes (drop (length bytes) ubuffer),
      length-drop (length bytes) ubuffer,
    )
