-- ===== src/Server/Frame.antt =====
-- What sending leaves alone. Every send of the server changes the counters of the client that it
-- is for and the record of the output, and nothing else.
use syncscribe.Common.{
  All, subst, ℕ, ◌/◌, zero, suc, ◌<◌, ◌≡◌, refl, sym, ap, ◌∙◌, List, [], ◌∷◌, map, Option, none,
  some, arith, length, get_elem?, set, length-set, ◌>>=◌, Yields, yields, bind, weaken, Yields-if,
  Yields-get, memcpy_lem, Yields-of_eq, ◌≤◌,
}
use syncscribe.Types.{
  EventInfo, variable_info_size_maximum, client_info_size, event_info_size, channel_info_size,
  event_data_size_maximum, Packet, ℤ, pos, negsuc,
}
use syncscribe.Server.{Event, Client, Address, Server, Output}
use syncscribe.Server.Send.{
  Env, put_client, emit, client_send, send_over, with_client, count_tx, count_tx_error,
  send_to_consumer, send_to_consumers, send_event, resend_event, send_server_status, event_packet,
  is_skipped,
}

abbrev pub sockets : Server → List ℤ
sockets s = map (λ c. c.socketfd) s.clients

pub record Sent (s t : Server) : Type 0 where
  pub id : t.id ≡ s.id
  pub events : t.events ≡ s.events
  pub channels : t.channels ≡ s.channels
  pub sockets_same : sockets t ≡ sockets s
  pub clients_length : length t.clients ≡ length s.clients
  pub event_count : t.event_count ≡ s.event_count
  pub channel_count : t.channel_count ≡ s.channel_count
  pub client_count : t.client_count ≡ s.client_count
  pub update_counter : t.update_counter ≡ s.update_counter
  pub sync_offset : t.sync_offset ≡ s.sync_offset

pub Sent-refl : (s : Server) → Sent s s
Sent-refl s = record {
  id = refl;
  events = refl;
  channels = refl;
  sockets_same = refl;
  clients_length = refl;
  event_count = refl;
  channel_count = refl;
  client_count = refl;
  update_counter = refl;
  sync_offset = refl;
}

pub Sent-trans : {s t u : Server} → Sent s t → Sent t u → Sent s u
Sent-trans p q = record {
  id = q.id ∙ p.id;
  events = q.events ∙ p.events;
  channels = q.channels ∙ p.channels;
  sockets_same = q.sockets_same ∙ p.sockets_same;
  clients_length = q.clients_length ∙ p.clients_length;
  event_count = q.event_count ∙ p.event_count;
  channel_count = q.channel_count ∙ p.channel_count;
  client_count = q.client_count ∙ p.client_count;
  update_counter = q.update_counter ∙ p.update_counter;
  sync_offset = q.sync_offset ∙ p.sync_offset;
}

pub map-set_same :
    {B : Type 0} (f : Client → B) (xs : List Client) (i : ℕ) (a v : Client)
    → get_elem? xs i ≡ some a
    → f v ≡ f a
    → map f (set xs i v) ≡ map f xs
map-set_same f [] i a v h e = refl
map-set_same f (x ∷ xs) zero a v h e = ground arith
map-set_same f (x ∷ xs) (suc i) a v h e = ap (λ t. f x ∷ t) (map-set_same f xs i a v h e)

-- An output leaves everything else as it was.
pub emit-Sent : (s : Server) (o : Output) → Sent s (emit o s)
emit-Sent s o = record {
  id = refl;
  events = refl;
  channels = refl;
  sockets_same = refl;
  clients_length = refl;
  event_count = refl;
  channel_count = refl;
  client_count = refl;
  update_counter = refl;
  sync_offset = refl;
}

put_client-Sent :
    (s : Server) (c : ℕ) (old new : Client)
    → get_elem? s.clients c ≡ some old
    → new.socketfd ≡ old.socketfd
    → Sent s (put_client c new s)
put_client-Sent s c old new h e = record {
  id = refl;
  events = refl;
  channels = refl;
  sockets_same = map-set_same (λ x. x.socketfd) s.clients c old new h e;
  clients_length = length-set s.clients c new;
  event_count = refl;
  channel_count = refl;
  client_count = refl;
  update_counter = refl;
  sync_offset = refl;
}

pub with_client-Sent :
    (s : Server) (c : ℕ) (f : Client → Client)
    → ((x : Client) → (f x).socketfd ≡ x.socketfd)
    → c < length s.clients
    → Yields (Sent s) (with_client c f s)
with_client-Sent s c f same h =
    bind (λ client. some (put_client c (f client) s)) (Yields-get s.clients c h)
      (λ client e.
        yields (put_client c (f client) s) (put_client-Sent s c client (f client) e (same client)))

-- A send to a client of the table succeeds or fails, and leaves the tables as they were.
pub client_send-Sent :
    (env : Env) (s : Server) (c : ℕ) (over_tcp : ℤ → Output) (over_udp : Address → Output)
    → c < length s.clients
    → Yields (λ r. Sent s r.1) (client_send env c over_tcp over_udp s)
unfolding client_send
client_send-Sent env s c over_tcp over_udp h =
    bind
      (λ client.
        some (send_over client.socketfd (env.send_result c) over_tcp (over_udp client.addr) s))
      (Yields-get s.clients c h)
      (λ client e.
        yields (send_over client.socketfd (env.send_result c) over_tcp (over_udp client.addr) s)
          (over client.socketfd (over_udp client.addr)))
  where
    over : (fd : ℤ) (o : Output) → Sent s (send_over fd (env.send_result c) over_tcp o s).1
    over (pos fd) o = emit-Sent s (over_tcp (pos fd))
    over (negsuc zero) o = Sent-refl s
    over (negsuc (suc zero)) o = emit-Sent s o
    over (negsuc (suc (suc n))) o = Sent-refl s

-- The counters that sending touches are not the socket.
count_tx_same : (x : Client) → (count_tx x).socketfd ≡ x.socketfd
count_tx_same x = refl

module _ (env : Env) (packet : Packet) where
  count_error-Sent :
      (r : ℤ) (s : Server) (c : ℕ)
      → c < length s.clients
      → Yields (Sent s) (elim r [ pos zero ↦ some s | _ ↦ with_client c count_tx_error s ])
  count_error-Sent (pos zero) s c h = yields s (Sent-refl s)
  count_error-Sent (pos (suc n)) s c h = with_client-Sent s c count_tx_error (λ x. refl) h
  count_error-Sent (negsuc n) s c h = with_client-Sent s c count_tx_error (λ x. refl) h

  send_to_consumer-Sent :
      (s : Server) (c : ℕ)
      → c < length s.clients
      → Yields (Sent s) (send_to_consumer env packet c s)
  unfolding send_to_consumer
  send_to_consumer-Sent s c h = bind _ (with_client-Sent s c count_tx count_tx_same h) λ s1 p.
      bind _ (client_send-Sent env s1 c _ _ (omega (arith, p.clients_length))) λ r q.
        weaken (count_error-Sent r.0 r.1 c (omega (arith, p.clients_length, q.clients_length)))
          (λ t w. Sent-trans p (Sent-trans q w))

-- A consumer slot that is empty or holds a client of the table.
abbrev pub InRange : ℕ → Option ℕ → Type 0
InRange n none = Unit {0}
InRange n (some c) = c < n

module _ (env : Env) (packet : Packet) (event : Event) (flags : ℕ) where
  send_to_consumers-Sent :
      (cs : List (Option ℕ)) (s : Server)
      → All (InRange (length s.clients)) cs
      → Yields (Sent s) (send_to_consumers env packet event flags cs s)
  unfolding send_to_consumers
  send_to_consumers-Sent [] s h = yields s (Sent-refl s)
  send_to_consumers-Sent (none ∷ cs) s h = send_to_consumers-Sent cs s h.1
  send_to_consumers-Sent (some c ∷ cs) s h =
      bind _
        (Yields-if (is_skipped event flags c) _ _ (λ _. yields s (Sent-refl s))
          (λ _. send_to_consumer-Sent env packet s c h.0))
        λ t p.
          weaken
            (send_to_consumers-Sent cs t
              (subst (λ n. All (InRange n) cs) (sym p.clients_length) h.1))
            (λ u q. Sent-trans p q)

-- `short_data` of an entry has its length.
abbrev pub HasShort : EventInfo → Type 0
HasShort info = length info.short_data ≡ variable_info_size_maximum

-- The stack's packet is as long as a packet; the same memory as whole entries of the three lists.
pub record IsEnv (env : Env) : Type 0 where
  pub room : length env.stack.buffer ≡ event_data_size_maximum
  pub clients_room : length env.client_slots ≡ event_data_size_maximum / client_info_size
  pub events_room : length env.event_slots ≡ event_data_size_maximum / event_info_size
  pub channels_room : length env.channel_slots ≡ event_data_size_maximum / channel_info_size
  pub short : All HasShort env.event_slots

-- What sending an event asks of it.
pub record IsSendable (s : Server) (event : Event) : Type 0 where
  pub fits : event.data_size ≤ length event.memory
  pub small : event.data_size ≤ event_data_size_maximum
  pub ranged : All (InRange (length s.clients)) event.consumers

pub send_event-Sent :
    (env : Env) (event : Event) (flags : ℕ) (s : Server)
    → IsEnv env
    → IsSendable s event
    → Yields (Sent s) (send_event env event flags s)
unfolding send_event
send_event-Sent env event flags s v e =
    bind _ packed
      λ packet _. send_to_consumers-Sent env packet event flags event.consumers s e.ranged
  where
    packed : Yields (λ _. Unit {0}) (event_packet env event flags s.sync_offset)
    packed =
        let fits =
          memcpy_lem env.stack.buffer event.memory event.data_size (omega (arith, v.room, e.small))
            e.fits in
        bind _ (Yields-of_eq {P = λ _. Unit {0}} fits tt) (λ b _. yields _ tt)

pub resend_event-Sent :
    (env : Env) (c : ℕ) (event : Event) (s : Server)
    → IsEnv env
    → IsSendable s event
    → c < length s.clients
    → Yields (Sent s) (resend_event env c event s)
unfolding resend_event
resend_event-Sent env c event s v e h =
    let fits =
      memcpy_lem env.stack.buffer event.memory event.data_size (omega (arith, v.room, e.small))
        e.fits in
    bind _ (Yields-of_eq {P = λ _. Unit {0}} fits tt) λ b _.
      bind _ (client_send-Sent env s c _ _ h) λ r p.
        weaken (with_client-Sent r.1 c count_tx count_tx_same (omega (arith, p.clients_length)))
          (λ t q. Sent-trans p q)

-- A send that is counted.
pub counted_send-Sent :
    (env : Env) (s : Server) (c : ℕ) (over_tcp : ℤ → Output) (over_udp : Address → Output)
    → c < length s.clients
    → Yields (Sent s) (do (r, t) ← client_send env c over_tcp over_udp s; with_client c count_tx t)
counted_send-Sent env s c over_tcp over_udp h =
    bind _ (client_send-Sent env s c over_tcp over_udp h) λ r p.
      weaken (with_client-Sent r.1 c count_tx count_tx_same (omega (arith, p.clients_length)))
        (λ t q. Sent-trans p q)

pub send_server_status-Sent :
    (env : Env) (c code : ℕ) (s : Server)
    → c < length s.clients
    → Yields (Sent s) (send_server_status env c code s)
unfolding send_server_status
send_server_status-Sent env c code s h = counted_send-Sent env s c _ _ h
