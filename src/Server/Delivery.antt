-- ===== src/Server/Delivery.antt =====
-- Who receives an event that the server sends, as a list of deliveries.
use syncscribe.Common.{
  All, subst, ℕ, zero, suc, ◌<◌, ◌≤◌, ◌≡◌, refl, sym, ap, ◌∙◌, List, [], ◌∷◌, ◌++◌, map, Option,
  none, some, Bool, true, false, not, if◌then◌else◌, ◌==◌, arith, length, take, drop, get_elem?,
  length-set, Yields, yields, bind, weaken, Yields-get, memcpy_lem, Yields-of_eq, append_assoc,
  append-nil, take-append_left, length-take, bit_and,
}
use syncscribe.Types.{event_data_size_maximum, Packet, ℤ, pos, negsuc, type_echo}
use syncscribe.Id.{fill_header, fill_basic_header}
use syncscribe.Server.{Event, Client, Address, Server, Output}
use syncscribe.Server.Consumers.{holds}
use syncscribe.Server.Send.{
  Env, put_client, client_send, send_over, with_client, count_tx, count_tx_error, tcp_packet,
  udp_packet, send_to_consumer, send_to_consumers, send_event, event_packet, event_header,
  is_skipped,
}
use syncscribe.Server.Frame.{map-set_same, InRange, IsEnv, IsSendable}

-- Where a client can be reached: its socket, and its address.
abbrev pub reach : Client → ℤ × Address
reach x = (x.socketfd, x.addr)

abbrev pub reaches : Server → List (ℤ × Address)
reaches s = map reach s.clients

-- What is handed over to a client: the packet on its connection, a datagram to its address, or
-- nothing where it is closed.
abbrev pub handed : Packet → ℤ × Address → List Output
handed p (pos fd, a) = Output.tcp (pos fd) p ∷ []
handed p (negsuc zero, a) = []
handed p (negsuc (suc zero), a) = Output.udp a p ∷ []
handed p (negsuc (suc (suc n)), a) = []

abbrev pub handed_to : List (ℤ × Address) → Packet → ℕ → List Output
handed_to rs p c = elim (get_elem? rs c) [ none ↦ [] | some r ↦ handed p r ]

-- A consumer receives the event unless it is the producer and no echo was asked for.
abbrev pub wants : Event → ℕ → ℕ → Bool
wants event flags c = if bit_and flags type_echo == 0 then not (holds c event.producer) else true

abbrev pub recipients : Event → ℕ → List (Option ℕ) → List ℕ
recipients event flags [] = []
recipients event flags (none ∷ cs) = recipients event flags cs
recipients event flags (some c ∷ cs) =
    let rest = recipients event flags cs in if wants event flags c then c ∷ rest else rest

abbrev pub deliveries : List (ℤ × Address) → Packet → List ℕ → List Output
deliveries rs p [] = []
deliveries rs p (c ∷ cs) = handed_to rs p c ++ deliveries rs p cs

-- A step that reaches every client as before, and adds an output.
pub record Adds (s t : Server) (o : List Output) : Type 0 where
  pub same : reaches t ≡ reaches s
  pub output : t.output ≡ s.output ++ o
  pub clients_length : length t.clients ≡ length s.clients

pub Adds-refl : (s : Server) → Adds s s []
Adds-refl s = record { same = refl; output = sym (append-nil s.output); clients_length = refl }

pub Adds-trans : {s t u : Server} {o q : List Output} → Adds s t o → Adds t u q → Adds s u (o ++ q)
Adds-trans {s} {o} {q} x y = record {
  same = y.same ∙ x.same;
  output = y.output ∙ ap (λ l. l ++ q) x.output ∙ append_assoc s.output o q;
  clients_length = y.clients_length ∙ x.clients_length;
}

pub with_client-Adds :
    (s : Server) (c : ℕ) (f : Client → Client)
    → ((x : Client) → reach (f x) ≡ reach x)
    → c < length s.clients
    → Yields (λ t. Adds s t []) (with_client c f s)
with_client-Adds s c f same h =
    bind (λ client. some (put_client c (f client) s)) (Yields-get s.clients c h)
      (λ client e. yields (put_client c (f client) s) (record {
        same = map-set_same reach s.clients c client (f client) e (same client);
        output = sym (append-nil s.output);
        clients_length = length-set s.clients c (f client);
      }))

get_elem?-map :
    {A B : Type 0} (f : A → B) (xs : List A) (i : ℕ) (a : A)
    → get_elem? xs i ≡ some a
    → get_elem? (map f xs) i ≡ some (f a)
get_elem?-map f [] i a h = ground arith
get_elem?-map f (x ∷ xs) zero a h = ground arith
get_elem?-map f (x ∷ xs) (suc i) a h = get_elem?-map f xs i a h

-- A send hands the packet over to the client.
pub client_send-Adds :
    (env : Env) (s : Server) (c : ℕ) (p : Packet)
    → c < length s.clients
    → Yields
        (λ r. Adds s r.1 (handed_to (reaches s) p c))
        (client_send env c (tcp_packet p) (udp_packet p) s)
unfolding client_send send_over
client_send-Adds env s c p h =
    bind
      (λ client.
        some (
          send_over client.socketfd (env.send_result c) (tcp_packet p) (udp_packet p client.addr)
            s))
      (Yields-get s.clients c h)
      (λ client e.
        yields
          (send_over client.socketfd (env.send_result c) (tcp_packet p) (udp_packet p client.addr)
            s)
          (rw (get_elem?-map reach s.clients c client e, handed_to)
            (over client.socketfd client.addr)))
  where
    over :
        (fd : ℤ) (a : Address)
        → Adds s
            (send_over fd (env.send_result c) (tcp_packet p) (udp_packet p a) s).1
            (handed p (fd, a))
    over (pos fd) a = record { same = refl; output = refl; clients_length = refl }
    over (negsuc zero) a = Adds-refl s
    over (negsuc (suc zero)) a = record { same = refl; output = refl; clients_length = refl }
    over (negsuc (suc (suc n))) a = Adds-refl s

module _ (env : Env) (packet : Packet) where
  no_error-Adds :
      (r : ℤ) (s : Server) (c : ℕ)
      → c < length s.clients
      → Yields
          (λ t. Adds s t [])
          (elim r [ pos zero ↦ some s | _ ↦ with_client c count_tx_error s ])
  no_error-Adds (pos zero) s c h = yields s (Adds-refl s)
  no_error-Adds (pos (suc n)) s c h = with_client-Adds s c count_tx_error (λ x. refl) h
  no_error-Adds (negsuc n) s c h = with_client-Adds s c count_tx_error (λ x. refl) h

  send_to_consumer-Adds :
      (s : Server) (c : ℕ)
      → c < length s.clients
      → Yields (λ t. Adds s t (handed_to (reaches s) packet c)) (send_to_consumer env packet c s)
  unfolding send_to_consumer
  send_to_consumer-Adds s c h = bind _ (with_client-Adds s c count_tx (λ x. refl) h) λ s1 p.
      bind _ (client_send-Adds env s1 c packet (omega (arith, p.clients_length))) λ r q.
        weaken (no_error-Adds r.0 r.1 c (omega (arith, p.clients_length, q.clients_length)))
          (λ t w. add_nothing p q w)
    where
      add_nothing :
          {s1 s2 t : Server}
          → Adds s s1 []
          → Adds s1 s2 (handed_to (reaches s1) packet c)
          → Adds s2 t []
          → Adds s t (handed_to (reaches s) packet c)
      add_nothing {s2} {t} p q w =
          subst (λ o. Adds s t o) (append-nil (handed_to (reaches s) packet c))
            (Adds-trans (subst (λ rs. Adds s s2 (handed_to rs packet c)) p.same (Adds-trans p q)) w)

module _ (env : Env) (packet : Packet) (event : Event) (flags : ℕ) where
  skipped-wants : (c : ℕ) → is_skipped event flags c ≡ not (wants event flags c)
  unfolding is_skipped
  skipped-wants c = ground arith

  send_to_consumers-Adds :
      (cs : List (Option ℕ)) (s : Server)
      → All (InRange (length s.clients)) cs
      → Yields
          (λ t. Adds s t (deliveries (reaches s) packet (recipients event flags cs)))
          (send_to_consumers env packet event flags cs s)
  unfolding send_to_consumers
  send_to_consumers-Adds [] s h = yields s (Adds-refl s)
  send_to_consumers-Adds (none ∷ cs) s h = send_to_consumers-Adds cs s h.1
  send_to_consumers-Adds (some c ∷ cs) s h = bind _ turn λ t p.
      weaken
        (send_to_consumers-Adds cs t (subst (λ n. All (InRange n) cs) (sym p.clients_length) h.1))
        (λ u q.
          subst (λ o. Adds s u o) joined
            (Adds-trans p (subst (λ rs. Adds t u (deliveries rs packet rest)) p.same q)))
    where
      rest : List ℕ
      rest = recipients event flags cs

      here : List Output
      here = if wants event flags c then handed_to (reaches s) packet c else []

      turn :
          Yields
            (λ t. Adds s t here)
            (if is_skipped event flags c then some s else send_to_consumer env packet c s)
      turn = rw (skipped-wants c) (by_want (wants event flags c))
        where
          by_want :
              (b : Bool)
              → Yields
                  (λ t. Adds s t (if b then handed_to (reaches s) packet c else []))
                  (if not b then some s else send_to_consumer env packet c s)
          by_want true = send_to_consumer-Adds env packet s c h.0
          by_want false = yields s (Adds-refl s)

      joined :
          here ++ deliveries (reaches s) packet rest
          ≡ deliveries (reaches s) packet (recipients event flags (some c ∷ cs))
      joined = by_want (wants event flags c)
        where
          by_want :
              (b : Bool)
              → (if b then handed_to (reaches s) packet c else [])
                  ++ deliveries (reaches s) packet rest
                ≡ deliveries (reaches s) packet (if b then c ∷ rest else rest)
          by_want true = refl
          by_want false = refl

-- The packet that carries an event: its identifier, its size, and its data.
pub record Carries (event : Event) (p : Packet) : Type 0 where
  pub id : p.header.id ≡ event.id
  pub size : p.header.data_size ≡ event.data_size
  pub bytes : take event.data_size p.buffer ≡ take event.data_size event.memory

-- An event that has been sent: a packet that carries it went to its recipients, in their order.
pub record Delivers (event : Event) (flags : ℕ) (s t : Server) : Type 0 where
  pub packet : Packet
  pub carries : Carries event packet
  pub adds : Adds s t (deliveries (reaches s) packet (recipients event flags event.consumers))

pub take_of_memcpy :
    (target source : List ℕ) (n : ℕ)
    → n ≤ length source
    → take n (take n source ++ drop n target) ≡ take n source
take_of_memcpy target source n h =
    let t = take n source in
    ap (λ k. take k (t ++ drop n target)) {x = n} (omega (arith, length-take n source))
    ∙ take-append_left t (drop n target)

event_packet-Carries :
    (env : Env) (event : Event) (flags offset : ℕ)
    → length env.stack.buffer ≡ event_data_size_maximum
    → event.data_size ≤ length event.memory
    → event.data_size ≤ event_data_size_maximum
    → Yields (Carries event) (event_packet env event flags offset)
unfolding event_packet event_header fill_header fill_basic_header
event_packet-Carries env event flags offset room fits small =
    let copied = memcpy_lem env.stack.buffer event.memory event.data_size (omega arith) fits in
    bind _ (Yields-of_eq copied refl) λ b same. yields _ (record {
      id = ground arith;
      size = ground arith;
      bytes =
          ap (take event.data_size) same
          ∙ take_of_memcpy env.stack.buffer event.memory event.data_size fits;
    })

-- For an event with its data inside its memory and its consumers among the clients, `syncs_send_event`
-- sends one packet, with the event's identifier, size and data, to each consumer
-- in the order of their slots, but to the producer only if an echo is asked for: over the connection
-- of a TCP client, to the address of a UDP client, and not at all where the client is closed.
-- Nothing else is output.
pub send_event-Delivers :
    (env : Env) (event : Event) (flags : ℕ) (s : Server)
    → IsEnv env
    → IsSendable s event
    → Yields (Delivers event flags s) (send_event env event flags s)
unfolding send_event
send_event-Delivers env event flags s v e =
    bind _ (event_packet-Carries env event flags s.sync_offset v.room e.fits e.small)
      λ packet carries.
        weaken (send_to_consumers-Adds env packet event flags event.consumers s e.ranged)
          (λ t adds. record { packet = packet; carries = carries; adds = adds })
