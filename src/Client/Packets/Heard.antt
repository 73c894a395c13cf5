-- ===== src/Client/Packets/Heard.antt =====
-- How a subscriber hears of an event, and a reader of an answer.
use syncscribe.Common.{
  ℕ, ◌≤◌, ◌≡◌, refl, sym, ap, ◌∙◌, subst, List, [], ◌∷◌, ◌++◌, true, Option, none, some, arith, ltb,
  Bool-cases, inl, inr, if◌then◌else◌, length, take, drop, get_elem?, set, get_elem?-set_self,
  lt_of_get_elem?, memcpy_lem, length-memcpy, append-nil, weaken, Yields, yields, bit_and, bit_or,
}
use syncscribe.Types.{SyncsId, Packet, Header, pos, type_read, type_var_mask}
use syncscribe.Id.{idstr, fill_header_request_str}
use syncscribe.Id.Compare.{idcmp_self}
use syncscribe.Server.{Event, Callback}
use syncscribe.Server.Delivery.{Carries, take_of_memcpy}
use syncscribe.Client.{ClientEvent, Connect, ClientOutput, Outside}
use syncscribe.Client.Slots.{client_find_event}
use syncscribe.Client.Requests.{bare, connect_send, is_open}
use syncscribe.Client.Packets.{process_event, keep_event, call_back, process_read}
use syncscribe.Client.Calls.{
  wait_for_read, Wait, from_queue, take_event, wait_event, read, read_request, is_connected,
}

-- The call of the application's function, if there is one.
abbrev pub client_called : Option Callback → SyncsId → List ℕ → List ClientOutput
client_called none id value = []
client_called (some cb) id value = ClientOutput.call cb id value ∷ []

-- The connection t after event i of s, which was ce, has been heard of as event e of the server.
pub record Heard (e : Event) (i : ℕ) (ce : ClientEvent) (packet : Packet) (s t : Connect)
    : Type 0 where
  pub event : ClientEvent
  pub memory : List ℕ
  pub at : get_elem? t.events i ≡ some event
  pub has_memory : event.memory ≡ some memory
  pub stored : take e.data_size memory ≡ take e.data_size e.memory
  pub size : event.data_size ≡ e.data_size
  pub same_id : event.id ≡ ce.id
  pub same_flags : event.flags ≡ ce.flags
  pub queue : t.events_queue ≡ some i
  pub woken : t.event_wait ≡ 0
  pub output : t.output ≡ s.output ++ client_called ce.callback ce.id (take e.data_size e.memory)
  pub long : e.data_size ≤ length memory

module _ (packet : Packet) (e : Event) (carries : Carries e packet) where
  call_back-output :
      (cb : Option Callback) (id : SyncsId) (s : Connect)
      → (call_back cb id (take packet.header.data_size packet.buffer) s).output
        ≡ s.output ++ client_called cb id (take e.data_size e.memory)
  call_back-output none id s = sym (append-nil s.output)
  call_back-output (some cb) id s =
      ap (λ b. s.output ++ ClientOutput.call cb id b ∷ [])
        (ap (λ n. take n packet.buffer) carries.size ∙ carries.bytes)

  call_back-events :
      (cb : Option Callback) (id : SyncsId) (value : List ℕ) (s : Connect)
      → (call_back cb id value s).events ≡ s.events
  call_back-events none id value s = refl
  call_back-events (some cb) id value s = refl

  -- A packet that carries an event of the server, for an event that the client has subscribed to with
  -- memory that is large enough: the client's function, if there is one, is called with the event's
  -- data, the data stands in the memory with its size, and whoever waits for an event is woken.
  pub process_event-Heard :
      (s : Connect) (i : ℕ) (ce : ClientEvent) (m : List ℕ)
      → client_find_event s packet.header.id ≡ some i
      → get_elem? s.events i ≡ some ce
      → ce.memory ≡ some m
      → e.data_size ≤ length m
      → e.data_size ≤ length packet.buffer
      → Yields (Heard e i ce packet s) (process_event packet s)
  unfolding process_event keep_event
  process_event-Heard s i ce m found at_ce has long there =
      rw (found, process_event)
        (rw at_ce (
          rw (has, keep_event)
            (rw
              (memcpy_lem m packet.buffer packet.header.data_size (omega (arith, carries.size))
                (omega (arith, carries.size)))
              (yields _ (record {
                event = heard;
                memory = m';
                at =
                    ap (λ es. get_elem? (set es i heard) i)
                      (call_back-events ce.callback ce.id value s)
                    ∙ get_elem?-set_self s.events i heard (lt_of_get_elem? s.events i ce at_ce);
                has_memory = refl;
                stored =
                    ap (λ n. take e.data_size (take n packet.buffer ++ drop n m)) carries.size
                    ∙ take_of_memcpy m packet.buffer e.data_size there
                    ∙ carries.bytes;
                size = carries.size;
                same_id = refl;
                same_flags = refl;
                queue = refl;
                woken = refl;
                output = call_back-output ce.callback ce.id s;
                long =
                    omega
                      (arith, carries.size, length-memcpy m packet.buffer packet.header.data_size);
              })))))
    where
      value : List ℕ
      value = take packet.header.data_size packet.buffer

      m' : List ℕ
      m' = take packet.header.data_size packet.buffer ++ drop packet.header.data_size m

      heard : ClientEvent
      heard = record ce {
        memory = some m';
        data_size = packet.header.data_size;
        update_counter = packet.header.update_counter;
      }

  -- The data of the event over the start of the target, with the identifier and the flags of ce.
  abbrev pub Handed : ClientEvent → List ℕ → Option (SyncsId × ℕ × List ℕ × ℕ) × Connect → Type 0
  Handed ce target r =
      (r.0
        ≡ some (ce.id, ce.flags, take e.data_size e.memory ++ drop e.data_size target, e.data_size))
      × (r.1.events_queue ≡ none)

  -- After such a packet the application gets the data without waiting: `syncs_wait_event`, with room for the
  -- event, returns the identifier and the flags of the subscription, the data and its size, and the
  -- queue is empty again.
  pub wait_event-process_event :
      (s : Connect) (i : ℕ) (ce : ClientEvent) (m : List ℕ) (wait : Wait) (target : List ℕ)
      (room : ℕ)
      → client_find_event s packet.header.id ≡ some i
      → get_elem? s.events i ≡ some ce
      → ce.memory ≡ some m
      → e.data_size ≤ length m
      → e.data_size ≤ length packet.buffer
      → e.data_size ≤ room
      → room ≤ length target
      → Yields
          (λ t. Yields (Handed ce target) (wait_event wait target room t))
          (process_event packet s)
  unfolding wait_event take_event
  wait_event-process_event s i ce m wait target room found at_ce has long there fits inside =
      weaken (process_event-Heard s i ce m found at_ce has long there) λ t h.
        subst (λ q. Yields (Handed ce target) (take_event target room (from_queue q wait t)))
          (sym h.queue)
          (rw h.at (
            rw h.has_memory (
              rw (clamp h.event.data_size (omega (arith, h.size))) (
                rw
                  (memcpy_lem target h.memory h.event.data_size (omega (arith, h.size))
                    (omega (arith, h.size, h.long)))
                  (yields _ (
                    (λ j. some (
                      h.same_id j,
                      h.same_flags j,
                      (ap (λ n. take n h.memory ++ drop n target) h.size
                            ∙ ap (λ b. b ++ drop e.data_size target) h.stored)
                          j,
                      h.size j,
                    )),
                    refl,
                  ))))))
    where
      clamp : (n : ℕ) → n ≤ room → (if ltb n room then n else room) ≡ n
      clamp n le = ground arith

-- A send leaves what a read waits for alone.
connect_send-read :
    (env : Outside) (packet : Packet) (size : ℕ) (s : Connect)
    → ((connect_send env packet size s).1.read_wait ≡ s.read_wait)
      × ((connect_send env packet size s).1.read_id ≡ s.read_id)
      × ((connect_send env packet size s).1.read_data ≡ s.read_data)
unfolding connect_send
connect_send-read env packet size s = elim (Bool-cases (is_open s.socketfd)) [
  | inl tcp ↦ rw tcp (refl, refl, refl)
  | inr no_tcp ↦ elim (Bool-cases (is_open s.usocketfd)) [
    | inl udp ↦ rw (no_tcp, udp) (refl, refl, refl)
    | inr no_udp ↦ rw (no_tcp, no_udp) (refl, refl, refl)
  ]
]

read_request-read :
    (env : Outside) (flags : ℕ) (cid : List ℕ) (s : Connect)
    → let q = read_request env flags cid s in
      (q.read_wait ≡ 1) × (q.read_id ≡ idstr cid) × (q.read_data ≡ s.read_data)
unfolding read_request fill_header_request_str
read_request-read env flags cid s =
    let h : Header =
      fill_header_request_str env.stack.header cid
        (bit_or type_read (bit_and flags type_var_mask)) in
    connect_send-read env (bare env h) 60 (record s { read_wait = 1; read_id = h.id })

-- The answer that is waited for ends the wait.
process_read-waited :
    (packet : Packet) (q : Connect)
    → q.read_wait ≡ 1
    → packet.header.id ≡ q.read_id
    → packet.header.data_size ≤ length q.read_data
    → packet.header.data_size ≤ length packet.buffer
    → process_read packet q
      ≡ some (record q {
        read_size = packet.header.data_size;
        read_data =
            take packet.header.data_size packet.buffer ++ drop packet.header.data_size q.read_data;
        read_wait = 0;
      })
unfolding process_read
process_read-waited packet q waits same long there = rw waits (
    rw same (
      rw (idcmp_self q.read_id)
        (rw (memcpy_lem q.read_data packet.buffer packet.header.data_size long there) refl)))

-- A read of a connected client, while which one thing happens: the client processes a packet for the
-- identifier that was asked for, which is what the server sends. The read then returns 0, the data of
-- the answer and its size: for a packet whose data are as long as it says and fit into the client's
-- buffer and into the memory given.
pub read-process_read :
    (env : Outside) (flags : ℕ) (cid target : List ℕ) (room : ℕ) (s : Connect) (packet : Packet)
    (meanwhile : Connect → Connect)
    → is_connected s.socketfd ≡ true
    → packet.header.id ≡ idstr cid
    → packet.header.data_size ≤ length s.read_data
    → packet.header.data_size ≤ length packet.buffer
    → packet.header.data_size ≤ room
    → room ≤ length target
    → ((t : Connect)
        → process_read packet (read_request env flags cid s) ≡ some t
        → meanwhile (read_request env flags cid s) ≡ t)
    → Yields
        (λ r.
          (r.0 ≡ pos 0)
          × (r.1
              ≡ take packet.header.data_size packet.buffer ++ drop packet.header.data_size target)
          × (r.2 ≡ packet.header.data_size))
        (read env (wait_for_read meanwhile) flags cid target room s)
unfolding read
read-process_read env flags cid target room s packet meanwhile connected same long there fits inside
      waits =
    let q = read_request env flags cid s in
    let r = read_request-read env flags cid s in
    let n = packet.header.data_size in
    let met =
      waits _
        (process_read-waited packet q r.0 (same ∙ sym r.1) (omega (arith, ap length r.2)) there) in
    let m = take n packet.buffer ++ drop n q.read_data in
    rw (connected, read)
      (rw (met, wait_for_read)
        (rw (clamp n fits) (
          rw
            (memcpy_lem target m n (omega arith) (
              omega (
                arith,
                length-memcpy q.read_data packet.buffer n (omega (arith, ap length r.2)) there,
                ap length r.2,
              )))
            (yields _ (
              refl,
              ap (λ b. b ++ drop n target) (take_of_memcpy q.read_data packet.buffer n there),
              refl,
            )))))
  where
    clamp : (n : ℕ) → n ≤ room → (if ltb n room then n else room) ≡ n
    clamp n le = ground arith
