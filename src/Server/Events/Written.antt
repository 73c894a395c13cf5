-- ===== src/Server/Events/Written.antt =====
-- What a write leaves in the event, who is told of it, and what a read then finds.
use syncscribe.Common.{
  ℕ, ◌+◌, ◌≤◌, ◌<◌, ◌≡◌, ◌≢◌, refl, sym, ap, ◌∙◌, subst, List, [], ◌∷◌, ◌++◌, Option, none, some,
  true, arith, ◌==◌, length, get_elem?, find_index, take, drop, memcpy_lem, length-memcpy, inc32,
  Yields, yields, bind, Yields-both, Yields-get, get_elem?-set_self, get_elem?-set_ne,
  find_index-set_same, lt_of_get_elem?, bit_and, bit_or, ◌%◌, ◌^◌, append-nil,
}
use syncscribe.Types.{
  SyncsId, Packet, pos, client_maximum, variable_size_maximum, type_var_mask, type_sync, type_echo,
}
use syncscribe.Server.{Event, Client, Server, Callback, Output}
use syncscribe.Server.Slots.{find_event, has_id}
use syncscribe.Server.Send.{Env, put_client, put_event}
use syncscribe.Server.Frame.{Sent, IsEnv, send_event-Sent, map-set_same}
use syncscribe.Server.Valid.{IsValidEvent, IsValid, Sent-IsValid, IsValidEvent-IsSendable}
use syncscribe.Server.Delivery.{
  reach, reaches, Adds, Adds-trans, deliveries, recipients, Carries, take_of_memcpy,
  send_event-Delivers, Delivers,
}
use syncscribe.Server.Events.{written_event, write_at, client_write, find_or_create, run_callback}
use syncscribe.Server.Events.Keeps.{get_event-IsValid, put_both-IsValid, in_clients}
use syncscribe.Server.Events.Access.{written_event-IsValidEvent, run_callback-Sent}

-- The call of the application's function, if there is one.
abbrev pub called : Option Callback → SyncsId → List ℕ → List Output
called none id value = []
called (some cb) id value = Output.call cb id value ∷ []

-- The flags of a write that reach the consumers.
abbrev pub passed_on : ℕ → ℕ
passed_on flags = bit_and flags (bit_or (bit_or type_var_mask type_sync) type_echo)

-- The server t after client c has written `size` bytes of the source into event i of s, which was e.
pub record Written (c i size : ℕ) (id : SyncsId) (flags : ℕ) (source : List ℕ) (e : Event)
    (s t : Server) : Type 0 where
  pub valid : IsValid t
  pub event : Event
  pub at : get_elem? t.events i ≡ some event
  pub found : find_event t id ≡ some i
  pub others : (j : ℕ) → i ≢ j → get_elem? t.events j ≡ get_elem? s.events j
  pub size_is : event.data_size ≡ size
  pub stored : take size event.memory ≡ take size source
  pub same_type : event.data_type ≡ e.data_type
  pub same_consumers : event.consumers ≡ e.consumers
  pub writer : event.producer ≡ some c
  pub number : event.update_counter ≡ s.update_counter
  pub next : t.update_counter ≡ (s.update_counter + 1) % 2 ^ 64
  pub same_reach : reaches t ≡ reaches s
  pub packet : Packet
  pub carries : Carries event packet
  pub output :
      t.output
      ≡ s.output
        ++ (called e.callback id (take size source)
            ++ deliveries (reaches s) packet (recipients event (passed_on flags) e.consumers))

module _ (env : Env) (c i size : ℕ) (id : SyncsId) (flags : ℕ) (source : List ℕ) (e : Event)
    (s : Server) where
  memory : List ℕ
  memory = take size source ++ drop size e.memory

  after : Event
  after = written_event c e s.update_counter memory size

  counted : Client → Client
  counted x = record x { event_write = inc32 x.event_write }

  put : Client → Server
  put x = record (put_client c (counted x) (put_event i after s)) {
    update_counter = (s.update_counter + 1) % 2 ^ 64;
  }

  run_callback-Adds :
      (cb : Option Callback) (value : List ℕ) (t : Server)
      → Adds t (run_callback cb id value t) (called cb id value)
  run_callback-Adds none value t = record {
    same = refl;
    output = sym (append-nil t.output);
    clients_length = refl;
  }
  run_callback-Adds (some cb) value t = record { same = refl; output = refl; clients_length = refl }

  -- The write of the tables, up to the packets.
  put-IsValid :
      (x : Client)
      → IsValid s
      → get_elem? s.events i ≡ some e
      → size ≤ variable_size_maximum
      → size ≤ length source
      → IsValid (put x) × IsValidEvent after
  unfolding put after memory counted
  put-IsValid x v at_e small long =
      let u = get_event-IsValid s i e v at_e in
      let u' =
        written_event-IsValidEvent c s.update_counter size e
          (take size source ++ drop size e.memory) u
          (length-memcpy e.memory source size (omega (arith, u.room, small)) long) small in
      let v1 = put_both-IsValid s i c after (counted x) v u' in
      (
        record {
          events_length = v1.events_length;
          clients_length = v1.clients_length;
          channels_length = v1.channels_length;
          events = v1.events;
        },
        u',
      )

  put-Written :
      (x : Client) (s2 t : Server)
      → IsValid s
      → get_elem? s.clients c ≡ some x
      → get_elem? s.events i ≡ some e
      → find_event s id ≡ some i
      → size ≤ length source
      → IsValid s2
      → Sent (put x) s2
      → Adds (put x) s2 (called e.callback id (take size source))
      → Sent s2 t
      → Delivers after (passed_on flags) s2 t
      → Written c i size id flags source e s t
  unfolding put after memory counted written_event find_event
  put-Written x s2 t v at_x at_e found long v2 sent1 adds1 sent2 d =
      let events = sent2.events ∙ sent1.events in
      let lt = lt_of_get_elem? s.events i e at_e in
      let same = map-set_same reach s.clients c x (counted x) at_x refl in
      record {
        valid = Sent-IsValid sent2 v2;
        event = after;
        at = ap (λ es. get_elem? es i) events ∙ get_elem?-set_self s.events i after lt;
        found =
            ap (λ es. find_index (has_id id) es) events
            ∙ find_index-set_same (has_id id) s.events i e after at_e refl
            ∙ found;
        others = λ j ne. ap (λ es. get_elem? es j) events ∙ get_elem?-set_ne s.events i j after ne;
        size_is = refl;
        stored = take_of_memcpy e.memory source size long;
        same_type = refl;
        same_consumers = refl;
        writer = refl;
        number = refl;
        next = sent2.update_counter ∙ sent1.update_counter;
        same_reach = d.adds.same ∙ adds1.same ∙ same;
        packet = d.packet;
        carries = d.carries;
        output =
            (Adds-trans adds1 (
              subst
                (λ rs.
                  Adds s2 t
                    (deliveries rs d.packet (recipients after (passed_on flags) e.consumers)))
                (adds1.same ∙ same) d.adds)).output;
      }

  write_at-Written :
      IsEnv env
      → IsValid s
      → c < client_maximum
      → get_elem? s.events i ≡ some e
      → find_event s id ≡ some i
      → (bit_and flags type_var_mask == e.data_type) ≡ true
      → size ≤ variable_size_maximum
      → size ≤ length source
      → Yields
          (λ r. (r.0 ≡ pos 0) × Written c i size id flags source e s r.1)
          (write_at env c i id flags source size s)
  unfolding write_at after memory counted put
  write_at-Written w v h at_e found typed small long =
      let u = get_event-IsValid s i e v at_e in
      rw (at_e, typed)
        (bind _ (Yields-get s.clients c (in_clients s c v h)) λ x at_x.
          let p = put-IsValid x v at_e small long in
          let s2 = run_callback e.callback id (take size memory) (put x) in
          let sent = run_callback-Sent e.callback id (take size memory) (put x) in
          let v2 = Sent-IsValid sent p.0 in
          let ready = IsValidEvent-IsSendable s2 after v2.clients_length p.1 in
          rw (memcpy_lem e.memory source size (omega (arith, u.room, small)) long) (
            bind _
              (Yields-both (send_event-Sent env after (passed_on flags) s2 w ready)
                (send_event-Delivers env after (passed_on flags) s2 w ready))
              λ t k.
                yields _ (
                  refl,
                  put-Written x s2 t v at_x at_e found long v2 sent (called_with x) k.0 k.1,
                )))
    where
      called_with :
          (x : Client)
          → Adds
              (put x)
              (run_callback e.callback id (take size memory) (put x))
              (called e.callback id (take size source))
      called_with x =
          subst
            (λ value.
              Adds (put x) (run_callback e.callback id (take size memory) (put x))
                (called e.callback id value))
            (take_of_memcpy e.memory source size long)
            (run_callback-Adds e.callback (take size memory) (put x))

-- At a server with valid tables, a write by one of its clients of an event that exists, in the event's
-- type and of at most 511 bytes that are there, returns 0. It stores the data and
-- its size in that event and in no other, makes the client its producer and numbers the write by the
-- server's counter, which moves on; the application's function, if there is one, is called with the
-- data, and then a packet with the data goes to the consumers, to the client itself only if it asked
-- for an echo.
pub client_write-Written :
    (env : Env) (c i size : ℕ) (id : SyncsId) (flags : ℕ) (source : List ℕ) (e : Event) (s : Server)
    → IsEnv env
    → IsValid s
    → c < client_maximum
    → get_elem? s.events i ≡ some e
    → find_event s id ≡ some i
    → (bit_and flags type_var_mask == e.data_type) ≡ true
    → size ≤ variable_size_maximum
    → size ≤ length source
    → Yields
        (λ r. (r.0 ≡ pos 0) × Written c i size id flags source e s r.1)
        (client_write env c id flags source size s)
unfolding client_write find_or_create
client_write-Written env c i size id flags source e s w v h at_e found typed small long =
    rw (found, client_write, find_or_create)
      (write_at-Written env c i size id flags source e s w v h at_e found typed small long)
