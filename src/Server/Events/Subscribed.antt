-- ===== src/Server/Events/Subscribed.antt =====
-- What a subscription leads to.
use syncscribe.Common.{
  ℕ, ◌≤◌, ◌<◌, ◌≡◌, refl, sym, ap, ◌∙◌, subst, ◌++◌, some, true, arith, ltb, if◌then◌else◌, length,
  get_elem?, take, memcpy_lem, Yields, yields, bind, weaken, Yields-both, Yields-of_eq, Yields-get,
  get_elem?-set_self, find_index, find_index-set_same, lt_of_get_elem?, append-nil, ltb→lt, ltb→le,
  Yields-if,
}
use syncscribe.Types.{SyncsId, Packet, pos, client_maximum}
use syncscribe.Id.{idcmp, fill_header, fill_basic_header}
use syncscribe.Server.{Event, Client, Server}
use syncscribe.Server.Slots.{find_event, has_id}
use syncscribe.Server.Consumers.{holds, add_client_to_event}
use syncscribe.Server.Send.{Env, put_client, put_event, resend_event, count_tx}
use syncscribe.Server.Frame.{Sent, Sent-refl, IsEnv, IsSendable, resend_event-Sent, map-set_same}
use syncscribe.Server.Valid.{
  IsValidEvent, IsValid, Sent-IsValid, IsValidEvent-IsSendable, already, full, took,
  add_client_to_event-Added,
}
use syncscribe.Server.Membership.{with_consumers, add_client_to_event-IsValidEvent}
use syncscribe.Server.Capacity.{add_client_to_event_joins}
use syncscribe.Server.Delivery.{
  reach, reaches, Adds, Adds-trans, handed_to, Carries, take_of_memcpy, client_send-Adds,
  with_client-Adds,
}
use syncscribe.Server.Events.{accepts, subscribe_at, client_subscribe, find_or_create}
use syncscribe.Server.Events.Keeps.{get_event-IsValid, put_both-IsValid, in_clients}

-- A client whose number is below the event's is sent the event, and no other is.
pub data CaughtUp (c known : ℕ) (e : Event) (s t : Server) : Type 0 where
  told :
      (packet : Packet)
      → known < e.update_counter
      → Carries e packet
      → t.output ≡ s.output ++ handed_to (reaches s) packet c
      → CaughtUp c known e s t
  up_to_date : e.update_counter ≤ known → t.output ≡ s.output → CaughtUp c known e s t

-- The server t after client c has subscribed to event i of s, which was e.
pub record Subscribed (c i : ℕ) (id : SyncsId) (known : ℕ) (e : Event) (s t : Server) : Type 0 where
  pub valid : IsValid t
  pub event : Event
  pub at : get_elem? t.events i ≡ some event
  pub found : find_event t id ≡ some i
  pub slot : ℕ
  pub consumer : find_index (holds c) event.consumers ≡ some slot
  pub otherwise : event ≡ with_consumers e event.consumers event.consumers_count
  pub same_memory : event.memory ≡ e.memory
  pub same_size : event.data_size ≡ e.data_size
  pub same_type : event.data_type ≡ e.data_type
  pub same_number : event.update_counter ≡ e.update_counter
  pub caught_up : CaughtUp c known e s t

record SameEvent (e e' : Event) (x x' : Client) : Type 0 where
  id : e'.id ≡ e.id
  memory : e'.memory ≡ e.memory
  data_size : e'.data_size ≡ e.data_size
  data_type : e'.data_type ≡ e.data_type
  update_counter : e'.update_counter ≡ e.update_counter
  otherwise : e' ≡ with_consumers e e'.consumers e'.consumers_count
  reach_same : reach x' ≡ reach x

joined-SameEvent :
    (c : ℕ) (e : Event) (x : Client)
    → SameEvent e (add_client_to_event c e x).1 x (add_client_to_event c e x).2
joined-SameEvent c e x =
    let same : SameEvent e e x x = record {
      id = refl;
      memory = refl;
      data_size = refl;
      data_type = refl;
      update_counter = refl;
      otherwise = refl;
      reach_same = refl;
    } in
    elim (add_client_to_event-Added c e x) [
      | already i at r ↦ rw r same
      | full absent no_room r ↦ rw r same
      | took i absent at r ↦ rw r (record {
        id = refl;
        memory = refl;
        data_size = refl;
        data_type = refl;
        update_counter = refl;
        otherwise = refl;
        reach_same = refl;
      })
    ]

-- A packet that carries the event goes to the client.
record Resent (c : ℕ) (e : Event) (s t : Server) : Type 0 where
  packet : Packet
  carries : Carries e packet
  adds : Adds s t (handed_to (reaches s) packet c)

resend_event-Resent :
    (env : Env) (c : ℕ) (e : Event) (s : Server)
    → IsEnv env
    → IsSendable s e
    → c < length s.clients
    → Yields (Resent c e s) (resend_event env c e s)
unfolding resend_event fill_header fill_basic_header
resend_event-Resent env c e s w ok h =
    bind _
      (Yields-of_eq
        (memcpy_lem env.stack.buffer e.memory e.data_size (omega (arith, w.room, ok.small)) ok.fits)
        refl)
      λ b same. bind _ (client_send-Adds env s c _ h) λ r p.
        weaken (with_client-Adds r.1 c count_tx (λ x. refl) (omega (arith, p.clients_length)))
          λ t q. record {
            packet = _;
            carries = record {
              id = refl;
              size = omega (arith, ok.small);
              bytes =
                  ap (take e.data_size) same
                  ∙ take_of_memcpy env.stack.buffer e.memory e.data_size ok.fits;
            };
            adds = subst (λ o. Adds s t o) (append-nil _) (Adds-trans p q);
          }

module _ (env : Env) (c i known : ℕ) (id : SyncsId) (e : Event) (s : Server) where
  -- The event and the client as the subscription leaves them.
  event' : Client → Event
  event' x = (add_client_to_event c e x).1

  client' : Client → Client
  client' x = (add_client_to_event c e x).2

  put : Client → Server
  put x = put_client c (client' x) (put_event i (event' x) s)

  caught_up :
      (x : Client)
      → IsEnv env
      → IsSendable (put x) (event' x)
      → c < length (put x).clients
      → reaches (put x) ≡ reaches s
      → SameEvent e (event' x) x (client' x)
      → Yields
          (λ t. Sent (put x) t × CaughtUp c known e s t)
          (if ltb known (event' x).update_counter
            then resend_event env c (event' x) (put x)
            else some (put x))
  unfolding put
  caught_up x w ok h same_reach same =
      Yields-if (ltb known (event' x).update_counter) _ _
        (λ later.
          weaken
            (Yields-both (resend_event-Sent env c (event' x) (put x) w ok h)
              (resend_event-Resent env c (event' x) (put x) w ok h))
            λ t k. (
              k.0,
              told k.1.packet (omega (arith, ltb→lt _ _ later, same.update_counter))
                  (record {
                    id = k.1.carries.id ∙ same.id;
                    size = k.1.carries.size ∙ same.data_size;
                    bytes =
                        ap (λ n. take n k.1.packet.buffer) (sym same.data_size)
                        ∙ k.1.carries.bytes
                        ∙ (λ j. take (same.data_size j) (same.memory j));
                  })
                  (k.1.adds.output ∙ ap (λ rs. s.output ++ handed_to rs k.1.packet c) same_reach),
            ))
        (λ known_all. yields _ (
          Sent-refl (put x),
          up_to_date (omega (arith, ltb→le _ _ known_all, same.update_counter)) refl,
        ))

  put-Subscribed :
      (x : Client) (t : Server)
      → IsValid s
      → c < client_maximum
      → get_elem? s.events i ≡ some e
      → find_event s id ≡ some i
      → IsValidEvent e
      → SameEvent e (event' x) x (client' x)
      → IsValid (put x)
      → Sent (put x) t
      → CaughtUp c known e s t
      → Subscribed c i id known e s t
  unfolding find_event put event'
  put-Subscribed x t v h at_e found u same v' sent caught =
      let joins = add_client_to_event_joins c e x u h in
      let e' = (add_client_to_event c e x).1 in
      record {
        valid = Sent-IsValid sent v';
        event = e';
        at =
            ap (λ es. get_elem? es i) sent.events
            ∙ get_elem?-set_self s.events i e' (lt_of_get_elem? s.events i e at_e);
        found =
            ap (find_index (has_id id)) sent.events
            ∙ find_index-set_same (has_id id) s.events i e e' at_e (ap (λ a. idcmp a id) same.id)
            ∙ found;
        slot = joins.1.0;
        consumer = joins.1.1;
        otherwise = same.otherwise;
        same_memory = same.memory;
        same_size = same.data_size;
        same_type = same.data_type;
        same_number = same.update_counter;
        caught_up = caught;
      }

-- At a server with valid tables, a subscription of one of its clients to an event that exists, of a
-- type that it accepts, returns 0. The client is among
-- the event's consumers then, the event is as it was but for its consumers and their number, and the client is sent the event's
-- data at once if its number is above the one that the client has named, and nothing else.
pub client_subscribe-Subscribed :
    (env : Env) (c i known : ℕ) (id : SyncsId) (flags : ℕ) (e : Event) (s : Server)
    → IsEnv env
    → IsValid s
    → c < client_maximum
    → get_elem? s.events i ≡ some e
    → find_event s id ≡ some i
    → accepts e flags ≡ true
    → Yields
        (λ r. (r.0 ≡ pos 0) × Subscribed c i id known e s r.1)
        (client_subscribe env c id flags known s)
unfolding client_subscribe find_or_create subscribe_at put event' client'
client_subscribe-Subscribed env c i known id flags e s w v h at_e found ok =
    let u = get_event-IsValid s i e v at_e in
    rw (found, client_subscribe, find_or_create)
      (rw at_e (
        bind _ (Yields-get s.clients c (in_clients s c v h)) λ x at_x. rw ok (
          let e' = (add_client_to_event c e x).1 in
          let x' = (add_client_to_event c e x).2 in
          let u' = add_client_to_event-IsValidEvent c e x u h in
          let v' = put_both-IsValid s i c e' x' v u' in
          let same = joined-SameEvent c e x in
          bind _
            (caught_up env c i known id e s x w
              (IsValidEvent-IsSendable (put_client c x' (put_event i e' s)) e' v'.clients_length u')
              (in_clients (put_client c x' (put_event i e' s)) c v' h)
              (map-set_same reach s.clients c x x' at_x same.reach_same) same)
            λ t k.
              yields _
                (refl, put-Subscribed env c i known id e s x t v h at_e found u same v' k.0 k.1))))
