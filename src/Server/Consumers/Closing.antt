-- ===== src/Server/Consumers/Closing.antt =====
-- What is left of a client when its connection ends.
use syncscribe.Common.{
  suc, sym, ◌≢◌, get_elem?-set_ne, ℕ, ◌<◌, ◌≡◌, refl, ap, ◌∙◌, false, List, [], ◌∷◌, map, none,
  some, inl, inr, arith, if◌then◌else◌, length, get_elem?, set, All, find_index, length-set,
  Bool-cases, Yields, yields, bind, Yields-get, get_elem?-set_self,
}
use syncscribe.Types.{negsuc, client_maximum}
use syncscribe.Id.{is_free}
use syncscribe.Id.Compare.{is_free-mark_free}
use syncscribe.Server.{Event, Client, Channel, Server}
use syncscribe.Server.Consumers.{
  holds, remove_client_from_event, remove_client_from_events, remove_channels_of_client,
  release_channel, close_client_socket,
}
use syncscribe.Server.Valid.{IsValidEvent, IsValid}
use syncscribe.Server.Membership.{
  remove_client_from_event-IsValidEvent, remove_client_from_event_gone,
}

-- The client is not among the event's consumers, if the event is in use.
abbrev pub NotConsumer : ℕ → Event → Type 0
NotConsumer c e = is_free e.id ≡ false → find_index (holds c) e.consumers ≡ none

-- The channel is not the client's, if it is in use.
abbrev pub NotProducer : ℕ → Channel → Type 0
NotProducer c channel = is_free channel.id ≡ false → holds c channel.producer ≡ false

-- One round of the loop.
round : ℕ → Event → Client → Event × Client
round c e client = if is_free e.id then (e, client) else remove_client_from_event c e client

id-remove :
    (c : ℕ) (e : Event) (client : Client) → (remove_client_from_event c e client).0.id ≡ e.id
unfolding remove_client_from_event
id-remove c e client = ground arith

round_lem :
    (c : ℕ) (e : Event) (client : Client)
    → IsValidEvent e
    → IsValidEvent (round c e client).0
      × NotConsumer c (round c e client).0
      × ((round c e client).0.id ≡ e.id)
unfolding round
round_lem c e client v = elim (Bool-cases (is_free e.id)) [
  | inl free ↦ rw free (v, (λ used. cc), refl)
  | inr used ↦ rw used (
    remove_client_from_event-IsValidEvent c e client v,
    (λ _. remove_client_from_event_gone c e client v),
    id-remove c e client,
  )
]

-- The loop over the events keeps each valid and in its place, and leaves none in use with the client.
remove_client_from_events_lem :
    (c : ℕ) (es : List Event) (client : Client)
    → All IsValidEvent es
    → let r = remove_client_from_events c es client in
      All IsValidEvent r.0 × All (NotConsumer c) r.0 × (map (λ e. e.id) r.0 ≡ map (λ e. e.id) es)
unfolding remove_client_from_events round
remove_client_from_events_lem c [] client v = (tt, tt, refl)
remove_client_from_events_lem c (e ∷ es) client v =
    let here = round_lem c e client v.0 in
    let rest = remove_client_from_events_lem c es (round c e client).1 v.1 in
    ((here.0, rest.0), (here.1, rest.1), λ i. here.2 i ∷ rest.2 i)

length-map : {A B : Type 0} (f : A → B) (xs : List A) → length (map f xs) ≡ length xs
length-map f [] = refl
length-map f (x ∷ xs) = ap suc (length-map f xs)

length_of_map :
    {A B : Type 0} (f : A → B) (xs ys : List A) → map f xs ≡ map f ys → length xs ≡ length ys
length_of_map f xs ys e = sym (length-map f xs) ∙ ap length e ∙ length-map f ys

release_channel-NotProducer :
    (c : ℕ) (channel : Channel) → NotProducer c (release_channel c channel)
unfolding release_channel
release_channel-NotProducer c channel = elim (Bool-cases (is_free channel.id)) [
  | inl free ↦ rw free (λ used. cc)
  | inr used ↦ rw used (elim (Bool-cases (holds c channel.producer)) [
    | inl his ↦ rw his (λ kept. cc (is_free-mark_free channel.id))
    | inr other ↦ rw other (λ _. other)
  ])
]

remove_channels_of_client_lem :
    (c : ℕ) (channels : List Channel)
    → All (NotProducer c) (remove_channels_of_client c channels)
      × (length (remove_channels_of_client c channels) ≡ length channels)
unfolding remove_channels_of_client
remove_channels_of_client_lem c [] = (tt, refl)
remove_channels_of_client_lem c (x ∷ xs) =
    let rest = remove_channels_of_client_lem c xs in
    ((release_channel-NotProducer c x, rest.0), ap suc rest.1)

-- The server after `syncs_close_client_socket`.
pub record Closed (c : ℕ) (s t : Server) : Type 0 where
  pub valid : IsValid t
  pub no_consumer : All (NotConsumer c) t.events
  pub no_producer : All (NotProducer c) t.channels
  pub same_ids : map (λ e. e.id) t.events ≡ map (λ e. e.id) s.events
  pub event_count : t.event_count ≡ s.event_count
  pub closed : (x : Client) → get_elem? t.clients c ≡ some x → x.socketfd ≡ negsuc 0
  pub others : (d : ℕ) → c ≢ d → get_elem? t.clients d ≡ get_elem? s.clients d

socket_of_set :
    (xs : List Client) (c : ℕ) (v x : Client)
    → v.socketfd ≡ negsuc 0
    → c < length xs
    → get_elem? (set xs c v) c ≡ some x
    → x.socketfd ≡ negsuc 0
socket_of_set xs c v x e h k = ground (arith, get_elem?-set_self xs c v h, e, k)

-- At a server with valid tables, closing the connection of one of its clients ends: the tables are valid, the slot is free, every other client is untouched, and no event in
-- use has the client for a consumer nor a channel in use for its producer any more.
pub close_client_socket-Closed :
    (c : ℕ) (s : Server)
    → IsValid s
    → c < client_maximum
    → Yields (Closed c s) (close_client_socket c s)
unfolding close_client_socket
close_client_socket-Closed c s v h =
    let lt : c < length s.clients = omega (arith, v.clients_length) in
    bind _ (Yields-get s.clients c lt) λ x at.
      let events = remove_client_from_events_lem c s.events x v.events in
      let r = remove_client_from_events c s.events x in
      let channels = remove_channels_of_client_lem c s.channels in
      let x' : Client = record r.1 { socketfd = negsuc 0 } in
      yields _ (record {
        valid = record {
          events_length = length_of_map (λ e. e.id) r.0 s.events events.2 ∙ v.events_length;
          clients_length = length-set s.clients c x' ∙ v.clients_length;
          channels_length = channels.1 ∙ v.channels_length;
          events = events.0;
        };
        no_consumer = events.1;
        no_producer = channels.0;
        same_ids = events.2;
        event_count = refl;
        closed = λ y k. socket_of_set s.clients c x' y refl lt k;
        others = λ d ne. get_elem?-set_ne s.clients c d x' ne;
      })
