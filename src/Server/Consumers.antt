-- ===== src/Server/Consumers.antt =====
-- libsyncs/syncs-server.c: the consumers of an event, and the end of a client's connection.
pub mod Closing
use syncscribe.Common.{
  ℕ, Bool, true, false, List, [], ◌∷◌, ◌++◌, map, Option, none, some, ◌==◌, if◌then◌else◌,
  get_elem?, set, find_index, inc32, dec32, ◌>>=◌,
}
use syncscribe.Types.{ℤ, pos, negsuc}
use syncscribe.Id.{is_free}
use syncscribe.Server.{Event, Client, Channel, Server, Output}
use syncscribe.Server.Slots.{mark_channel_free}

-- `slot == c`, for the pointer to client c.
abbrev pub holds : ℕ → Option ℕ → Bool
holds c none = false
holds c (some d) = d == c

abbrev pub is_null : Option ℕ → Bool
is_null none = true
is_null (some c) = false

-- The return code, the event and the client afterwards. The only call passes `event->consumers` as
-- the array.
unfoldable pub add_client_to_event : ℕ → Event → Client → ℤ × Event × Client
add_client_to_event c event client = elim (find_index (holds c) event.consumers) [
  | some i ↦ (pos 0, event, client)
  | none ↦ elim (find_index is_null event.consumers) [
    | none ↦ (negsuc 0, event, client)
    | some i ↦ (
      pos 0,
      record event {
        consumers = set event.consumers i (some c);
        consumers_count = inc32 event.consumers_count;
      },
      record client { event_subscribe = inc32 client.event_subscribe },
    )
  ]
]

unfoldable pub remove_client_from_event : ℕ → Event → Client → Event × Client
remove_client_from_event c event client = elim (find_index (holds c) event.consumers) [
  | none ↦ (event, client)
  | some i ↦ (
    record event {
      consumers = set event.consumers i none;
      consumers_count = dec32 event.consumers_count;
    },
    record client { event_subscribe = dec32 client.event_subscribe },
  )
]

-- The loop of `syncs_remove_client_from_events` over the events that are in use.
unfoldable pub remove_client_from_events : ℕ → List Event → Client → List Event × Client
unfolding remove_client_from_event
remove_client_from_events c [] client = ([], client)
remove_client_from_events c (e ∷ es) client =
    let (e', client') = if is_free e.id then (e, client) else remove_client_from_event c e client in
    let (es', client'') = remove_client_from_events c es client' in (e' ∷ es', client'')

release_channel : ℕ → Channel → Channel
release_channel c channel =
    if is_free channel.id
    then channel
    else if holds c channel.producer
    then mark_channel_free channel
    else channel

-- `channel_count` stays as it is.
unfoldable pub remove_channels_of_client : ℕ → List Channel → List Channel
unfolding release_channel
remove_channels_of_client c channels = map (release_channel c) channels

unfoldable pub close_client_socket : ℕ → Server → Option Server
unfolding remove_client_from_events remove_channels_of_client
close_client_socket c s = do
  client ← get_elem? s.clients c
  let (events, client') = remove_client_from_events c s.events client
  some (record s {
    events = events;
    channels = remove_channels_of_client c s.channels;
    clients = set s.clients c (record client' { socketfd = negsuc 0 });
    output = s.output ++ (Output.epoll_del client.socketfd ∷ Output.close client.socketfd ∷ []);
  })
