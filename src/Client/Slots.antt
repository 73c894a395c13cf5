-- ===== src/Client/Slots.antt =====
-- libsyncs/syncs-client.c: the tables of a connection.
use syncscribe.Common.{ℕ, List, Bool, Option, none, some, find_index}
use syncscribe.Types.{SyncsId}
use syncscribe.Id.{is_free, idcmp, idcmp_str}
use syncscribe.Client.{ClientEvent, ConnectChannel, Connect}

abbrev pub client_has_id : SyncsId → ClientEvent → Bool
client_has_id id e = idcmp e.id id

abbrev pub client_has_str : List ℕ → ClientEvent → Bool
client_has_str cid e = idcmp_str e.id cid

abbrev pub client_event_free : ClientEvent → Bool
client_event_free e = is_free e.id

abbrev pub client_channel_free : ConnectChannel → Bool
client_channel_free c = is_free c.id

unfoldable pub client_find_event : Connect → SyncsId → Option ℕ
client_find_event s id = find_index (client_has_id id) s.events

unfoldable pub find_event_str : Connect → List ℕ → Option ℕ
find_event_str s cid = find_index (client_has_str cid) s.events

unfoldable pub get_free_event : Connect → Option ℕ
get_free_event s = find_index client_event_free s.events

unfoldable pub get_event_str : Connect → List ℕ → Option ℕ
unfolding find_event_str get_free_event
get_event_str s cid = elim (find_event_str s cid) [ none ↦ get_free_event s | some i ↦ some i ]

unfoldable pub find_free_channel : Connect → Option ℕ
find_free_channel s = find_index client_channel_free s.channels
