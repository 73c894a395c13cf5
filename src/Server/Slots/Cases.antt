-- ===== src/Server/Slots/Cases.antt =====
-- What creating and freeing an event or a channel does to its table.
use syncscribe.Common.{
  inl, inr, ℕ, ◌<◌, ◌≡◌, ap, true, Option, none, some, length, get_elem?, set, find_index, inc32,
  dec32, Option-cases, find_index-some, find_index-lt-length, update-eq-set,
}
use syncscribe.Types.{SyncsId}
use syncscribe.Id.{is_free, idcmp}
use syncscribe.Server.{Event, Server}
use syncscribe.Server.Slots.{
  create_event, find_event, free_event, event_init, mark_event_free, free_slot, has_id,
}

-- The table with slot i given anew, and the count of events.
abbrev pub with_event : Server → ℕ → Event → ℕ → Server
with_event s i e n = record s { events = set s.events i e; event_count = n }

-- `syncs_create_event` fails on a full table only, and else takes a free slot.
pub data Created (s : Server) (id : SyncsId) (r : Option (ℕ × Server)) : Type 0 where
  no_space : find_index free_slot s.events ≡ none → r ≡ none → Created s id r
  created :
      (i : ℕ) (old : Event)
      → get_elem? s.events i ≡ some old
      → is_free old.id ≡ true
      → r ≡ some (i, with_event s i (event_init id old) (inc32 s.event_count))
      → Created s id r

pub create_event-Created : (s : Server) (id : SyncsId) → Created s id (create_event s id)
unfolding create_event
create_event-Created s id = elim (Option-cases (find_index free_slot s.events)) [
  | inl full ↦ no_space full (rw (full, create_event))
  | inr (i, found) ↦
      let (old, at, free) = find_index-some free_slot s.events i found in
      created i old at free (
        rw (found, create_event)
          (ap (λ es. some (i, record s { events = es; event_count = inc32 s.event_count }))
            (update-eq-set s.events i old (event_init id) at)))
]

pub data Freed (s : Server) (id : SyncsId) (t : Server) : Type 0 where
  unknown : find_event s id ≡ none → t ≡ s → Freed s id t
  freed :
      (i : ℕ) (e : Event)
      → find_event s id ≡ some i
      → get_elem? s.events i ≡ some e
      → idcmp e.id id ≡ true
      → t ≡ with_event s i (mark_event_free e) (dec32 s.event_count)
      → Freed s id t

pub find_event-some :
    (s : Server) (id : SyncsId) (i : ℕ)
    → find_event s id ≡ some i
    → (e : Event) × (get_elem? s.events i ≡ some e) × (idcmp e.id id ≡ true)
unfolding find_event
find_event-some s id i h = find_index-some (has_id id) s.events i h

pub find_event-lt-length :
    (s : Server) (id : SyncsId) (i : ℕ) → find_event s id ≡ some i → i < length s.events
unfolding find_event
find_event-lt-length s id i h = find_index-lt-length (has_id id) s.events i h

pub free_event-Freed : (s : Server) (id : SyncsId) → Freed s id (free_event s id)
unfolding free_event
free_event-Freed s id = elim (Option-cases (find_event s id)) [
  | inl gone ↦ unknown gone (rw (gone, free_event))
  | inr (i, found) ↦
      let (e, at, same) = find_event-some s id i found in
      freed i e found at same (
        rw (found, free_event)
          (ap (λ es. record s { events = es; event_count = dec32 s.event_count })
            (update-eq-set s.events i e mark_event_free at)))
]
