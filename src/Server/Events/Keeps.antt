-- ===== src/Server/Events/Keeps.antt =====
-- Changes of one event or one client keep the tables valid, and creating an event does.
use syncscribe.Common.{
  ℕ, ◌<◌, ◌≡◌, ◌∙◌, Option, none, some, inl, inr, arith, ◌==◌, length, get_elem?, find_index,
  find_index-lt-length, length-update, All-update, update, All-get_elem?, length-set, Option-cases,
  Bool-cases, inc32, Yields, bit_and,
}
use syncscribe.Types.{SyncsId, ℤ, negsuc, client_maximum, type_force}
use syncscribe.Server.{Event, Client, Server}
use syncscribe.Server.Slots.{find_event, create_event, event_init, mark_event_free, free_slot}
use syncscribe.Server.Slots.Cases.{find_event-lt-length}
use syncscribe.Server.Send.{put_client, put_event}
use syncscribe.Server.Valid.{IsValidEvent, IsValid, put_event-IsValid, event_init-IsValidEvent}
use syncscribe.Server.Events.{Found, refused, at, find_or_create, set_type}

abbrev pub KeepsValid : Option (ℤ × Server) → Type 0
KeepsValid r = Yields (λ p. IsValid p.1) r

pub get_event-IsValid :
    (s : Server) (i : ℕ) (e : Event) → IsValid s → get_elem? s.events i ≡ some e → IsValidEvent e
get_event-IsValid s i e v h = All-get_elem? IsValidEvent s.events i e v.events h

-- A change of one event that keeps each event valid.
pub update_event-IsValid :
    (s : Server) (i n : ℕ) (f : Event → Event)
    → IsValid s
    → ((e : Event) → IsValidEvent e → IsValidEvent (f e))
    → IsValid (record s { events = update s.events i f; event_count = n })
update_event-IsValid s i n f v k = record {
  events_length = length-update s.events i f ∙ v.events_length;
  clients_length = v.clients_length;
  channels_length = v.channels_length;
  events = All-update IsValidEvent s.events i f v.events k;
}

pub set_type-IsValidEvent :
    (flags : ℕ) (e : Event) → IsValidEvent e → IsValidEvent (set_type flags e)
set_type-IsValidEvent flags e v = record {
  room = v.room;
  fits = v.fits;
  slots = v.slots;
  counted = v.counted;
  once = v.once;
  ranged = v.ranged;
}

pub mark_event_free-IsValidEvent : (e : Event) → IsValidEvent e → IsValidEvent (mark_event_free e)
mark_event_free-IsValidEvent e v = record {
  room = v.room;
  fits = v.fits;
  slots = v.slots;
  counted = v.counted;
  once = v.once;
  ranged = v.ranged;
}

-- Where creating an event ends: nowhere, or at an event of a valid table.
pub data Made : Option (ℕ × Server) → Type 0 where
  nothing : Made none
  made : (i : ℕ) (t : Server) → IsValid t → i < length t.events → Made (some (i, t))

pub create_event-Made : (s : Server) (id : SyncsId) → IsValid s → Made (create_event s id)
unfolding create_event
create_event-Made s id v = elim (Option-cases (find_index free_slot s.events)) [
  | inl full ↦ rw (full, create_event) nothing
  | inr (i, found) ↦
      rw (found, create_event)
        (made i _
          (update_event-IsValid s i (inc32 s.event_count) (event_init id) v
            (λ e w. event_init-IsValidEvent id e w))
          (omega (
            arith,
            find_index-lt-length free_slot s.events i found,
            length-update s.events i (event_init id),
          )))
]

-- A lookup that may create the event ends at an event of a valid table.
pub data Located : Found → Type 0 where
  refuses : (r : ℤ) → Located (refused r)
  finds : (i : ℕ) (t : Server) → IsValid t → i < length t.events → Located (at i t)

pub Located-new :
    (flags : ℕ) {r : Option (ℕ × Server)}
    → Made r
    → Located (elim r [
      | none ↦ refused (negsuc 1)
      | some (i, t) ↦ at i (record t { events = update t.events i (set_type flags) })
    ])
Located-new flags nothing = refuses (negsuc 1)
Located-new flags (made i t v h) =
    finds i (record t { events = update t.events i (set_type flags) })
      (update_event-IsValid t i t.event_count (set_type flags) v (set_type-IsValidEvent flags))
      (omega (arith, h, length-update t.events i (set_type flags)))

pub find_or_create-Located :
    (id : SyncsId) (flags : ℕ) (s : Server) → IsValid s → Located (find_or_create id flags s)
unfolding find_or_create
find_or_create-Located id flags s v = elim (Option-cases (find_event s id)) [
  | inr (i, found) ↦ rw (found, find_or_create) (finds i s v (find_event-lt-length s id i found))
  | inl absent ↦
      rw (absent, find_or_create)
        (elim (Bool-cases (bit_and flags type_force == 0)) [
          | inl keep ↦ rw keep (refuses (negsuc 0))
          | inr force ↦ rw force (Located-new flags (create_event-Made s id v))
        ])
]

pub put_client-IsValid : (s : Server) (c : ℕ) (x : Client) → IsValid s → IsValid (put_client c x s)
put_client-IsValid s c x v = record {
  events_length = v.events_length;
  clients_length = length-set s.clients c x ∙ v.clients_length;
  channels_length = v.channels_length;
  events = v.events;
}

-- An event and a client written back.
pub put_both-IsValid :
    (s : Server) (i c : ℕ) (e : Event) (x : Client)
    → IsValid s
    → IsValidEvent e
    → IsValid (put_client c x (put_event i e s))
put_both-IsValid s i c e x v w =
    put_client-IsValid (put_event i e s) c x (put_event-IsValid s i e v w)

pub in_clients : (s : Server) (c : ℕ) → IsValid s → c < client_maximum → c < length s.clients
in_clients s c v h = omega (arith, v.clients_length)
