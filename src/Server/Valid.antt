-- ===== src/Server/Valid.antt =====
-- The invariant of the server's tables.
use syncscribe.Common.{
  ℕ, zero, suc, ◌≤◌, ◌≡◌, inl, inr, refl, sym, ap, ◌∙◌, subst, Bool, true, false, Option, none,
  some, arith, length, get_elem?, set, replicate, All, find_index, count, length-set, All-set,
  All-replicate, length-replicate, find_index-some, inc32, Option-cases, ==_iff,
}
use syncscribe.Types.{
  SyncsId, event_maximum, client_maximum, channel_maximum, variable_size_maximum, ℤ, pos, negsuc,
}
use syncscribe.Server.{Event, Client, Server}
use syncscribe.Server.Slots.{event_init}
use syncscribe.Server.Consumers.{holds, is_null, add_client_to_event}
use syncscribe.Server.Frame.{InRange, Sent, IsSendable}

abbrev pub occupied : Option ℕ → Bool
occupied none = false
occupied (some c) = true

-- The memory and the consumers of an event, in use or not: its size lies within its memory,
-- `consumers_count` counts the consumers, no client is among them twice, and each is a client of
-- the table.
pub record IsValidEvent (e : Event) : Type 0 where
  pub room : length e.memory ≡ variable_size_maximum
  pub fits : e.data_size ≤ variable_size_maximum
  pub slots : length e.consumers ≡ client_maximum
  pub counted : e.consumers_count ≡ count occupied e.consumers
  pub once : (c : ℕ) → count (holds c) e.consumers ≤ 1
  pub ranged : All (InRange client_maximum) e.consumers

pub record IsValid (s : Server) : Type 0 where
  pub events_length : length s.events ≡ event_maximum
  pub clients_length : length s.clients ≡ client_maximum
  pub channels_length : length s.channels ≡ channel_maximum
  pub events : All IsValidEvent s.events

-- Sending keeps the tables valid.
pub Sent-IsValid : {s t : Server} → Sent s t → IsValid s → IsValid t
Sent-IsValid p v = record {
  events_length = ap length p.events ∙ v.events_length;
  clients_length = p.clients_length ∙ v.clients_length;
  channels_length = ap length p.channels ∙ v.channels_length;
  events = subst (All IsValidEvent) (sym p.events) v.events;
}

pub IsValidEvent-IsSendable :
    (s : Server) (e : Event) → length s.clients ≡ client_maximum → IsValidEvent e → IsSendable s e
IsValidEvent-IsSendable s e l v = record {
  fits = omega (arith, v.room, v.fits);
  small = omega (arith, v.fits);
  ranged = subst (λ n. All (InRange n) e.consumers) (sym l) v.ranged;
}

-- A write of a valid event into the table.
pub put_event-IsValid :
    (s : Server) (i : ℕ) (e : Event)
    → IsValid s
    → IsValidEvent e
    → IsValid (record s { events = set s.events i e })
put_event-IsValid s i e v w = record {
  events_length = length-set s.events i e ∙ v.events_length;
  clients_length = v.clients_length;
  channels_length = v.channels_length;
  events = All-set IsValidEvent s.events i e v.events w;
}

pub occupied-none : (n : ℕ) → count occupied (replicate n none) ≡ 0
unfolding count
occupied-none zero = refl
occupied-none (suc n) = omega (arith, occupied-none n)

pub holds-none : (c n : ℕ) → count (holds c) (replicate n none) ≡ 0
unfolding count
holds-none c zero = refl
holds-none c (suc n) = omega (arith, holds-none c n)

pub event_init-IsValidEvent :
    (id : SyncsId) (e : Event) → IsValidEvent e → IsValidEvent (event_init id e)
unfolding event_init
event_init-IsValidEvent id e v = record {
  room = length-set e.memory 0 0 ∙ v.room;
  fits = omega arith;
  slots = length-replicate {A = Option ℕ} client_maximum none;
  counted = sym (occupied-none client_maximum);
  once = λ c. omega (arith, holds-none c client_maximum);
  ranged = All-replicate (InRange client_maximum) client_maximum none tt;
}

-- What `syncs_add_client_to_event` did: the client was a consumer already, or the event was full, or the
-- client took an empty slot.
pub data Added (c : ℕ) (e : Event) (client : Client) (r : ℤ × Event × Client) : Type 0 where
  already :
      (i : ℕ)
      → get_elem? e.consumers i ≡ some (some c)
      → r ≡ (pos 0, e, client)
      → Added c e client r
  full :
      find_index (holds c) e.consumers ≡ none
      → find_index is_null e.consumers ≡ none
      → r ≡ (negsuc 0, e, client)
      → Added c e client r
  took :
      (i : ℕ)
      → find_index (holds c) e.consumers ≡ none
      → get_elem? e.consumers i ≡ some none
      → r ≡ (
        pos 0,
        record e {
          consumers = set e.consumers i (some c);
          consumers_count = inc32 e.consumers_count;
        },
        record client { event_subscribe = inc32 client.event_subscribe },
      )
      → Added c e client r

pub holds-some : (c : ℕ) (slot : Option ℕ) → holds c slot ≡ true → slot ≡ some c
holds-some c none h = cc
holds-some c (some d) h = ap some ((==_iff d c).0 h)

null_none : (slot : Option ℕ) → is_null slot ≡ true → slot ≡ none
null_none none h = refl
null_none (some d) h = cc

pub add_client_to_event-Added :
    (c : ℕ) (e : Event) (client : Client) → Added c e client (add_client_to_event c e client)
unfolding add_client_to_event
add_client_to_event-Added c e client = elim (Option-cases (find_index (holds c) e.consumers)) [
  | inr (i, found) ↦
      let (slot, at, h) = find_index-some (holds c) e.consumers i found in
      already i (rw (at, holds-some c slot h)) (rw (found, add_client_to_event))
  | inl absent ↦ elim (Option-cases (find_index is_null e.consumers)) [
    | inl no_room ↦
        full absent no_room (rw (absent, add_client_to_event) (rw (no_room, add_client_to_event)))
    | inr (i, room) ↦
        let (slot, at, h) = find_index-some is_null e.consumers i room in
        took i absent (rw (at, null_none slot h))
          (rw (absent, add_client_to_event) (rw (room, add_client_to_event)))
  ]
]
