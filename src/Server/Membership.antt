-- ===== src/Server/Membership.antt =====
-- Joining and leaving the consumers of an event.
use syncscribe.Common.{
  ℕ, ◌≤◌, ◌<◌, ◌≡◌, inl, inr, ◌∙◌, subst, List, Option, none, some, arith, ◌==◌, get_elem?, set,
  find_index, count, length-set, All-set, count-le-length, find_index-some, count-set,
  count_of_none, inc32, dec32, Option-cases, Bool-cases, ==_self, ==_iff, find_index_of_count_zero,
}
use syncscribe.Types.{client_maximum}
use syncscribe.Server.{Event, Client}
use syncscribe.Server.Consumers.{holds, add_client_to_event, remove_client_from_event}
use syncscribe.Server.Frame.{InRange}
use syncscribe.Server.Valid.{
  IsValidEvent, occupied, already, full, took, add_client_to_event-Added, holds-some,
}

-- An event with other consumers and another count.
abbrev pub with_consumers : Event → List (Option ℕ) → ℕ → Event
with_consumers e cs n = record e { consumers = cs; consumers_count = n }

occupied-le : (e : Event) → IsValidEvent e → count occupied e.consumers ≤ client_maximum
occupied-le e v = omega (arith, count-le-length occupied e.consumers, v.slots)

-- The client takes an empty slot.
join-IsValidEvent :
    (c i : ℕ) (e : Event)
    → IsValidEvent e
    → c < client_maximum
    → find_index (holds c) e.consumers ≡ none
    → get_elem? e.consumers i ≡ some none
    → IsValidEvent (with_consumers e (set e.consumers i (some c)) (inc32 e.consumers_count))
join-IsValidEvent c i e v h absent at = record {
  room = v.room;
  fits = v.fits;
  slots = length-set e.consumers i (some c) ∙ v.slots;
  counted =
      omega (arith, count-set occupied e.consumers i none (some c) at, v.counted, occupied-le e v);
  once = once_more;
  ranged = All-set (InRange client_maximum) e.consumers i (some c) v.ranged h;
}
  where
    once_more : (d : ℕ) → count (holds d) (set e.consumers i (some c)) ≤ 1
    once_more d = elim (Bool-cases (c == d)) [
      | inl same ↦
          let e' = (==_iff c d).0 same in
          ground (
            arith,
            count-set (holds d) e.consumers i none (some c) at,
            count_of_none (holds d) e.consumers
                (subst (λ x. find_index (holds x) e.consumers ≡ none) e' absent),
          )
      | inr other ↦ ground (arith, count-set (holds d) e.consumers i none (some c) at, v.once d)
    ]

-- The client's slot is emptied.
leave-IsValidEvent :
    (c i : ℕ) (e : Event)
    → IsValidEvent e
    → get_elem? e.consumers i ≡ some (some c)
    → IsValidEvent (with_consumers e (set e.consumers i none) (dec32 e.consumers_count))
leave-IsValidEvent c i e v at = record {
  room = v.room;
  fits = v.fits;
  slots = length-set {A = Option ℕ} e.consumers i none ∙ v.slots;
  counted =
      omega (arith, count-set occupied e.consumers i (some c) none at, v.counted, occupied-le e v);
  once = λ d. ground (arith, count-set (holds d) e.consumers i (some c) none at, v.once d);
  ranged = All-set (InRange client_maximum) e.consumers i none v.ranged tt;
}

-- `syncs_add_client_to_event` keeps the invariant of a valid event for a client of the table, whatever
-- it answers.
pub add_client_to_event-IsValidEvent :
    (c : ℕ) (e : Event) (client : Client)
    → IsValidEvent e
    → c < client_maximum
    → IsValidEvent (add_client_to_event c e client).1
add_client_to_event-IsValidEvent c e client v h = elim (add_client_to_event-Added c e client) [
  | already i at r ↦ rw r v
  | full absent no_room r ↦ rw r v
  | took i absent at r ↦ rw r (join-IsValidEvent c i e v h absent at)
]

pub data Removed (c : ℕ) (e : Event) (client : Client) (r : Event × Client) : Type 0 where
  absent : find_index (holds c) e.consumers ≡ none → r ≡ (e, client) → Removed c e client r
  left :
      (i : ℕ)
      → get_elem? e.consumers i ≡ some (some c)
      → r ≡ (
        with_consumers e (set e.consumers i none) (dec32 e.consumers_count),
        record client { event_subscribe = dec32 client.event_subscribe },
      )
      → Removed c e client r

pub remove_client_from_event-Removed :
    (c : ℕ) (e : Event) (client : Client) → Removed c e client (remove_client_from_event c e client)
unfolding remove_client_from_event
remove_client_from_event-Removed c e client =
    elim (Option-cases (find_index (holds c) e.consumers)) [
      | inl gone ↦ absent gone (rw (gone, remove_client_from_event))
      | inr (i, found) ↦
          let (slot, at, h) = find_index-some (holds c) e.consumers i found in
          left i (rw (at, holds-some c slot h)) (rw (found, remove_client_from_event))
    ]

-- `syncs_remove_client_from_event` keeps the invariant of a valid event.
pub remove_client_from_event-IsValidEvent :
    (c : ℕ) (e : Event) (client : Client)
    → IsValidEvent e
    → IsValidEvent (remove_client_from_event c e client).0
remove_client_from_event-IsValidEvent c e client v =
    elim (remove_client_from_event-Removed c e client) [
      | absent gone r ↦ rw r v
      | left i at r ↦ rw r (leave-IsValidEvent c i e v at)
    ]

-- After `syncs_remove_client_from_event` a valid event has the client among its consumers no more.
pub remove_client_from_event_gone :
    (c : ℕ) (e : Event) (client : Client)
    → IsValidEvent e
    → find_index (holds c) (remove_client_from_event c e client).0.consumers ≡ none
remove_client_from_event_gone c e client v = elim (remove_client_from_event-Removed c e client) [
  | absent gone r ↦ rw r gone
  | left i at r ↦ rw r (
      find_index_of_count_zero (holds c) (set e.consumers i none)
        (ground (arith, count-set (holds c) e.consumers i (some c) none at, v.once c, ==_self c)))
]
