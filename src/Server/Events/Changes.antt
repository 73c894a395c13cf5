-- ===== src/Server/Events/Changes.antt =====
-- The requests about events run to an end, whatever the packet holds, and keep the tables valid.
use syncscribe.Common.{
  ℕ, ◌≤◌, ◌<◌, ◌≡◌, refl, ◌∙◌, List, Option, none, some, inl, inr, arith, ltb, ◌==◌, length,
  Option-cases, memcpy_lem, length-memcpy, dec32, Yields, yields, bind, weaken, Yields-of_eq,
  Yields-if, Yields-get, bit_and,
}
use syncscribe.Types.{SyncsId, negsuc, client_maximum, variable_size_maximum, type_force}
use syncscribe.Id.{get_size_by_type}
use syncscribe.Server.{Server}
use syncscribe.Server.Slots.{find_event, free_event, mark_event_free}
use syncscribe.Server.Slots.Cases.{find_event-lt-length}
use syncscribe.Server.Consumers.{add_client_to_event, remove_client_from_event}
use syncscribe.Server.Send.{Env, put_client, put_event}
use syncscribe.Server.Frame.{IsEnv, resend_event-Sent}
use syncscribe.Server.Valid.{IsValid, Sent-IsValid, IsValidEvent-IsSendable, put_event-IsValid}
use syncscribe.Server.Membership.{
  add_client_to_event-IsValidEvent, remove_client_from_event-IsValidEvent,
}
use syncscribe.Server.Events.{
  Found, refused, at, subscribe_at, client_subscribe, client_unsubscribe, defined_size, copy_data,
  define_at, add_event, accepts,
}
use syncscribe.Server.Events.Keeps.{
  nothing, made, refuses, finds, KeepsValid, get_event-IsValid, update_event-IsValid,
  mark_event_free-IsValidEvent, Made, create_event-Made, Located, find_or_create-Located,
  put_both-IsValid, in_clients,
}

subscribe_at-IsValid :
    (env : Env) (c i flags counter : ℕ) (s : Server)
    → IsEnv env
    → IsValid s
    → c < client_maximum
    → i < length s.events
    → KeepsValid (subscribe_at env c i flags counter s)
unfolding subscribe_at
subscribe_at-IsValid env c i flags counter s w v h k = bind _ (Yields-get s.events i k) λ e at_e.
    bind _ (Yields-get s.clients c (in_clients s c v h)) λ x at_x.
      let added = add_client_to_event c e x in
      let valid_e = add_client_to_event-IsValidEvent c e x (get_event-IsValid s i e v at_e) h in
      let t = put_client c added.2 (put_event i added.1 s) in
      let valid_t = put_both-IsValid s i c added.1 added.2 v valid_e in
      Yields-if (accepts e flags) _ _
        (λ _.
          bind _
            (Yields-if (ltb counter added.1.update_counter) _ _
              (λ _.
                weaken
                  (resend_event-Sent env c added.1 t w
                    (IsValidEvent-IsSendable t added.1 valid_t.clients_length valid_e)
                    (in_clients t c valid_t h))
                  (λ u p. Sent-IsValid p valid_t))
              (λ _. yields t valid_t))
            (λ u p. yields _ p))
        (λ _. yields _ v)

-- `syncs_client_subscribe` runs to an end and keeps the tables valid.
pub client_subscribe-IsValid :
    (env : Env) (c : ℕ) (id : SyncsId) (flags counter : ℕ) (s : Server)
    → IsEnv env
    → IsValid s
    → c < client_maximum
    → KeepsValid (client_subscribe env c id flags counter s)
unfolding client_subscribe
client_subscribe-IsValid env c id flags counter s w v h = go (find_or_create-Located id flags s v)
  where
    go :
        {found : Found}
        → Located found
        → KeepsValid
            (elim found [ refused r ↦ some (r, s) | at i t ↦ subscribe_at env c i flags counter t ])
    go (refuses r) = yields (r, s) v
    go (finds i t u k) = subscribe_at-IsValid env c i flags counter t w u h k

pub client_unsubscribe-IsValid :
    (c : ℕ) (id : SyncsId) (s : Server)
    → IsValid s
    → c < client_maximum
    → KeepsValid (client_unsubscribe c id s)
unfolding client_unsubscribe
client_unsubscribe-IsValid c id s v h = elim (Option-cases (find_event s id)) [
  | inl absent ↦ rw (absent, client_unsubscribe) (yields _ v)
  | inr (i, found) ↦
      rw (found, client_unsubscribe)
        (bind _ (Yields-get s.events i (find_event-lt-length s id i found)) λ e at_e.
          bind _ (Yields-get s.clients c (in_clients s c v h)) λ x at_x. yields _ (
            put_both-IsValid s i c (remove_client_from_event c e x).0
              (remove_client_from_event c e x).1 v
              (remove_client_from_event-IsValidEvent c e x (get_event-IsValid s i e v at_e))))
]

pub get_size_by_type-le : (type : ℕ) → get_size_by_type type ≤ 8
unfolding get_size_by_type
get_size_by_type-le type = ground arith

pub defined_size-le : (flags size : ℕ) → defined_size flags size ≤ variable_size_maximum
unfolding defined_size
defined_size-le flags size = ground (arith, get_size_by_type-le flags)

-- What can be copied into an event: nothing, or from enough bytes.
abbrev pub CanCopy : Option (List ℕ) → ℕ → Type 0
CanCopy none size = Unit {0}
CanCopy (some source) size = size ≤ length source

copy_data-length :
    (source : Option (List ℕ)) (size : ℕ) (memory : List ℕ)
    → CanCopy source size
    → size ≤ length memory
    → Yields (λ m. length m ≡ length memory) (copy_data source size memory)
copy_data-length none size memory h k = yields memory refl
copy_data-length (some source) size memory h k =
    Yields-of_eq (memcpy_lem memory source size k h) (length-memcpy memory source size k h)

define_at-IsValid :
    (i flags : ℕ) (source : Option (List ℕ)) (size : ℕ) (s : Server)
    → IsValid s
    → i < length s.events
    → CanCopy source (defined_size flags size)
    → KeepsValid (define_at i flags source size s)
unfolding define_at
define_at-IsValid i flags source size s v k can = bind _ (Yields-get s.events i k) λ e at_e.
    let w = get_event-IsValid s i e v at_e in
    bind _
      (copy_data-length source (defined_size flags size) e.memory can
        (omega (arith, w.room, defined_size-le flags size)))
      λ m long. yields _ (
        put_event-IsValid s i _ v (record {
          room = long ∙ w.room;
          fits = defined_size-le flags size;
          slots = w.slots;
          counted = w.counted;
          once = w.once;
          ranged = w.ranged;
        }))

-- `syncs_add_event` keeps the tables valid, if its data is as long as the size that it stores.
pub add_event-IsValid :
    (id : SyncsId) (flags : ℕ) (source : Option (List ℕ)) (size : ℕ) (s : Server)
    → IsValid s
    → CanCopy source (defined_size flags size)
    → KeepsValid (add_event id flags source size s)
unfolding add_event
add_event-IsValid id flags source size s v can = elim (Option-cases (find_event s id)) [
  | inr (i, found) ↦
      rw (found, add_event)
        (Yields-if (bit_and flags type_force == 0) _ _ (λ _. yields _ v)
          (λ _. define_at-IsValid i flags source size s v (find_event-lt-length s id i found) can))
  | inl absent ↦ rw (absent, add_event) (go (create_event-Made s id v))
]
  where
    go :
        {r : Option (ℕ × Server)}
        → Made r
        → KeepsValid
            (elim r [ none ↦ some (negsuc 0, s) | some (i, t) ↦ define_at i flags source size t ])
    go nothing = yields _ v
    go (made i t u k) = define_at-IsValid i flags source size t u k can

-- `syncs_free_event` keeps the tables valid.
pub free_event-IsValid : (id : SyncsId) (s : Server) → IsValid s → IsValid (free_event s id)
unfolding free_event
free_event-IsValid id s v = elim (Option-cases (find_event s id)) [
  | inl absent ↦ rw (absent, free_event) v
  | inr (i, found) ↦
      rw (found, free_event)
        (update_event-IsValid s i (dec32 s.event_count) mark_event_free v
          mark_event_free-IsValidEvent)
]
