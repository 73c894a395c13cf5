-- ===== src/Server/Api/Keeps.antt =====
-- The calls of the application keep the tables valid.
use syncscribe.Common.{
  ℕ, ◌≤◌, ◌<◌, ◌≡◌, sym, ◌∙◌, List, Option, none, some, arith, ◌==◌, ltb, if◌then◌else◌, length,
  update, inl, inr, Option-cases, Bool-cases, yields, bind, Yields-if, Yields-get, Yields-of_eq,
  memcpy_lem, length-memcpy, bit_and, length-replicate, All-replicate,
}
use syncscribe.Types.{
  SyncsId, ℤ, pos, negsuc, variable_size_maximum, event_maximum, client_maximum, channel_maximum,
  type_force,
}
use syncscribe.Id.{idstr, get_size_by_type, mark_free}
use syncscribe.Server.{Event, Server, Callback}
use syncscribe.Server.Slots.{find_event}
use syncscribe.Server.Slots.Cases.{find_event-lt-length}
use syncscribe.Server.Send.{Env, put_event}
use syncscribe.Server.Frame.{IsEnv, send_event-Sent, InRange}
use syncscribe.Server.Valid.{
  IsValidEvent, IsValid, Sent-IsValid, IsValidEvent-IsSendable, put_event-IsValid, occupied-none,
  holds-none,
}
use syncscribe.Server.Events.Keeps.{
  KeepsValid, Made, nothing, made, create_event-Made, update_event-IsValid, get_event-IsValid,
}
use syncscribe.Server.Events.Changes.{add_event-IsValid, free_event-IsValid, CanCopy}
use syncscribe.Server.Events.{defined_size}
use syncscribe.Server.Api.{
  zero_event, zero_client, zero_channel, zero_id, structure_init, server_create, Target, fails,
  event, find_or_force, set_callback, server_subscribe_event, server_unsubscribe_event, released,
  server_write_at, server_write, server_define, server_undefine,
}

-- A lookup of the application ends with a code, or at an event of a valid table.
data Targets : Target → Type 0 where
  no_event : (r : ℤ) → Targets (fails r)
  on_event : (i : ℕ) (t : Server) → IsValid t → i < length t.events → Targets (event i t)

find_or_force-Targets :
    (id : SyncsId) (flags : ℕ) (s : Server) → IsValid s → Targets (find_or_force id flags s)
unfolding find_or_force
find_or_force-Targets id flags s v = elim (Option-cases (find_event s id)) [
  | inr (i, found) ↦ rw (found, find_or_force) (on_event i s v (find_event-lt-length s id i found))
  | inl absent ↦
      rw (absent, find_or_force)
        (elim (Bool-cases (bit_and flags type_force == 0)) [
          | inl keep ↦ rw keep (no_event (negsuc 0))
          | inr force ↦ rw force (created (create_event-Made s id v))
        ])
]
  where
    created :
        {r : Option (ℕ × Server)}
        → Made r
        → Targets (elim r [ none ↦ fails (negsuc 1) | some (i, t) ↦ event i t ])
    created nothing = no_event (negsuc 1)
    created (made i t u k) = on_event i t u k

set_callback-IsValidEvent :
    (cb : Option Callback) (e : Event) → IsValidEvent e → IsValidEvent (set_callback cb e)
set_callback-IsValidEvent cb e v = record {
  room = v.room;
  fits = v.fits;
  slots = v.slots;
  counted = v.counted;
  once = v.once;
  ranged = v.ranged;
}

pub server_subscribe_event-IsValid :
    (flags : ℕ) (cid : List ℕ) (cb : Callback) (s : Server)
    → IsValid s
    → IsValid (server_subscribe_event flags cid cb s).1
unfolding server_subscribe_event
server_subscribe_event-IsValid flags cid cb s v = go (find_or_force-Targets (idstr cid) flags s v)
  where
    go :
        {target : Target}
        → Targets target
        → IsValid
            (elim target as (λ x. ℤ × Server) [
              | fails r ↦ (r, s)
              | event i t ↦
                  (pos 0, record t { events = update t.events i (set_callback (some cb)) })
            ]).1
    go (no_event r) = v
    go (on_event i t u k) =
        update_event-IsValid t i t.event_count (set_callback (some cb)) u
          (set_callback-IsValidEvent (some cb))

pub server_unsubscribe_event-IsValid :
    (cid : List ℕ) (s : Server) → IsValid s → IsValid (server_unsubscribe_event cid s)
unfolding server_unsubscribe_event
server_unsubscribe_event-IsValid cid s v = elim (Option-cases (find_event s (idstr cid))) [
  | inl absent ↦ rw (absent, server_unsubscribe_event) v
  | inr (i, found) ↦
      rw (found, server_unsubscribe_event)
        (update_event-IsValid s i s.event_count (set_callback none) v
          (set_callback-IsValidEvent none))
]

-- The size that `syncs_server_write` copies.
abbrev pub copied_size : ℕ → ℕ → ℕ
copied_size flags size = if size == 0 then get_size_by_type flags else size

server_write_at-IsValid :
    (env : Env) (i flags : ℕ) (source : List ℕ) (size : ℕ) (s : Server)
    → IsEnv env
    → IsValid s
    → i < length s.events
    → copied_size flags size ≤ variable_size_maximum
    → copied_size flags size ≤ length source
    → KeepsValid (server_write_at env i flags source size s)
unfolding server_write_at
server_write_at-IsValid env i flags source size s w v k small long =
    bind _ (Yields-get s.events i k) λ e at_e.
      let u = get_event-IsValid s i e v at_e in
      let n = copied_size flags size in
      bind _
        (Yields-of_eq {P = λ m. length m ≡ length e.memory}
          (memcpy_lem e.memory source n (omega (arith, u.room, small)) long)
          (length-memcpy e.memory source n (omega (arith, u.room, small)) long))
        λ m same.
          let e' = released m n e in
          let u' : IsValidEvent e' = record {
            room = same ∙ u.room;
            fits = small;
            slots = u.slots;
            counted = u.counted;
            once = u.once;
            ranged = u.ranged;
          } in
          let v' = put_event-IsValid s i e' v u' in
          bind _
            (send_event-Sent env e' flags (put_event i e' s) w
              (IsValidEvent-IsSendable (put_event i e' s) e' v'.clients_length u'))
            λ t p. yields _ (Sent-IsValid p v')

pub server_write-IsValid :
    (env : Env) (flags : ℕ) (cid source : List ℕ) (size : ℕ) (s : Server)
    → IsEnv env
    → IsValid s
    → copied_size flags size ≤ variable_size_maximum
    → copied_size flags size ≤ length source
    → KeepsValid (server_write env flags cid source size s)
unfolding server_write
server_write-IsValid env flags cid source size s w v small long =
    go (find_or_force-Targets (idstr cid) flags s v)
  where
    go :
        {target : Target}
        → Targets target
        → KeepsValid (elim target [
          | fails r ↦ some (r, s)
          | event i t ↦ server_write_at env i flags source size t
        ])
    go (no_event r) = yields _ v
    go (on_event i t u k) = server_write_at-IsValid env i flags source size t w u k small long

pub server_define-IsValid :
    (cid : List ℕ) (flags : ℕ) (source : Option (List ℕ)) (size : ℕ) (s : Server)
    → IsValid s
    → CanCopy source (defined_size flags size)
    → KeepsValid (server_define cid flags source size s)
unfolding server_define
server_define-IsValid cid flags source size s v can =
    Yields-if (ltb variable_size_maximum size) _ _ (λ _. yields _ v)
      (λ _. add_event-IsValid (idstr cid) flags source size s v can)

pub server_undefine-IsValid :
    (cid : List ℕ) (s : Server) → IsValid s → IsValid (server_undefine cid s).1
unfolding server_undefine
server_undefine-IsValid cid s v = free_event-IsValid (idstr cid) s v

zero_event-IsValidEvent : IsValidEvent (record zero_event { id = mark_free zero_id })
zero_event-IsValidEvent = record {
  room = length-replicate {A = ℕ} variable_size_maximum 0;
  fits = omega arith;
  slots = length-replicate {A = Option ℕ} client_maximum none;
  counted = sym (occupied-none client_maximum);
  once = λ c. omega (arith, holds-none c client_maximum);
  ranged = All-replicate (InRange client_maximum) client_maximum none tt;
}

structure_init-IsValid : IsValid structure_init
unfolding structure_init
structure_init-IsValid = record {
  events_length = length-replicate event_maximum (record zero_event { id = mark_free zero_id });
  clients_length = length-replicate client_maximum (record zero_client { socketfd = negsuc 0 });
  channels_length =
      length-replicate channel_maximum (record zero_channel { id = mark_free zero_id });
  events =
      All-replicate IsValidEvent event_maximum (record zero_event { id = mark_free zero_id })
        zero_event-IsValidEvent;
}

-- A server that has been created has valid tables.
pub server_create-IsValid : (cid : Option (List ℕ)) → IsValid (server_create cid)
unfolding server_create
server_create-IsValid none = structure_init-IsValid
server_create-IsValid (some cid) =
    let v = structure_init-IsValid in
    record {
      events_length = v.events_length;
      clients_length = v.clients_length;
      channels_length = v.channels_length;
      events = v.events;
    }
