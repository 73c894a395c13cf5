-- ===== src/Server/Events/Access.antt =====
-- Reading and writing run to an end and keep the tables valid: no copy leaves its object.
use syncscribe.Common.{
  ℕ, ◌+◌, ◌≤◌, ◌<◌, ◌≡◌, refl, ◌∙◌, List, Option, none, some, arith, ◌==◌, length, get_elem?, take,
  memcpy_lem, length-memcpy, inc32, Yields, yields, bind, Yields-of_eq, Yields-if, Yields-get,
  bit_and, ◌%◌, ◌^◌,
}
use syncscribe.Types.{SyncsId, client_maximum, variable_size_maximum, type_var_mask}
use syncscribe.Server.{Event, Client, Server, Callback, Output}
use syncscribe.Server.Slots.{find_event}
use syncscribe.Server.Send.{Env, put_client, put_event, count_tx}
use syncscribe.Server.Frame.{
  Sent, Sent-refl, IsEnv, send_event-Sent, emit-Sent, client_send-Sent, with_client-Sent,
}
use syncscribe.Server.Valid.{IsValidEvent, IsValid, Sent-IsValid, IsValidEvent-IsSendable}
use syncscribe.Server.Events.{
  Found, refused, at, read_packet, event_at, client_read, written_event, write_at, client_write,
  run_callback,
}
use syncscribe.Server.Events.Keeps.{
  KeepsValid, get_event-IsValid, put_both-IsValid, in_clients, Located, refuses, finds,
  find_or_create-Located,
}

read_packet-Yields :
    (env : Env) (id : SyncsId) (s : Server) (found : Option ℕ)
    → IsEnv env
    → IsValid s
    → Yields (λ _. Unit {0}) (read_packet env id (event_at s found))
unfolding read_packet
read_packet-Yields env id s none w v = yields _ tt
read_packet-Yields env id s (some i) w v =
    go (get_elem? s.events i) (λ e h. get_event-IsValid s i e v h)
  where
    go :
        (o : Option Event)
        → ((e : Event) → o ≡ some e → IsValidEvent e)
        → Yields (λ _. Unit {0}) (read_packet env id o)
    go none k = yields _ tt
    go (some e) k =
        let u = k e refl in
        bind _
          (Yields-of_eq {P = λ _. Unit {0}}
            (memcpy_lem env.stack.buffer e.memory e.data_size (omega (arith, w.room, u.fits))
              (omega (arith, u.room, u.fits)))
            tt)
          λ b _. yields _ tt

-- `syncs_client_read` runs to an end and keeps the tables valid.
pub client_read-IsValid :
    (env : Env) (c : ℕ) (id : SyncsId) (s : Server)
    → IsEnv env
    → IsValid s
    → c < client_maximum
    → KeepsValid (client_read env c id s)
unfolding client_read
client_read-IsValid env c id s w v h =
    bind _ (read_packet-Yields env id s (find_event s id) w v) λ packet _.
      bind _ (client_send-Sent env s c _ _ (in_clients s c v h)) λ r p.
        let u = Sent-IsValid p v in
        bind _ (with_client-Sent r.1 c count_tx (λ x. refl) (in_clients r.1 c u h))
          λ t q. yields _ (Sent-IsValid q u)

pub written_event-IsValidEvent :
    (c counter size : ℕ) (e : Event) (memory : List ℕ)
    → IsValidEvent e
    → length memory ≡ length e.memory
    → size ≤ variable_size_maximum
    → IsValidEvent (written_event c e counter memory size)
unfolding written_event
written_event-IsValidEvent c counter size e memory v long small = record {
  room = long ∙ v.room;
  fits = small;
  slots = v.slots;
  counted = v.counted;
  once = v.once;
  ranged = v.ranged;
}

pub run_callback-Sent :
    (cb : Option Callback) (id : SyncsId) (value : List ℕ) (s : Server)
    → Sent s (run_callback cb id value s)
run_callback-Sent none id value s = Sent-refl s
run_callback-Sent (some cb) id value s = emit-Sent s (Output.call cb id value)

write_at-IsValid :
    (env : Env) (c i : ℕ) (id : SyncsId) (flags : ℕ) (source : List ℕ) (size : ℕ) (s : Server)
    → IsEnv env
    → IsValid s
    → c < client_maximum
    → i < length s.events
    → size ≤ variable_size_maximum
    → size ≤ length source
    → KeepsValid (write_at env c i id flags source size s)
unfolding write_at
write_at-IsValid env c i id flags source size s w v h k small long =
    bind _ (Yields-get s.events i k) λ e at_e.
      Yields-if (bit_and flags type_var_mask == e.data_type) _ _
        (λ _. bind _ (Yields-get s.clients c (in_clients s c v h)) λ x at_x.
          let u = get_event-IsValid s i e v at_e in
          bind _
            (Yields-of_eq {P = λ m. length m ≡ length e.memory}
              (memcpy_lem e.memory source size (omega (arith, u.room, small)) long)
              (length-memcpy e.memory source size (omega (arith, u.room, small)) long))
            λ m same.
              let e' = written_event c e s.update_counter m size in
              let u' = written_event-IsValidEvent c s.update_counter size e m u same small in
              let x' : Client = record x { event_write = inc32 x.event_write } in
              let v1 = put_both-IsValid s i c e' x' v u' in
              let s1 : Server = record (put_client c x' (put_event i e' s)) {
                update_counter = (s.update_counter + 1) % 2 ^ 64;
              } in
              let v2 : IsValid s1 = record {
                events_length = v1.events_length;
                clients_length = v1.clients_length;
                channels_length = v1.channels_length;
                events = v1.events;
              } in
              let s2 = run_callback e.callback id (take size m) s1 in
              let v3 : IsValid s2 =
                Sent-IsValid (run_callback-Sent e.callback id (take size m) s1) v2 in
              bind _
                (send_event-Sent env e' _ s2 w (IsValidEvent-IsSendable s2 e' v3.clients_length u'))
                λ t p. yields _ (Sent-IsValid p v3))
        (λ _. yields _ v)

-- `syncs_client_write` runs to an end and keeps the tables valid, if its size is masked and its
-- data as long.
pub client_write-IsValid :
    (env : Env) (c : ℕ) (id : SyncsId) (flags : ℕ) (source : List ℕ) (size : ℕ) (s : Server)
    → IsEnv env
    → IsValid s
    → c < client_maximum
    → size ≤ variable_size_maximum
    → size ≤ length source
    → KeepsValid (client_write env c id flags source size s)
unfolding client_write
client_write-IsValid env c id flags source size s w v h small long =
    go (find_or_create-Located id flags s v)
  where
    go :
        {found : Found}
        → Located found
        → KeepsValid (elim found [
          | refused r ↦ some (r, s)
          | at i t ↦ write_at env c i id flags source size t
        ])
    go (refuses r) = yields (r, s) v
    go (finds i t u k) = write_at-IsValid env c i id flags source size t w u h k small long
