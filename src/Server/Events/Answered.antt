-- ===== src/Server/Events/Answered.antt =====
-- What a read is answered with, of an event and after a write.
use syncscribe.Common.{
  ℕ, ◌≤◌, ◌<◌, ◌≡◌, refl, ap, ◌∙◌, subst, List, Option, some, true, arith, ◌==◌, length, get_elem?,
  take, ◌>>=◌, memcpy_lem, Yields, yields, bind, weaken, Yields-of_eq, append-nil, bit_and,
}
use syncscribe.Types.{SyncsId, Packet, ℤ, pos, client_maximum, variable_size_maximum, type_var_mask}
use syncscribe.Id.{fill_header, fill_basic_header}
use syncscribe.Server.{Event, Server}
use syncscribe.Server.Slots.{find_event}
use syncscribe.Server.Send.{Env, count_tx, client_send, with_client, tcp_packet, udp_packet}
use syncscribe.Server.Frame.{IsEnv}
use syncscribe.Server.Valid.{IsValidEvent, IsValid}
use syncscribe.Server.Delivery.{
  reaches, Adds, Adds-trans, handed_to, take_of_memcpy, client_send-Adds, with_client-Adds,
}
use syncscribe.Server.Events.{read_packet, event_at, client_read, client_write}
use syncscribe.Server.Events.Keeps.{get_event-IsValid, in_clients}
use syncscribe.Server.Events.Written.{Written, client_write-Written}

-- Client d was sent one packet, for the identifier, with so many bytes and these as the first of them.
pub record Answered (d : ℕ) (id : SyncsId) (size : ℕ) (bytes : List ℕ) (s t : Server) : Type 0 where
  pub packet : Packet
  pub id_is : packet.header.id ≡ id
  pub size_is : packet.header.data_size ≡ size
  pub bytes_are : take size packet.buffer ≡ bytes
  pub adds : Adds s t (handed_to (reaches s) packet d)

-- The packet of an answer.
record IsAnswer (id : SyncsId) (size : ℕ) (bytes : List ℕ) (packet : Packet) : Type 0 where
  id_is : packet.header.id ≡ id
  size_is : packet.header.data_size ≡ size
  bytes_are : take size packet.buffer ≡ bytes

module _ (env : Env) (id : SyncsId) where
  read_packet-IsAnswer :
      (e : Event)
      → IsEnv env
      → IsValidEvent e
      → Yields (IsAnswer id e.data_size (take e.data_size e.memory)) (read_packet env id (some e))
  unfolding read_packet fill_header fill_basic_header
  read_packet-IsAnswer e w v =
      bind _
        (Yields-of_eq
          (memcpy_lem env.stack.buffer e.memory e.data_size (omega (arith, w.room, v.fits))
            (omega (arith, v.room, v.fits)))
          refl)
        λ b same. yields _ (record {
          id_is = refl;
          size_is = omega (arith, v.fits);
          bytes_are =
              ap (take e.data_size) same
              ∙ take_of_memcpy env.stack.buffer e.memory e.data_size
                  (omega (arith, v.room, v.fits));
        })

  answer-Answered :
      (d size : ℕ) (bytes : List ℕ) (o : Option Packet) (s : Server)
      → d < length s.clients
      → Yields (IsAnswer id size bytes) o
      → Yields {A = ℤ × Server}
          (λ r. (r.0 ≡ pos 0) × Answered d id size bytes s r.1)
          (do
            packet ← o
            (r, s') ← client_send env d (tcp_packet packet) (udp_packet packet) s
            s'' ← with_client d count_tx s'
            some (pos 0, s''))
  answer-Answered d size bytes o s h k = bind _ k λ packet is.
      bind _ (client_send-Adds env s d packet h) λ r p.
        bind _ (with_client-Adds r.1 d count_tx (λ x. refl) (omega (arith, p.clients_length)))
          λ t q. yields _ (
            refl,
            record {
              packet = packet;
              id_is = is.id_is;
              size_is = is.size_is;
              bytes_are = is.bytes_are;
              adds =
                  subst (λ o. Adds s t o) (append-nil (handed_to (reaches s) packet d))
                    (Adds-trans p q);
            },
          )

-- At a server with valid tables, a read by one of its clients of an event that exists is answered with one packet to the client that asked, with the
-- event's size and data, and returns 0.
pub client_read-Answered :
    (env : Env) (d i : ℕ) (id : SyncsId) (e : Event) (s : Server)
    → IsEnv env
    → IsValid s
    → d < client_maximum
    → get_elem? s.events i ≡ some e
    → find_event s id ≡ some i
    → Yields
        (λ r. (r.0 ≡ pos 0) × Answered d id e.data_size (take e.data_size e.memory) s r.1)
        (client_read env d id s)
unfolding client_read
client_read-Answered env d i id e s w v h at_e found =
    rw (found, client_read)
      (rw (at_e, event_at)
        (answer-Answered env id d e.data_size (take e.data_size e.memory)
          (read_packet env id (some e)) s (in_clients s d v h)
          (read_packet-IsAnswer env id e w (get_event-IsValid s i e v at_e))))

-- A read that follows a write is answered with what was written: at a server with valid tables, after
-- a write of at most 511 bytes that are there to an existing event in its type by client c, a read by any client d of the same identifier sends d one packet with the
-- size and the bytes of the write.
pub client_read-client_write :
    (env env' : Env) (c d i size : ℕ) (id : SyncsId) (flags : ℕ) (source : List ℕ) (e : Event)
    (s : Server)
    → IsEnv env
    → IsEnv env'
    → IsValid s
    → c < client_maximum
    → d < client_maximum
    → get_elem? s.events i ≡ some e
    → find_event s id ≡ some i
    → (bit_and flags type_var_mask == e.data_type) ≡ true
    → size ≤ variable_size_maximum
    → size ≤ length source
    → Yields
        (λ r.
          Yields
            (λ q. (q.0 ≡ pos 0) × Answered d id size (take size source) r.1 q.1)
            (client_read env' d id r.1))
        (client_write env c id flags source size s)
client_read-client_write env env' c d i size id flags source e s w w' v h k at_e found typed small
      long =
    weaken (client_write-Written env c i size id flags source e s w v h at_e found typed small long)
      λ r p.
        let t = p.1 in
        weaken (client_read-Answered env' d i id t.event r.1 w' t.valid k t.at t.found)
          λ q a. (a.0, reread t a.1)
  where
    reread :
        {t u : Server}
        → (x : Written c i size id flags source e s t)
        → Answered d id x.event.data_size (take x.event.data_size x.event.memory) t u
        → Answered d id size (take size source) t u
    reread {t} {u} x a =
        subst (λ b. Answered d id size b t u) x.stored
          (subst (λ n. Answered d id n (take n x.event.memory) t u) x.size_is a)
