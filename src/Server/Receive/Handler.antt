-- ===== src/Server/Receive/Handler.antt =====
-- `syncs_client_handler`: what a read from a TCP client leads to.
use syncscribe.Common.{
  weaken, ltb→le, ℕ, ◌+◌, ◌≤◌, ◌<◌, ◌≡◌, ◌∙◌, List, [], ◌++◌, Option, some, arith, ltb, ◌==◌,
  length, take, drop, get_elem?, get_elem?-set_self, length-append, length-take, length-drop, ◌>>=◌,
  Yields, yields, bind, Yields-if, Yields-get, ltb→lt, Bool-cases, inl, inr,
}
use syncscribe.Types.{client_maximum, header_size, variable_size_maximum, channel_ticket_size}
use syncscribe.Server.{Server, Client}
use syncscribe.Server.Send.{Env, put_client, with_client}
use syncscribe.Server.Frame.{IsEnv}
use syncscribe.Server.Valid.{IsValid}
use syncscribe.Server.Events.Keeps.{put_client-IsValid, in_clients}
use syncscribe.Server.Receive.{
  Recv, error_transient, error_other, Scan, received, keep_rest, store, client_handler,
}
use syncscribe.Server.Consumers.Closing.{close_client_socket-Closed}
use syncscribe.Server.Receive.Loop.{Ended, ended, scan_packets-Ended}

length-store :
    (bytes : List ℕ) (x : Client)
    → x.buffer_recv + length bytes ≤ length x.buffer
    → length (store bytes x).buffer ≡ length x.buffer
length-store bytes x h = omega (
  arith,
  length-append (take x.buffer_recv x.buffer)
      (bytes ++ drop (x.buffer_recv + length bytes) x.buffer),
  length-append bytes (drop (x.buffer_recv + length bytes) x.buffer),
  length-take x.buffer_recv x.buffer,
  length-drop (x.buffer_recv + length bytes) x.buffer,
)

-- What the handler leaves of the client: the buffer in its length, and less than a packet in it.
pub record Rests (c : ℕ) (x : Client) (t : Server) : Type 0 where
  pub valid : IsValid t
  pub client : Client
  pub at : get_elem? t.clients c ≡ some client
  pub same_buffer : length client.buffer ≡ length x.buffer
  pub short : client.buffer_recv < header_size + variable_size_maximum

length-keep_rest :
    (z : Scan) (x : Client)
    → z.available ≤ length z.memory
    → length (keep_rest z x).buffer ≡ length z.before + length z.memory
length-keep_rest z x h = elim (Bool-cases (z.available == 0)) [
  | inl done ↦ rw done (length-append z.before z.memory)
  | inr left ↦ rw left (
      omega (
        arith,
        length-append (take z.available z.memory) (drop z.available (z.before ++ z.memory)),
        length-append z.before z.memory,
        length-take z.available z.memory,
        length-drop z.available (z.before ++ z.memory),
      ))
]

-- The client's buffer has room for what was read, and for a ticket behind it.
abbrev pub HasRoom : Recv → Client → Type 0
HasRoom error_transient x = Unit {0}
HasRoom error_other x = Unit {0}
HasRoom (received bytes) x = x.buffer_recv + length bytes + channel_ticket_size ≤ length x.buffer

module _ (env : ℕ → Env) (c : ℕ) (w : (n : ℕ) → IsEnv (env n)) (h : c < client_maximum) where
  rest-Rests :
      (z : Scan) (x : Client)
      → IsValid z.server
      → z.available ≤ length z.memory
      → z.available < header_size + variable_size_maximum
      → length z.before + length z.memory ≡ length x.buffer
      → Yields (Rests c x) (with_client c (keep_rest z) z.server)
  rest-Rests z x v inside short size =
      let lt = in_clients z.server c v h in
      bind _ (Yields-get z.server.clients c lt) λ y at_y. yields _ (record {
        valid = put_client-IsValid z.server c (keep_rest z y) v;
        client = keep_rest z y;
        at = get_elem?-set_self z.server.clients c (keep_rest z y) lt;
        same_buffer = length-keep_rest z y inside ∙ size;
        short = short;
      })

  -- At a server with valid tables, a read of at least a header's bytes from a client whose buffer has
  -- room for them, and for a ticket behind them, is handled to an end: the tables are valid, and the
  -- client's buffer has its length and counts less than the largest packet.
  pub client_handler-Rests :
      (bytes : List ℕ) (s : Server) (x : Client)
      → IsValid s
      → get_elem? s.clients c ≡ some x
      → header_size ≤ length bytes
      → x.buffer_recv + length bytes + channel_ticket_size ≤ length x.buffer
      → Yields (Rests c x) (client_handler env c (received bytes) s)
  unfolding client_handler
  client_handler-Rests bytes s x v at_x long room = rw at_x (
      Yields-if (ltb (length bytes) header_size) _ _
        (λ short. absurd (omega (arith, ltb→lt _ _ short)))
        (λ _.
          bind _
            (scan_packets-Ended env c w h (available + 1) start
              (record {
                valid = put_client-IsValid s c (store bytes x) v;
                inside = omega (arith, stored);
              })
              (omega arith))
            (λ o e. finish e)))
    where
      available : ℕ
      available = x.buffer_recv + length bytes

      stored : length (store bytes x).buffer ≡ length x.buffer
      stored = length-store bytes x (omega arith)

      start : Scan
      start = record {
        before = [];
        memory = (store bytes x).buffer;
        available = available;
        server = put_client c (store bytes x) s;
      }

      finish :
          {o : Option Scan}
          → Ended start o
          → Yields (Rests c x) (o >>= λ z. with_client c (keep_rest z) z.server)
      finish (ended z stop) =
          rest-Rests z x stop.valid (omega (arith, stop.inside)) stop.short
            (omega (arith, stop.size, stored))

  -- Any read keeps the tables valid, also one of fewer bytes than a header, and one that fails.
  pub client_handler-IsValid :
      (got : Recv) (s : Server) (x : Client)
      → IsValid s
      → get_elem? s.clients c ≡ some x
      → HasRoom got x
      → Yields IsValid (client_handler env c got s)
  unfolding client_handler
  client_handler-IsValid error_transient s x v at_x room = yields s v
  client_handler-IsValid error_other s x v at_x room =
      weaken (close_client_socket-Closed c s v h) λ t q. q.valid
  client_handler-IsValid (received bytes) s x v at_x room =
      elim (Bool-cases (ltb (length bytes) header_size)) [
        | inl short ↦
            let v' = put_client-IsValid s c (store bytes x) v in
            rw (at_x, short)
              (Yields-if (length bytes == 0) _ _
                (λ _.
                  weaken (close_client_socket-Closed c (put_client c (store bytes x) s) v' h)
                    λ t q. q.valid)
                (λ _. yields _ v'))
        | inr long ↦
            weaken (client_handler-Rests bytes s x v at_x (ltb→le _ _ long) room) λ t q. q.valid
      ]
