-- ===== src/Server/Run.antt =====
-- The server as a whole: what can happen to it, one thing at a time, and where that leads.
use syncscribe.Common.{ℕ, ◌≤◌, ◌<◌, ◌≡◌, List, Option, some, length, get_elem?, Yields-value}
use syncscribe.Types.{Packet, ℤ, client_maximum, client_buffer_size, variable_size_maximum}
use syncscribe.Server.{Client, Server, Address, Callback}
use syncscribe.Server.Send.{Env}
use syncscribe.Server.Frame.{IsEnv}
use syncscribe.Server.Valid.{IsValid}
use syncscribe.Server.Consumers.{close_client_socket}
use syncscribe.Server.Consumers.Closing.{close_client_socket-Closed}
use syncscribe.Server.Dispatch.{client_process_packet}
use syncscribe.Server.Dispatch.Keeps.{IsReceived, client_process_packet-IsValid}
use syncscribe.Server.Receive.{Recv, client_handler, Accept, add_client, udp_handler}
use syncscribe.Server.Receive.Handler.{HasRoom, client_handler-IsValid}
use syncscribe.Server.Receive.Keeps.{add_client-IsValid, udp_handler-IsValid}
use syncscribe.Server.Events.Changes.{CanCopy}
use syncscribe.Server.Events.{defined_size}
use syncscribe.Server.Api.{
  server_create, server_subscribe_event, server_unsubscribe_event, server_write, server_define,
  server_undefine,
}
use syncscribe.Server.Api.Keeps.{
  server_subscribe_event-IsValid, server_unsubscribe_event-IsValid, copied_size,
  server_write-IsValid, server_define-IsValid, server_undefine-IsValid, server_create-IsValid,
}

-- One thing that happens: a read from a TCP client, or a packet of a client on its own; a datagram;
-- a new connection; the end of one; a call of the application.
pub data Step (s : Server) : Server → Type 0 where
  reads :
      (env : ℕ → Env) (c : ℕ) (got : Recv) (x : Client) (t : Server)
      → ((n : ℕ) → IsEnv (env n))
      → c < client_maximum
      → get_elem? s.clients c ≡ some x
      → HasRoom got x
      → client_handler env c got s ≡ some t
      → Step s t
  packet :
      (env : Env) (c : ℕ) (p : Packet) (r : ℤ) (t : Server)
      → IsEnv env
      → c < client_maximum
      → IsReceived p
      → client_process_packet env c p s ≡ some (r, t)
      → Step s t
  datagram :
      (env : Env) (addr : Address) (bytes ubuffer ubuffer' : List ℕ) (r : ℤ) (t : Server)
      → IsEnv env
      → length ubuffer ≡ client_buffer_size
      → length bytes ≤ client_buffer_size
      → udp_handler env addr bytes ubuffer s ≡ some (r, ubuffer', t)
      → Step s t
  connection : (result : Accept) (r : ℤ) (t : Server) → add_client result s ≡ some (r, t) → Step s t
  disconnection :
      (c : ℕ) (t : Server) → c < client_maximum → close_client_socket c s ≡ some t → Step s t
  subscribes :
      (flags : ℕ) (cid : List ℕ) (cb : Callback) → Step s (server_subscribe_event flags cid cb s).1
  unsubscribes : (cid : List ℕ) → Step s (server_unsubscribe_event cid s)
  writes :
      (env : Env) (flags : ℕ) (cid source : List ℕ) (size : ℕ) (r : ℤ) (t : Server)
      → IsEnv env
      → copied_size flags size ≤ variable_size_maximum
      → copied_size flags size ≤ length source
      → server_write env flags cid source size s ≡ some (r, t)
      → Step s t
  defines :
      (cid : List ℕ) (flags : ℕ) (source : Option (List ℕ)) (size : ℕ) (r : ℤ) (t : Server)
      → CanCopy source (defined_size flags size)
      → server_define cid flags source size s ≡ some (r, t)
      → Step s t
  undefines : (cid : List ℕ) → Step s (server_undefine cid s).1

Step-IsValid : {s t : Server} → Step s t → IsValid s → IsValid t
Step-IsValid {s} (reads env c got x t w h at_x room e) v =
    Yields-value (client_handler-IsValid env c w h got s x v at_x room) e
Step-IsValid {s} (packet env c p r t w h ok e) v =
    Yields-value (client_process_packet-IsValid env c w h p s ok v) e
Step-IsValid {s} (datagram env addr bytes ubuffer ubuffer' r t w size fits e) v =
    (Yields-value (udp_handler-IsValid env addr bytes ubuffer s w v size fits) e).1
Step-IsValid {s} (connection result r t e) v = Yields-value (add_client-IsValid result s v) e
Step-IsValid {s} (disconnection c t h e) v =
    (Yields-value (close_client_socket-Closed c s v h) e).valid
Step-IsValid {s} (subscribes flags cid cb) v = server_subscribe_event-IsValid flags cid cb s v
Step-IsValid {s} (unsubscribes cid) v = server_unsubscribe_event-IsValid cid s v
Step-IsValid {s} (writes env flags cid source size r t w small long e) v =
    Yields-value (server_write-IsValid env flags cid source size s w v small long) e
Step-IsValid {s} (defines cid flags source size r t can e) v =
    Yields-value (server_define-IsValid cid flags source size s v can) e
Step-IsValid {s} (undefines cid) v = server_undefine-IsValid cid s v

-- Any number of steps.
pub data Reaches (s : Server) : Server → Type 0 where
  here : Reaches s s
  then_step : (t u : Server) → Reaches s t → Step t u → Reaches s u

-- Whatever of the following happens to a server after it is created, in any number of steps and any
-- order, its tables are valid: each event's data lies within its memory, its consumers are clients of
-- the table, none of them twice, and `consumers_count` is their number. A step is a run of the code
-- that ends, of: a read from a TCP client, of any number of bytes that fits into the client's buffer
-- with ten bytes to spare, or one that fails; a packet whose size is 511 at most, with so much memory
-- behind it, and at least ten bytes; a datagram that fits into the server's buffer; a connection; the
-- end of one; or a call of the application with data that are as long as it says, and 511 bytes at
-- most where it writes. The stack's packet has its 4095 bytes.
pub Reaches-IsValid :
    (cid : Option (List ℕ)) (t : Server) → Reaches (server_create cid) t → IsValid t
Reaches-IsValid cid t here = server_create-IsValid cid
Reaches-IsValid cid v (then_step t u run step) = Step-IsValid step (Reaches-IsValid cid t run)
