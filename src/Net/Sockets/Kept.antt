-- ===== src/Net/Sockets/Kept.antt =====
-- What the rounds of the threads leave open.
use syncscribe.Common.{
  ℕ, ◌≤◌, ◌≡◌, refl, ap, subst, ◌∙◌, append_assoc, List, [], ◌∷◌, ◌++◌, Bool, false, Option, some,
  ◌==◌, ==_self, inl, inr, Bool-cases, arith, if◌then◌else◌, length,
}
use syncscribe.Types.{ℤ, pos, negsuc}
use syncscribe.Net.Sockets.{
  Call, opens, sets, sets_nonblocking, sets_cloexec, binds, listens, connects, shuts, closes,
  adds_route, Gives, Opened, tcpserver_open, udpserver_open, tcpclient_open, udpclient_open,
  set_nonblocking_socket, set_keepalive,
}
use syncscribe.Net.Sockets.Rounds.{
  ServerGives, is_negative, server_calls, server_round, connect_calls, connect_round,
  udpconnect_calls, udpconnect_round,
}
use syncscribe.Net.Sockets.Leaks.{without, open_after, handed_over, IsFresh, IsTidy, opens-IsTidy}

open_after-append :
    (cs ds : List Call) (fds : List ℕ)
    → open_after fds (cs ++ ds) ≡ open_after (open_after fds cs) ds
open_after-append [] ds fds = refl
open_after-append (opens (pos fd) ∷ cs) ds fds = open_after-append cs ds (fd ∷ fds)
open_after-append (opens (negsuc n) ∷ cs) ds fds = open_after-append cs ds fds
open_after-append (closes (pos fd) ∷ cs) ds fds = open_after-append cs ds (without fd fds)
open_after-append (closes (negsuc n) ∷ cs) ds fds = open_after-append cs ds fds
open_after-append (sets s o ∷ cs) ds fds = open_after-append cs ds fds
open_after-append (sets_nonblocking s ∷ cs) ds fds = open_after-append cs ds fds
open_after-append (sets_cloexec s ∷ cs) ds fds = open_after-append cs ds fds
open_after-append (binds s h p ∷ cs) ds fds = open_after-append cs ds fds
open_after-append (listens s n ∷ cs) ds fds = open_after-append cs ds fds
open_after-append (connects s h p ∷ cs) ds fds = open_after-append cs ds fds
open_after-append (shuts s ∷ cs) ds fds = open_after-append cs ds fds
open_after-append (adds_route s n m d ∷ cs) ds fds = open_after-append cs ds fds

length-without : (fd : ℕ) (fds : List ℕ) → length (without fd fds) ≤ length fds
length-without fd [] = omega arith
length-without fd (x ∷ fds) = ground (arith, length-without fd fds)

fresh_ne : (a b : ℕ) (fds : List ℕ) → IsFresh (pos b) (a ∷ fds) → (b == a) ≡ false
fresh_ne a b fds h = elim (Bool-cases (a == b)) [
  | inl same ↦
      let shorter : without b fds ≡ a ∷ fds =
        subst (λ (t : Bool). (if t then without b fds else a ∷ without b fds) ≡ a ∷ fds) same h in
      absurd (omega (arith, length-without b fds, ap length shorter))
  | inr differ ↦ ground arith
]

-- The calls of a round after those of the two openings.
opened_both :
    (t u : Opened) (fds : List ℕ) (cs : List Call)
    → IsTidy fds t
    → IsTidy (handed_over t.result ++ fds) u
    → open_after fds
        ((t.calls ++ (set_nonblocking_socket t.result 1048576 1048576 ++ u.calls)) ++ cs)
      ≡ open_after (handed_over u.result ++ (handed_over t.result ++ fds)) cs
unfolding set_nonblocking_socket
opened_both t u fds cs ht hu =
    open_after-append (t.calls ++ (set_nonblocking_socket t.result 1048576 1048576 ++ u.calls)) cs
      fds
    ∙ ap (λ l. open_after l cs)
        (open_after-append t.calls (set_nonblocking_socket t.result 1048576 1048576 ++ u.calls) fds
          ∙ ap (λ l. open_after l u.calls) ht.left
          ∙ hu.left)

close_both :
    (a b : ℕ) (fds : List ℕ)
    → IsFresh (pos a) fds
    → IsFresh (pos b) (a ∷ fds)
    → without b (without a (b ∷ a ∷ fds)) ≡ fds
close_both a b fds ha hb =
    let differ = fresh_ne a b fds hb in
    let other : (a == b) ≡ false = ground arith in
    let rest : a ∷ without b fds ≡ a ∷ fds =
      subst (λ (t : Bool). (if t then without b fds else a ∷ without b fds) ≡ a ∷ fds) other hb in
    rw (differ, ==_self a, ha, ==_self b) (cc)

-- The TCP socket stays open where the UDP socket cannot be opened.
abbrev pub leaked : Opened → Opened → List ℕ
leaked t u = if is_negative u.result then handed_over t.result else []

server_calls_lem :
    (rt ru epoll : ℤ) (ct cu : List Call) (fds : List ℕ)
    → let t : Opened = record { result = rt; calls = ct } in
      let u : Opened = record { result = ru; calls = cu } in
      IsTidy fds t
      → IsTidy (handed_over rt ++ fds) u
      → (server_calls t u epoll).0 ≡ false
      → open_after fds (server_calls t u epoll).1 ≡ leaked t u ++ fds
unfolding server_calls
server_calls_lem (negsuc n) (pos b) epoll ct cu fds ht hu h = ht.left
server_calls_lem (negsuc n) (negsuc m) epoll ct cu fds ht hu h = ht.left
server_calls_lem (pos a) (negsuc m) epoll ct cu fds ht hu h =
    opened_both (record { result = pos a; calls = ct }) (record { result = negsuc m; calls = cu })
      fds _ ht hu
server_calls_lem (pos a) (pos b) (pos e) ct cu fds ht hu h = cc
server_calls_lem (pos a) (pos b) (negsuc e) ct cu fds ht hu h =
    let t : Opened = record { result = pos a; calls = ct } in
    let u : Opened = record { result = pos b; calls = cu } in
    ap (open_after fds)
      (append_assoc (t.calls ++ (set_nonblocking_socket (pos a) 1048576 1048576 ++ u.calls)) _ _)
    ∙ opened_both t u fds _ ht hu
    ∙ close_both a b fds ht.fresh hu.fresh

-- Whatever the system gives to a round of the server's thread, where the descriptors are new: if the
-- round does not come to wait for clients, then it leaves open what was open before, and the TCP
-- socket where the UDP socket could not be opened.
pub server_round_leaks :
    (g : ServerGives) (addr : Option (List ℕ)) (port : ℕ) (fds : List ℕ)
    → IsFresh g.tcp.socket fds
    → IsFresh g.udp.socket (handed_over (tcpserver_open g.tcp addr port).result ++ fds)
    → (server_round g addr port).0 ≡ false
    → open_after fds (server_round g addr port).1
      ≡ leaked (tcpserver_open g.tcp addr port) (udpserver_open g.udp addr port) ++ fds
unfolding server_round
server_round_leaks g addr port fds ht hu h =
    let t = tcpserver_open g.tcp addr port in
    let u = udpserver_open g.udp addr port in
    server_calls_lem t.result u.result g.epoll t.calls u.calls fds
      (opens-IsTidy addr port fds g.tcp ht).0
      (opens-IsTidy addr port (handed_over t.result ++ fds) g.udp hu).1 h

connect_calls_lem :
    (r : ℤ) (calls : List Call) (fds : List ℕ)
    → open_after fds calls ≡ handed_over r ++ fds
    → open_after fds (connect_calls (record { result = r; calls = calls })) ≡ handed_over r ++ fds
unfolding connect_calls set_nonblocking_socket set_keepalive
connect_calls_lem (negsuc n) calls fds h = h
connect_calls_lem (pos fd) calls fds h = open_after-append calls _ fds ∙ h

udpconnect_calls_lem :
    (r : ℤ) (calls : List Call) (fds : List ℕ)
    → open_after fds calls ≡ handed_over r ++ fds
    → IsFresh r fds
    → open_after fds (udpconnect_calls (record { result = r; calls = calls })) ≡ fds
unfolding udpconnect_calls set_nonblocking_socket
udpconnect_calls_lem (negsuc n) calls fds h fresh = h
udpconnect_calls_lem (pos fd) calls fds h fresh =
    open_after-append calls _ fds ∙ ap (λ l. without fd l) h ∙ rw (==_self fd) fresh

-- Whatever the system gives to a round of a client's thread in which the connection comes to its
-- end, where the descriptor is new: over UDP, the round leaves open what was open before; over TCP,
-- the socket of a connection stays open too.
pub connect_round_leaks :
    (g : Gives) (addr : List ℕ) (port : ℕ) (fds : List ℕ)
    → IsFresh g.socket fds
    → (open_after fds (connect_round g addr port)
        ≡ handed_over (tcpclient_open g (some addr) port).result ++ fds)
      × (open_after fds (udpconnect_round g addr port) ≡ fds)
unfolding connect_round udpconnect_round
connect_round_leaks g addr port fds h =
    let tidy = opens-IsTidy (some addr) port fds g h in
    let o = tcpclient_open g (some addr) port in
    let u = (udpclient_open g (some addr) port).0 in
    (
      connect_calls_lem o.result o.calls fds tidy.3.left,
      udpconnect_calls_lem u.result u.calls fds tidy.4.left tidy.4.fresh,
    )
