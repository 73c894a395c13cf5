-- ===== src/Net/Sockets/Rounds.antt =====
-- The rounds of the threads that open sockets, wait on them and open them again:
-- `syncs_server_thread` and `syncs_server_ssdp_thread` of libsyncs/syncs-server.c,
-- `syncs_connect_thread` and `syncs_udpconnect_thread` of libsyncs/syncs-client.c.
use syncscribe.Common.{
  ℕ, ◌*◌, List, [], ◌∷◌, ◌++◌, Bool, true, false, Option, none, some, ◌==◌, if◌then◌else◌,
}
use syncscribe.Types.{ℤ, pos, negsuc}
use syncscribe.Discovery.{ssdp_ip, ssdp_port}
use syncscribe.Net.Sockets.{
  Call, opens, closes, shuts, sets_cloexec, Gives, Opened, Interface, tcpserver_open,
  udpserver_open, udpmulticast_open, tcpclient_open, udpclient_open, set_nonblocking_socket,
  set_keepalive, add_multicast_group, add_multicast_route,
}

abbrev megabyte : ℕ
megabyte = 1024 * 1024

-- What the system gives in a round of a server: to the three openings.
pub record ServerGives : Type 0 where
  pub tcp : Gives
  pub udp : Gives
  pub epoll : ℤ

abbrev pub is_negative : ℤ → Bool
is_negative (pos n) = false
is_negative (negsuc n) = true

-- A round of `syncs_server_thread` with what its openings gave: whether it comes to wait for
-- clients, which never ends, and the calls until then, or until the next round.
unfoldable pub server_calls : Opened → Opened → ℤ → Bool × List Call
unfolding set_nonblocking_socket
server_calls t u epoll =
    let both = t.calls ++ (set_nonblocking_socket t.result megabyte megabyte ++ u.calls) in
    let all = both ++ (set_nonblocking_socket u.result megabyte megabyte ++ opens epoll ∷ []) in
    if is_negative t.result
    then (false, t.calls)
    else if is_negative u.result
    then (false, both ++ closes u.result ∷ [])
    else if is_negative epoll
    then (false, all ++ (closes t.result ∷ closes u.result ∷ []))
    else (true, all)

unfoldable pub server_round : ServerGives → Option (List ℕ) → ℕ → Bool × List Call
unfolding server_calls tcpserver_open udpserver_open
server_round g addr port =
    server_calls (tcpserver_open g.tcp addr port) (udpserver_open g.udp addr port) g.epoll

-- A round of `syncs_server_ssdp_thread`, in which the loop over the datagrams returns; the `errno` of
-- joining the group, and the interfaces.
unfoldable pub ssdp_round : Gives → Option ℕ → Option (List (Interface × ℤ × ℤ)) → List Call
unfolding udpmulticast_open add_multicast_group add_multicast_route
ssdp_round g failure interfaces =
    let o = udpmulticast_open g none ssdp_port in
    let (errno, joins) = add_multicast_group failure o.result ssdp_ip none in
    let opened = o.calls ++ joins in
    if errno == 0
    then if is_negative o.result then opened else opened ++ closes o.result ∷ []
    else opened ++ (add_multicast_route none interfaces).1

-- A round of `syncs_connect_thread` after the opening, in which `syncs_recv` returns.
unfoldable pub connect_calls : Opened → List Call
unfolding set_nonblocking_socket set_keepalive
connect_calls o =
    if is_negative o.result
    then o.calls
    else o.calls
      ++ (set_nonblocking_socket o.result megabyte megabyte
          ++ (set_keepalive o.result 30 3 ++ (sets_cloexec o.result ∷ shuts o.result ∷ [])))

unfoldable pub connect_round : Gives → List ℕ → ℕ → List Call
unfolding connect_calls tcpclient_open
connect_round g addr port = connect_calls (tcpclient_open g (some addr) port)

-- A round of `syncs_udpconnect_thread`, in which `syncs_udprecv` returns.
unfoldable pub udpconnect_calls : Opened → List Call
unfolding set_nonblocking_socket
udpconnect_calls o =
    if is_negative o.result
    then o.calls
    else o.calls
      ++ (set_nonblocking_socket o.result megabyte megabyte
          ++ (sets_cloexec o.result ∷ closes o.result ∷ []))

unfoldable pub udpconnect_round : Gives → List ℕ → ℕ → List Call
unfolding udpconnect_calls udpclient_open
udpconnect_round g addr port = udpconnect_calls (udpclient_open g (some addr) port).0
