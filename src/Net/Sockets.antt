-- ===== src/Net/Sockets.antt =====
-- Opening sockets: libsyncs/syncs-net-server.c, libsyncs/syncs-net-client.c and the options of
-- libsyncs/syncs-net-common.c. A function returns its result and the system calls that it made, in
-- order; what the system calls give is a parameter. A failed `setsockopt` is only logged.
pub mod Rounds
pub mod Leaks
pub mod Kept
mod Tests
use syncscribe.Common.{
  ℕ, zero, suc, ◌*◌, List, [], ◌∷◌, ◌++◌, Bool, true, false, ◌&&◌, Option, none, some, ◌==◌,
  if◌then◌else◌, map,
}
use syncscribe.Types.{ℤ, pos, negsuc}
use syncscribe.Id.{char_at}
use syncscribe.Text.{codes, starts}

-- `sin_addr`: the address that a text gives, `INADDR_ANY`, or `INADDR_LOOPBACK`.
pub data Host : Type 0 where
  named : List ℕ → Host
  any_host : Host
  loopback : Host

pub data SockOption : Type 0 where
  reuse_addr reuse_port nodelay quickack lowdelay keepalive multicast_loop : SockOption
  syncnt : ℕ → SockOption
  linger : ℕ → ℕ → SockOption
  receive_buffer send_buffer : ℕ → SockOption
  receive_timeout : ℕ → ℕ → SockOption
  keepidle keepintvl keepcnt : ℕ → SockOption
  add_membership : List ℕ → Host → SockOption

pub data Call : Type 0 where
  -- `socket` or `epoll_create`, with its result.
  opens : ℤ → Call
  sets : ℤ → SockOption → Call
  -- `fcntl`: `O_NONBLOCK`, and `FD_CLOEXEC`.
  sets_nonblocking : ℤ → Call
  sets_cloexec : ℤ → Call
  binds : ℤ → Host → ℕ → Call
  listens : ℤ → ℕ → Call
  connects : ℤ → Host → ℕ → Call
  shuts : ℤ → Call
  closes : ℤ → Call
  -- `ioctl(SIOCADDRT)`: the network, its mask and the device.
  adds_route : ℤ → List ℕ → List ℕ → List ℕ → Call

-- What the calls that decide give: `socket`, `bind`, `listen` and `connect`.
pub record Gives : Type 0 where
  pub socket : ℤ
  pub bind : ℤ
  pub listen : ℤ
  pub connect : ℤ

pub record Opened : Type 0 where
  pub result : ℤ
  pub calls : List Call

abbrev pub is_zero : ℤ → Bool
is_zero (pos zero) = true
is_zero (pos (suc n)) = false
is_zero (negsuc n) = false

-- `(addr != NULL) && (*addr != 0)`.
abbrev pub host_or : Host → Option (List ℕ) → Host
host_or default none = default
host_or default (some text) = if char_at text == 0 then default else named text

abbrev pub sets_all : ℤ → List SockOption → List Call
sets_all fd options = map (λ o. sets fd o) options

-- What both sides of a TCP connection set.
abbrev pub tcp_options : List SockOption
tcp_options = reuse_addr ∷ reuse_port ∷ nodelay ∷ quickack ∷ syncnt 3 ∷ linger 1 0 ∷ lowdelay ∷ []

abbrev pub no_socket : ℤ → Opened
no_socket result = record { result = negsuc 0; calls = opens result ∷ [] }

unfoldable pub tcpserver_open : Gives → Option (List ℕ) → ℕ → Opened
tcpserver_open g addr port = elim g.socket [
  | negsuc n ↦ no_socket (negsuc n)
  | pos fd ↦
      let s : ℤ = pos fd in
      let bound = opens s ∷ (sets_all s tcp_options ++ binds s (host_or any_host addr) port ∷ []) in
      if is_zero g.bind
      then if is_zero g.listen
        then record { result = s; calls = bound ++ listens s 5 ∷ [] }
        else record { result = negsuc 2; calls = bound ++ (listens s 5 ∷ closes s ∷ []) }
      else record { result = negsuc 1; calls = bound ++ closes s ∷ [] }
]

abbrev pub udp_options : List SockOption
udp_options = reuse_port ∷ lowdelay ∷ []

-- A datagram socket with options and an address of its own.
unfoldable pub bound_socket : List SockOption → Gives → Option (List ℕ) → ℕ → Opened
bound_socket options g addr port = elim g.socket [
  | negsuc n ↦ no_socket (negsuc n)
  | pos fd ↦
      let s : ℤ = pos fd in
      let bound = opens s ∷ (sets_all s options ++ binds s (host_or any_host addr) port ∷ []) in
      if is_zero g.bind
      then record { result = s; calls = bound }
      else record { result = negsuc 1; calls = bound ++ closes s ∷ [] }
]

unfoldable pub udpserver_open : Gives → Option (List ℕ) → ℕ → Opened
unfolding bound_socket
udpserver_open g addr port = bound_socket udp_options g addr port

unfoldable pub udpmulticast_open : Gives → Option (List ℕ) → ℕ → Opened
unfolding bound_socket
udpmulticast_open g addr port = bound_socket (reuse_port ∷ multicast_loop ∷ []) g addr port

unfoldable pub tcpclient_open : Gives → Option (List ℕ) → ℕ → Opened
tcpclient_open g addr port = elim g.socket [
  | negsuc n ↦ no_socket (negsuc n)
  | pos fd ↦
      let s : ℤ = pos fd in
      let tried =
        opens s ∷ (sets_all s tcp_options ++ connects s (host_or loopback addr) port ∷ []) in
      if is_zero g.connect
      then record { result = s; calls = tried }
      else record { result = negsuc 1; calls = tried ++ closes s ∷ [] }
]

-- The address is written to the caller's memory, and nothing is connected.
unfoldable pub udpclient_open : Gives → Option (List ℕ) → ℕ → Opened × Option (Host × ℕ)
udpclient_open g addr port = elim g.socket [
  | negsuc n ↦ (no_socket (negsuc n), none)
  | pos fd ↦
      let s : ℤ = pos fd in
      (
        record { result = s; calls = opens s ∷ sets s reuse_port ∷ [] },
        some (host_or any_host addr, port),
      )
]

-- `syncs_set_nonblocking_socket`, for an `fcntl` that gives the flags.
unfoldable pub set_nonblocking_socket : ℤ → ℕ → ℕ → List Call
set_nonblocking_socket s rx_size tx_size =
    sets_nonblocking s
    ∷ ((if rx_size == 0 then [] else sets s (receive_buffer rx_size) ∷ [])
        ++ (if tx_size == 0 then [] else sets s (send_buffer tx_size) ∷ []))

unfoldable pub set_rxtimeout : ℤ → ℕ → ℕ → List Call
set_rxtimeout s sec usec = sets s (receive_timeout sec usec) ∷ []

unfoldable pub set_keepalive : ℤ → ℕ → ℕ → List Call
set_keepalive s idle count =
    sets s keepalive ∷ sets s (keepidle idle) ∷ sets s (keepintvl 1) ∷ sets s (keepcnt count) ∷ []

-- `errno` where `setsockopt` fails with it, else 0.
unfoldable pub add_multicast_group : Option ℕ → ℤ → List ℕ → Option (List ℕ) → ℕ × List Call
add_multicast_group failure s group addr = (
  elim failure [ none ↦ 0 | some errno ↦ errno ],
  sets s (add_membership group (host_or any_host addr)) ∷ [],
)

-- `syncs_add_network_route_dev`: the results of `socket` and of `ioctl`, and `errno`.
unfoldable pub add_network_route_dev : ℤ → ℤ → ℕ → List ℕ → List ℕ → List ℕ → ℕ × List Call
add_network_route_dev socket ioctl errno net mask dev =
    if is_zero socket then (errno, opens socket ∷ []) else (
      if is_zero ioctl then 0 else errno,
      opens socket ∷ adds_route socket net mask dev ∷ closes socket ∷ [],
    )

-- An entry of `getifaddrs`: whether it is a loopback, whether its address is one of `AF_PACKET`, and
-- its name.
pub record Interface : Type 0 where
  pub is_loopback : Bool
  pub is_packet : Bool
  pub name : List ℕ

abbrev pub multicast_net : List ℕ
multicast_net = codes "224.0.0.0"

-- The interfaces that the loop does not pass over.
abbrev pub routed : Interface → Bool
routed i =
    if i.is_loopback
    then false
    else if i.is_packet
    then if starts (codes "dummy") i.name
      then false
      else if starts (codes "lo") i.name
      then false
      else true
    else false

-- The loop of `syncs_add_multicast_route`, with what `socket` and `ioctl` give for each interface.
unfoldable pub add_routes : List (Interface × ℤ × ℤ) → List Call
unfolding add_network_route_dev starts
add_routes [] = []
add_routes ((i, socket, ioctl) ∷ is) =
    (if routed i
      then (add_network_route_dev socket ioctl 0 multicast_net multicast_net i.name).1
      else [])
    ++ add_routes is

-- `syncs_add_multicast_route`: the device to use, if one is named, with what its `socket` and `ioctl`
-- give and `errno`; else what `getifaddrs` lists.
unfoldable pub add_multicast_route :
    Option (List ℕ × ℤ × ℤ × ℕ) → Option (List (Interface × ℤ × ℤ)) → ℤ × List Call
unfolding add_routes
add_multicast_route (some (dev, socket, ioctl, errno)) interfaces =
    let (r, calls) = add_network_route_dev socket ioctl errno multicast_net multicast_net dev in
    (pos r, calls)
add_multicast_route none none = (negsuc 0, [])
add_multicast_route none (some is) = (pos 0, add_routes is)
