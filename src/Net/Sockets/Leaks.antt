-- ===== src/Net/Sockets/Leaks.antt =====
-- Which descriptors stay open.
use syncscribe.Common.{
  ℕ, zero, suc, ◌≡◌, refl, ap, ◌∙◌, append_assoc, List, [], ◌∷◌, ◌++◌, Option, ◌==◌, ==_self,
  if◌then◌else◌,
}
use syncscribe.Types.{ℤ, pos, negsuc}
use syncscribe.Net.Sockets.{
  Call, opens, sets, sets_nonblocking, sets_cloexec, binds, listens, connects, shuts, closes,
  adds_route, Gives, Opened, SockOption, host_or, any_host, reuse_port, multicast_loop, sets_all,
  udp_options, tcpserver_open, udpserver_open, udpmulticast_open, bound_socket, tcpclient_open,
  udpclient_open,
}

abbrev pub without : ℕ → List ℕ → List ℕ
without fd [] = []
without fd (x ∷ xs) = if x == fd then without fd xs else x ∷ without fd xs

-- The descriptors open after the calls, the one opened last first.
abbrev pub open_after : List ℕ → List Call → List ℕ
open_after fds [] = fds
open_after fds (opens (pos fd) ∷ cs) = open_after (fd ∷ fds) cs
open_after fds (closes (pos fd) ∷ cs) = open_after (without fd fds) cs
open_after fds (opens (negsuc n) ∷ cs) = open_after fds cs
open_after fds (closes (negsuc n) ∷ cs) = open_after fds cs
open_after fds (sets s o ∷ cs) = open_after fds cs
open_after fds (sets_nonblocking s ∷ cs) = open_after fds cs
open_after fds (sets_cloexec s ∷ cs) = open_after fds cs
open_after fds (binds s h p ∷ cs) = open_after fds cs
open_after fds (listens s n ∷ cs) = open_after fds cs
open_after fds (connects s h p ∷ cs) = open_after fds cs
open_after fds (shuts s ∷ cs) = open_after fds cs
open_after fds (adds_route s n m d ∷ cs) = open_after fds cs

-- The descriptor that a function hands to its caller, if any.
abbrev pub handed_over : ℤ → List ℕ
handed_over (pos fd) = fd ∷ []
handed_over (negsuc n) = []

-- A descriptor that the system gives is none of those that are open.
abbrev pub IsFresh : ℤ → List ℕ → Type 0
IsFresh (pos fd) fds = without fd fds ≡ fds
IsFresh (negsuc n) fds = Unit {0}

-- An opening leaves open what it hands over, and what was open before.
pub record IsTidy (fds : List ℕ) (o : Opened) : Type 0 where
  pub left : open_after fds o.calls ≡ handed_over o.result ++ fds
  pub fresh : IsFresh o.result fds

module _ (addr : Option (List ℕ)) (port : ℕ) (fds : List ℕ) where
  closed_again : (fd : ℕ) → IsFresh (pos fd) fds → without fd (fd ∷ fds) ≡ fds
  closed_again fd h = rw (==_self fd) h

  tcpserver_open_at :
      (socket bind listen connect : ℤ)
      → IsFresh socket fds
      → IsTidy fds (
          tcpserver_open
            (record { socket = socket; bind = bind; listen = listen; connect = connect })
            addr
            port)
  unfolding tcpserver_open
  tcpserver_open_at (negsuc n) bind listen connect h = record { left = refl; fresh = tt }
  tcpserver_open_at (pos fd) (pos zero) (pos zero) connect h = record { left = refl; fresh = h }
  tcpserver_open_at (pos fd) (pos zero) (pos (suc n)) connect h = record {
    left = closed_again fd h;
    fresh = tt;
  }
  tcpserver_open_at (pos fd) (pos zero) (negsuc n) connect h = record {
    left = closed_again fd h;
    fresh = tt;
  }
  tcpserver_open_at (pos fd) (pos (suc n)) listen connect h = record {
    left = closed_again fd h;
    fresh = tt;
  }
  tcpserver_open_at (pos fd) (negsuc n) listen connect h = record {
    left = closed_again fd h;
    fresh = tt;
  }

  open_after-sets :
      (gs : List ℕ) (s : ℤ) (options : List SockOption) (cs : List Call)
      → open_after gs (sets_all s options ++ cs) ≡ open_after gs cs
  open_after-sets gs s [] cs = refl
  open_after-sets gs s (o ∷ options) cs = open_after-sets gs s options cs

  refused :
      (options : List SockOption) (fd : ℕ)
      → IsFresh (pos fd) fds
      → open_after (fd ∷ fds) (
          (sets_all (pos fd) options ++ binds (pos fd) (host_or any_host addr) port ∷ [])
          ++ closes (pos fd) ∷ [])
        ≡ fds
  refused options fd h =
      ap (open_after (fd ∷ fds)) (append_assoc (sets_all (pos fd) options) _ _)
      ∙ open_after-sets (fd ∷ fds) (pos fd) options _
      ∙ closed_again fd h

  bound_socket_at :
      (options : List SockOption) (socket bind listen connect : ℤ)
      → IsFresh socket fds
      → IsTidy fds (
          bound_socket options
            (record { socket = socket; bind = bind; listen = listen; connect = connect })
            addr
            port)
  unfolding bound_socket
  bound_socket_at options (negsuc n) bind listen connect h = record { left = refl; fresh = tt }
  bound_socket_at options (pos fd) (pos zero) listen connect h = record {
    left = open_after-sets (fd ∷ fds) (pos fd) options _;
    fresh = h;
  }
  bound_socket_at options (pos fd) (pos (suc n)) listen connect h = record {
    left = refused options fd h;
    fresh = tt;
  }
  bound_socket_at options (pos fd) (negsuc n) listen connect h = record {
    left = refused options fd h;
    fresh = tt;
  }

  tcpclient_open_at :
      (socket bind listen connect : ℤ)
      → IsFresh socket fds
      → IsTidy fds (
          tcpclient_open
            (record { socket = socket; bind = bind; listen = listen; connect = connect })
            addr
            port)
  unfolding tcpclient_open
  tcpclient_open_at (negsuc n) bind listen connect h = record { left = refl; fresh = tt }
  tcpclient_open_at (pos fd) bind listen (pos zero) h = record { left = refl; fresh = h }
  tcpclient_open_at (pos fd) bind listen (pos (suc n)) h = record {
    left = closed_again fd h;
    fresh = tt;
  }
  tcpclient_open_at (pos fd) bind listen (negsuc n) h = record {
    left = closed_again fd h;
    fresh = tt;
  }

  udpclient_open_at :
      (socket bind listen connect : ℤ)
      → IsFresh socket fds
      → IsTidy fds
          (udpclient_open
            (record { socket = socket; bind = bind; listen = listen; connect = connect })
            addr
            port).0
  unfolding udpclient_open
  udpclient_open_at (negsuc n) bind listen connect h = record { left = refl; fresh = tt }
  udpclient_open_at (pos fd) bind listen connect h = record { left = refl; fresh = h }

  -- Whatever the system calls give, where it is a new descriptor that `socket` gives: each of the
  -- five functions that open a socket leaves open the descriptor that it returns, or, where it
  -- returns an error, none beyond those that were open before.
  pub opens-IsTidy :
      (g : Gives)
      → IsFresh g.socket fds
      → IsTidy fds (tcpserver_open g addr port)
        × IsTidy fds (udpserver_open g addr port)
        × IsTidy fds (udpmulticast_open g addr port)
        × IsTidy fds (tcpclient_open g addr port)
        × IsTidy fds (udpclient_open g addr port).0
  unfolding udpserver_open udpmulticast_open
  opens-IsTidy g h = (
    tcpserver_open_at g.socket g.bind g.listen g.connect h,
    bound_socket_at udp_options g.socket g.bind g.listen g.connect h,
    bound_socket_at (reuse_port ∷ multicast_loop ∷ []) g.socket g.bind g.listen g.connect h,
    tcpclient_open_at g.socket g.bind g.listen g.connect h,
    udpclient_open_at g.socket g.bind g.listen g.connect h,
  )
