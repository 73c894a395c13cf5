-- ===== src/Net/Sockets/Tests.antt =====
-- A server whose UDP port is taken, and a client that is connected.
use syncscribe.Common.{◌≡◌, refl, [], ◌∷◌, none}
use syncscribe.Types.{pos, negsuc}
use syncscribe.Text.{codes}
use syncscribe.Net.Sockets.{
  Gives, tcpserver_open, udpserver_open, udpmulticast_open, tcpclient_open, udpclient_open,
}
use syncscribe.Net.Sockets.Rounds.{server_round, connect_round, udpconnect_round}
use syncscribe.Net.Sockets.Leaks.{open_after, IsTidy, opens-IsTidy}
use syncscribe.Net.Sockets.Kept.{server_round_leaks, connect_round_leaks}

abbrev all_well : Gives
all_well = record { socket = pos 5; bind = pos 0; listen = pos 0; connect = pos 0 }

abbrev port_taken : Gives
port_taken = record { socket = pos 6; bind = negsuc 0; listen = pos 0; connect = pos 0 }

opens-IsTidy_example :
    IsTidy (3 ∷ []) (tcpserver_open port_taken none 4444)
    × IsTidy (3 ∷ []) (udpserver_open port_taken none 4444)
    × IsTidy (3 ∷ []) (udpmulticast_open port_taken none 4444)
    × IsTidy (3 ∷ []) (tcpclient_open port_taken none 4444)
    × IsTidy (3 ∷ []) (udpclient_open port_taken none 4444).0
opens-IsTidy_example = opens-IsTidy none 4444 (3 ∷ []) port_taken refl

server_round_leaks_example :
    open_after
      (3 ∷ [])
      (server_round (record { tcp = all_well; udp = port_taken; epoll = pos 7 }) none 4444).1
    ≡ 5 ∷ 3 ∷ []
unfolding server_round
server_round_leaks_example =
    server_round_leaks (record { tcp = all_well; udp = port_taken; epoll = pos 7 }) none 4444
      (3 ∷ []) refl refl refl

connect_round_leaks_example :
    (open_after [] (connect_round all_well (codes "10.0.0.1") 4444) ≡ 5 ∷ [])
    × (open_after [] (udpconnect_round all_well (codes "10.0.0.1") 4444) ≡ [])
unfolding connect_round
connect_round_leaks_example = connect_round_leaks all_well (codes "10.0.0.1") 4444 [] refl
