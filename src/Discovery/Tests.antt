-- ===== src/Discovery/Tests.antt =====
-- Two servers that announce themselves, and discovery at them.
use syncscribe.Common.{ℕ, ◌≡◌, refl, true, false, List, [], ◌∷◌, ◌++◌, none, some, arith, replicate}
use syncscribe.Text.{codes, starts, decimal}
use syncscribe.Discovery.{
  Announced, datagram, time_over, found, not_found, ssdp_packet_size, msearch_line, response_line,
  response_text, msearch_text, ssdp_receive, find_server,
}
use syncscribe.Discovery.Buffers.{IsBuffer}
use syncscribe.Discovery.Finds.{IsAnnounced}
use syncscribe.Discovery.Meets.{IsOther, find_server-ssdp_receive, find_server_overflow}

abbrev anywhere : Announced
anywhere = record { addr = []; port = 4444; id = codes "hub" }

abbrev fixed : Announced
fixed = record { addr = codes "10.100.1.1"; port = 4444; id = codes "hub" }

anywhere-IsAnnounced : IsAnnounced anywhere
anywhere-IsAnnounced = omega arith

fixed-IsAnnounced : IsAnnounced fixed
fixed-IsAnnounced = omega arith

abbrev stack : List ℕ
stack = replicate ssdp_packet_size 0

stack-IsBuffer : IsBuffer stack
stack-IsBuffer = record { size = refl; ends = refl }

abbrev addr : List ℕ
addr = replicate 20 0

abbrev notify : List ℕ
notify = codes "NOTIFY * HTTP/1.1\r\n"

notify-IsOther :
    (IsOther response_line (datagram notify [])) × (IsOther msearch_line (datagram notify []))
unfolding starts
notify-IsOther = ((refl, omega arith), (refl, omega arith))

find_server-ssdp_receive_example :
    (request : List ℕ) × (answer : List ℕ) × (ssdp_receive anywhere true
        (datagram notify [] ∷ datagram request [] ∷ [])
        stack
      ≡ some (false, answer ∷ []))
    × (find_server (datagram notify [] ∷ datagram answer (codes "10.100.1.1") ∷ []) stack addr
        ≡ some (request, found (codes "10.100.1.1" ++ replicate 10 0) 4444))
find_server-ssdp_receive_example =
    find_server-ssdp_receive anywhere anywhere-IsAnnounced true (codes "10.100.1.1") [] stack stack
      addr (datagram notify [] ∷ []) (datagram notify [] ∷ []) [] stack-IsBuffer stack-IsBuffer
      (notify-IsOther.1, tt) (notify-IsOther.0, tt) (omega arith)

find_server_overflow_example :
    find_server (datagram (response_text fixed) (codes "10.100.1.1") ∷ []) stack addr ≡ none
find_server_overflow_example =
    find_server_overflow fixed fixed-IsAnnounced (codes "10.100.1.1") stack addr [] []
      stack-IsBuffer tt (omega arith)

beacon :
    ssdp_receive anywhere true (time_over ∷ []) stack ≡ some (true, response_text anywhere ∷ [])
unfolding ssdp_receive response_text decimal
beacon = refl

no_answer : find_server (time_over ∷ []) stack addr ≡ some (msearch_text, not_found)
unfolding find_server msearch_text decimal
no_answer = refl
