-- ===== src/Discovery/Meets.antt =====
-- A client and a server find one another.
use syncscribe.Common.{
  ℕ, ◌+◌, ◌≤◌, ◌<◌, ◌≡◌, refl, ap, ◌∙◌, List, [], ◌∷◌, ◌++◌, Bool, false, Option, none, some, arith,
  ltb, ◌==◌, ◌>>=◌, le→leb, inl, inr, Bool-cases, length, drop, All, length-append,
  take-append_left,
}
use syncscribe.Text.{starts}
use syncscribe.Discovery.{
  Announced, Ssdp, datagram, time_over, failed, Found, found, ssdp_packet_size, msearch_line,
  response_line, response_text, msearch_text, ssdp_response, ssdp_msearch, asks_for, ssdp_receive,
  sent_bytes, take_location, find_from, find_server,
}
use syncscribe.Discovery.Buffers.{IsBuffer, write_bytes-IsBuffer, rest_of_buffer, snprintf-IsBuffer}
use syncscribe.Discovery.Reads.{asks_for_named}
use syncscribe.Discovery.Finds.{
  IsAnnounced, response_text-IsText, response_text_short, response_text-Names, find_in-response,
  after_location, take_location-after, take_location_overflow, msearch_text-IsText,
  msearch_text-Names, length-msearch_text,
}

-- A datagram that does not start with `line`, and leaves the last byte of a buffer alone.
abbrev pub IsOther : List ℕ → Ssdp → Type 0
IsOther line (datagram bytes ip) = (starts line bytes ≡ false) × (length bytes < ssdp_packet_size)
IsOther line time_over = ⊥
IsOther line failed = ⊥

starts-append_false :
    (a b more : List ℕ) → starts a b ≡ false → length a ≤ length b → starts a (b ++ more) ≡ false
unfolding starts
starts-append_false [] b more h le = cc
starts-append_false (x ∷ a) [] more h le = absurd (omega arith)
starts-append_false (x ∷ a) (y ∷ b) more h le = elim (Bool-cases (x == y)) [
  | inl same ↦ rw same (starts-append_false a b more (ground arith) (omega arith))
  | inr differ ↦ rw differ
]

asks_for_other :
    (line bytes more : List ℕ)
    → starts line bytes ≡ false
    → asks_for line (length bytes) (bytes ++ more) ≡ some false
unfolding asks_for
asks_for_other line bytes more h = elim (Bool-cases (ltb (length bytes) (length line))) [
  | inl short ↦ rw short
  | inr long ↦ rw (long, starts-append_false line bytes more h (ground arith))
]

-- Other datagrams are passed over, by a client and by a server.
find_from_others :
    (others rest : List Ssdp) (buffer addr : List ℕ)
    → All (IsOther response_line) others
    → IsBuffer buffer
    → (b : List ℕ) × IsBuffer b × (find_from (others ++ rest) buffer addr ≡ find_from rest b addr)
unfolding find_from
find_from_others [] rest buffer addr h is = (buffer, is, refl)
find_from_others (time_over ∷ others) rest buffer addr h is = elim h.0 [ ]
find_from_others (failed ∷ others) rest buffer addr h is = elim h.0 [ ]
find_from_others (datagram bytes ip ∷ others) rest buffer addr h is =
    let (e, is') = write_bytes-IsBuffer bytes buffer h.0.1 is in
    let (b, is'', f) =
      find_from_others others rest (bytes ++ drop (length bytes) buffer) addr h.1 is' in
    (b, is'', rw (e, asks_for_other response_line bytes (drop (length bytes) buffer) h.0.0) f)

ssdp_receive_others :
    (s : Announced) (beacon : Bool) (others rest : List Ssdp) (buffer : List ℕ)
    → All (IsOther msearch_line) others
    → IsBuffer buffer
    → (b : List ℕ) × IsBuffer b
      × (ssdp_receive s beacon (others ++ rest) buffer ≡ ssdp_receive s beacon rest b)
unfolding ssdp_receive
ssdp_receive_others s beacon [] rest buffer h is = (buffer, is, refl)
ssdp_receive_others s beacon (time_over ∷ others) rest buffer h is = elim h.0 [ ]
ssdp_receive_others s beacon (failed ∷ others) rest buffer h is = elim h.0 [ ]
ssdp_receive_others s beacon (datagram bytes ip ∷ others) rest buffer h is =
    let (e, is') = write_bytes-IsBuffer bytes buffer h.0.1 is in
    let (b, is'', f) =
      ssdp_receive_others s beacon others rest (bytes ++ drop (length bytes) buffer) h.1 is' in
    (b, is'', rw (e, asks_for_other msearch_line bytes (drop (length bytes) buffer) h.0.0) f)

sent_bytes-append : (text rest : List ℕ) → sent_bytes (length text) (text ++ rest) ≡ some text
unfolding sent_bytes
sent_bytes-append text rest =
    rw (le→leb (length text) (length (text ++ rest)) (omega (arith, length-append text rest)))
      (ap some (take-append_left text rest))

module _ (s : Announced) (is : IsAnnounced s) where
  -- A server answers the request of a client, and waits on.
  ssdp_receive-msearch :
      (beacon : Bool) (ip buffer : List ℕ)
      → IsBuffer buffer
      → ssdp_receive s beacon (datagram msearch_text ip ∷ []) buffer
        ≡ some (false, response_text s ∷ [])
  unfolding ssdp_receive ssdp_response
  ssdp_receive-msearch beacon ip buffer b =
      let short : length msearch_text < ssdp_packet_size = omega (arith, length-msearch_text) in
      let (e, b') = write_bytes-IsBuffer msearch_text buffer short b in
      let (t, there) = rest_of_buffer msearch_text buffer short b in
      let asked =
        asks_for_named msearch_line msearch_text (drop (length msearch_text) buffer) t
          msearch_text-Names msearch_text-IsText there in
      let (rest, printed, b'') =
        snprintf-IsBuffer (response_text s) (msearch_text ++ drop (length msearch_text) buffer)
          (omega (arith, response_text_short s is)) b' in
      rw (e, asked, printed, sent_bytes-append (response_text s) rest)

  find_from-response :
      (ip buffer addr : List ℕ) (more : List Ssdp) (o : Option Found)
      → IsBuffer buffer
      → ((t : List ℕ) → take_location (after_location s ++ t) ip addr ≡ o)
      → find_from (datagram (response_text s) ip ∷ more) buffer addr ≡ o
  unfolding find_from
  find_from-response ip buffer addr more o b taken =
      let short : length (response_text s) < ssdp_packet_size =
        omega (arith, response_text_short s is) in
      let (e, b') = write_bytes-IsBuffer (response_text s) buffer short b in
      let (t, there) = rest_of_buffer (response_text s) buffer short b in
      let after = drop (length (response_text s)) buffer in
      let asked =
        asks_for_named response_line (response_text s) after t (response_text-Names s)
          (response_text-IsText s is) there in
      rw (e, asked, find_in-response s is after t ip addr o there taken) (stops o)
    where
      stops :
          (o : Option Found)
          → ((o >>= λ r. some (some r)) >>= λ r. elim r [
            | none ↦ find_from more (response_text s ++ drop (length (response_text s)) buffer) addr
            | some f ↦ some f
          ])
            ≡ o
      stops none = refl
      stops (some f) = refl

  -- Let a server announce an address of at most 16 characters without a colon, an `int` as port and
  -- a name of at most 31 characters, and let the last byte of both stack buffers be 0. When a client
  -- looks for a server, then, whatever datagrams that are no requests, each of fewer than 1500 bytes, reach the server before its
  -- own, the server sends one packet; and when that packet reaches the client, whatever datagrams
  -- that are no answers, each of fewer than 1500 bytes, came before it, the client has found the server's port, and, where the
  -- caller's memory has room for it, the address announced with the address that the packet came
  -- from behind it.
  pub find_server-ssdp_receive :
      (beacon : Bool) (ip from server_buffer client_buffer addr : List ℕ)
      (before others more : List Ssdp)
      → IsBuffer server_buffer
      → IsBuffer client_buffer
      → All (IsOther msearch_line) before
      → All (IsOther response_line) others
      → length s.addr + length ip < length addr
      → (request : List ℕ) × (answer : List ℕ) × (ssdp_receive s beacon
            (before ++ datagram request from ∷ [])
            server_buffer
          ≡ some (false, answer ∷ []))
        × (find_server (others ++ datagram answer ip ∷ more) client_buffer addr
            ≡ some (
              request,
              found
                  ((s.addr ++ (ip ++ 0 ∷ [])) ++ drop (length (s.addr ++ (ip ++ 0 ∷ []))) addr)
                  s.port,
            ))
  unfolding find_server ssdp_msearch
  find_server-ssdp_receive beacon ip from server_buffer client_buffer addr before others more bs bc
        hb ho room =
      let (b1, is1, skipped) =
        ssdp_receive_others s beacon before (datagram msearch_text from ∷ []) server_buffer hb bs in
      let (rest, printed, is2) =
        snprintf-IsBuffer msearch_text client_buffer (omega (arith, length-msearch_text)) bc in
      let (b3, is3, passed) =
        find_from_others others (datagram (response_text s) ip ∷ more) (msearch_text ++ rest) addr
          ho is2 in
      (
        msearch_text,
        response_text s,
        skipped ∙ ssdp_receive-msearch beacon from b1 is1,
        rw (
          printed,
          sent_bytes-append msearch_text rest,
          passed,
          find_from-response ip b3 addr more _ is3 (take_location-after s is ip addr room),
        ),
      )

  -- Where that memory has no room for both addresses and a terminator, as the twenty characters of
  -- `addr` have not for an announced 10.100.1.1 that is sent from there, the client writes past it.
  pub find_server_overflow :
      (ip client_buffer addr : List ℕ) (others more : List Ssdp)
      → IsBuffer client_buffer
      → All (IsOther response_line) others
      → length addr ≤ length s.addr + length ip
      → find_server (others ++ datagram (response_text s) ip ∷ more) client_buffer addr ≡ none
  unfolding find_server ssdp_msearch
  find_server_overflow ip client_buffer addr others more bc ho full =
      let (rest, printed, is2) =
        snprintf-IsBuffer msearch_text client_buffer (omega (arith, length-msearch_text)) bc in
      let (b3, is3, passed) =
        find_from_others others (datagram (response_text s) ip ∷ more) (msearch_text ++ rest) addr
          ho is2 in
      rw
        (
          printed,
          sent_bytes-append msearch_text rest,
          passed,
          find_from-response ip b3 addr more none is3 (take_location_overflow s is ip addr full),
        )
        refl
