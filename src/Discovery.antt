-- ===== src/Discovery.antt =====
-- Finding a server by SSDP: libsyncs/syncs-common.h, the texts; `syncs_server_ssdp_response` and
-- `syncs_server_ssdp_receive` of libsyncs/syncs-server.c; `syncs_ssdp_msearch` and
-- `syncs_find_server` of libsyncs/syncs-client.c.
pub mod Buffers
pub mod Reads
pub mod Finds
pub mod Meets
mod Tests
use syncscribe.Common.{
  ℕ, zero, suc, ◌+◌, ◌-◌, ◌*◌, ◌^◌, List, [], ◌∷◌, ◌++◌, Bool, true, false, Option, none, some, leb,
  ltb, ◌==◌, if◌then◌else◌, length, take, drop, ◌>>=◌,
}
use syncscribe.Types.{SyncsId}
use syncscribe.Text.{codes, c_string, starts, find_text, write_bytes, snprintf, decimal, is_digit}

abbrev pub ssdp_packet_size : ℕ
ssdp_packet_size = 1500

-- `ssdp_headers.msearch`, and `.response`.
abbrev pub msearch_line : List ℕ
msearch_line = codes "M-SEARCH * HTTP/1.1\r\n"

abbrev pub response_line : List ℕ
response_line = codes "HTTP/1.1 200 OK\r\n"

-- `ssdp_network`.
abbrev pub ssdp_ip : List ℕ
ssdp_ip = codes "239.255.255.250"

abbrev pub ssdp_port : ℕ
ssdp_port = 1900

-- `syncs_ssdp_field.name`.
abbrev pub field_name : List ℕ
field_name = codes "syncscribe-server"

abbrev pub location_field : List ℕ
location_field = codes "LOCATION:"

-- What a server tells of itself: `addr`, `port` and `id`, as strings.
pub record Announced : Type 0 where
  pub addr : List ℕ
  pub port : ℕ
  pub id : List ℕ

-- The text that `syncs_server_ssdp_response` prints.
unfoldable pub response_text : Announced → List ℕ
unfolding decimal
response_text s =
    response_line
    ++ (codes "CACHE-CONTROL:max-age=120\r\nDATE:\r\nEXT:\r\n"
        ++ (location_field
            ++ (s.addr
                ++ (b':'
                    ∷ (decimal s.port
                        ++ (codes "\r\nSERVER:unknow\r\nST:"
                            ++ (field_name
                                ++ (codes "\r\nUSN:" ++ (s.id ++ codes "\r\n\r\n")))))))))

unfoldable pub ssdp_response : Announced → List ℕ → Option (ℕ × List ℕ)
unfolding snprintf response_text
ssdp_response s buffer = snprintf ssdp_packet_size (response_text s) buffer

-- The text that `syncs_ssdp_msearch` prints.
unfoldable pub msearch_text : List ℕ
unfolding decimal
msearch_text =
    msearch_line
    ++ (codes "HOST:"
        ++ (ssdp_ip
            ++ (b':'
                ∷ (decimal ssdp_port
                    ++ (codes "\r\nMAN:\"ssdp:discover\"\r\nMX:1\r\nST:"
                        ++ (field_name ++ codes "\r\nUSER-AGENT:unknow\r\n\r\n"))))))

unfoldable pub ssdp_msearch : List ℕ → Option (ℕ × List ℕ)
unfolding snprintf msearch_text
ssdp_msearch buffer = snprintf ssdp_packet_size msearch_text buffer

-- What `recvfrom` gives: the bytes that it stores, 1500 at most, and the address of their sender as
-- `inet_ntop` prints it; that the time to wait is over; or another error.
pub data Ssdp : Type 0 where
  datagram : List ℕ → List ℕ → Ssdp
  time_over : Ssdp
  failed : Ssdp

-- The bytes handed to `sendto`. `none`: it reads past the buffer.
unfoldable pub sent_bytes : ℕ → List ℕ → Option (List ℕ)
sent_bytes size buffer = if leb size (length buffer) then some (take size buffer) else none

-- `strstr(…) != NULL`.
abbrev pub is_found : Option ℕ → Bool
is_found none = false
is_found (some i) = true

-- Whether the memory starts with `line`, once `size` bytes were received, and names the servers.
unfoldable pub asks_for : List ℕ → ℕ → List ℕ → Option Bool
unfolding c_string starts find_text
asks_for line size memory =
    if ltb size (length line)
    then some false
    else if starts line memory
    then (do text ← c_string memory; some (is_found (find_text field_name text)))
    else some false

-- `syncs_server_ssdp_receive` over what arrives: whether it has returned, and the packets that it
-- sent to the group.
unfoldable pub ssdp_receive : Announced → Bool → List Ssdp → List ℕ → Option (Bool × List (List ℕ))
unfolding asks_for ssdp_response write_bytes sent_bytes
ssdp_receive s beacon [] buffer = some (false, [])
ssdp_receive s beacon (failed ∷ xs) buffer = some (true, [])
ssdp_receive s beacon (time_over ∷ xs) buffer =
    if beacon
    then (do
      (size, buffer') ← ssdp_response s buffer
      packet ← sent_bytes size buffer'
      some (true, packet ∷ []))
    else some (true, [])
ssdp_receive s beacon (datagram bytes ip ∷ xs) buffer = do
  memory ← write_bytes bytes buffer
  asked ← asks_for msearch_line (length bytes) memory
  elim asked [
    | false ↦ ssdp_receive s beacon xs memory
    | true ↦ do
      (size, memory') ← ssdp_response s memory
      packet ← sent_bytes size memory'
      (returned, sent) ← ssdp_receive s beacon xs memory'
      some (returned, packet ∷ sent)
  ]

-- The loop that copies the address: up to `:`, or 17 characters. What it has written, and where
-- `location` points afterwards.
unfoldable pub copy_address : ℕ → List ℕ → Option (List ℕ × List ℕ)
copy_address zero location = some ([], location)
copy_address (suc rounds) [] = none
copy_address (suc rounds) (x ∷ location) = elim (x == b':') [
  | true ↦ some ([], x ∷ location)
  | false ↦ do (written, rest) ← copy_address rounds location; some (x ∷ written, rest)
]

-- `while (isdigit(*location))`. `none`: the `int` overflows.
unfoldable pub read_port : List ℕ → ℕ → Option ℕ
read_port [] port = none
read_port (x ∷ location) port =
    let port' = port * 10 + (x - b'0') in
    elim (is_digit x) [
      | true ↦ elim (ltb port' (2 ^ 31)) [ true ↦ read_port location port' | false ↦ none ]
      | false ↦ some port
    ]

pub data Found : Type 0 where
  -- 0 is returned: the memory of the address, and the port.
  found : List ℕ → ℕ → Found
  not_found : Found
  still_waiting : Found

-- What is done with an answer that names the servers: the characters after `LOCATION:`, then
-- `inet_ntop` to where `addr` points by then.
unfoldable pub take_location : List ℕ → List ℕ → List ℕ → Option Found
unfolding copy_address read_port write_bytes
take_location location ip addr = do
  (written, rest) ← copy_address 17 location
  port ← read_port (drop 1 rest) 0
  addr' ← write_bytes (written ++ (ip ++ 0 ∷ [])) addr
  some (found addr' port)

-- From the place of `LOCATION:` on, if there is one.
unfoldable pub find_at : List ℕ → List ℕ → List ℕ → Option ℕ → Option (Option Found)
unfolding take_location
find_at memory ip addr none = some none
find_at memory ip addr (some i) = do
  r ← take_location (drop (i + length location_field) memory) ip addr
  some (some r)

unfoldable pub find_in : List ℕ → List ℕ → List ℕ → Option (Option Found)
unfolding find_at c_string find_text
find_in memory ip addr = do
  text ← c_string memory
  find_at memory ip addr (find_text location_field text)

-- The loop of `syncs_find_server` over what arrives.
unfoldable pub find_from : List Ssdp → List ℕ → List ℕ → Option Found
unfolding find_in asks_for write_bytes
find_from [] buffer addr = some still_waiting
find_from (time_over ∷ xs) buffer addr = some not_found
find_from (failed ∷ xs) buffer addr = some not_found
find_from (datagram bytes ip ∷ xs) buffer addr = do
  memory ← write_bytes bytes buffer
  asked ← asks_for response_line (length bytes) memory
  elim asked [
    | false ↦ find_from xs memory addr
    | true ↦ do
      r ← find_in memory ip addr
      elim r [ none ↦ find_from xs memory addr | some f ↦ some f ]
  ]

-- `syncs_find_server`: the packet that it sends, and what it finds. `buffer` is the stack's memory,
-- `addr` that of the caller.
unfoldable pub find_server : List Ssdp → List ℕ → List ℕ → Option (List ℕ × Found)
unfolding ssdp_msearch find_from sent_bytes
find_server xs buffer addr = do
  (size, buffer') ← ssdp_msearch buffer
  packet ← sent_bytes size buffer'
  r ← find_from xs buffer' addr
  some (packet, r)
