-- ===== src/Wire.antt =====
-- libsyncs/syncs-types.h: the bytes of a packed `struct syncs_header`, which the receive loops of
-- libsyncs/syncs-server.c and libsyncs/syncs-client.c read through a cast of their buffer and the
-- senders write. Numbers are little-endian, as on the x86 and ARM hosts that the library targets.
use syncscribe.Common.{ℕ, ◌+◌, List, ◌++◌, take, drop, word, bytes_of, bit_and}
use syncscribe.Types.{Header, Packet, header_size}

-- `(struct syncs_header *) b`.
unfoldable pub read_header : List ℕ → Header
read_header b = record {
  magic = word (take 1 b);
  crc = word (take 4 (drop 1 b));
  type = word (take 4 (drop 5 b));
  id = take 32 (drop 9 b);
  data0 = word (take 4 (drop 41 b));
  data1 = word (take 4 (drop 45 b));
  update_counter = word (take 8 (drop 49 b));
  data_size = word (take 2 (drop 57 b));
  magic_data = word (take 1 (drop 59 b));
}

-- The bytes of a header in memory.
unfoldable pub write_header : Header → List ℕ
write_header h =
    bytes_of 1 h.magic
    ++ (bytes_of 4 h.crc
        ++ (bytes_of 4 h.type
            ++ (h.id
                ++ (bytes_of 4 h.data0
                    ++ (bytes_of 4 h.data1
                        ++ (bytes_of 8 h.update_counter
                            ++ (bytes_of 2 h.data_size ++ bytes_of 1 h.magic_data)))))))

-- `SYNCS_PACKET_DATA_SIZE` and `SYNCS_PACKET_SIZE`.
abbrev pub packet_data_size : ℕ → ℕ
packet_data_size data_size = bit_and data_size 0x0fff

unfoldable pub packet_size : Packet → ℕ
packet_size p = header_size + packet_data_size p.header.data_size

-- The bytes that a send of the packet hands to the socket.
unfoldable pub wire : Packet → List ℕ
unfolding packet_size write_header
wire p = take (packet_size p) (write_header p.header ++ p.buffer)
