-- ===== src/Server/Listing/Gathered.antt =====
-- The lists of events and channels that a server sends, put together by the client that asked.
use syncscribe.Common.{
  All, ℕ, ◌*◌, ◌%◌, ◌≤◌, ◌<◌, ◌≡◌, ap, List, ◌++◌, map, Option, some, arith, length, get_elem?,
  drop, Yields, weaken,
}
use syncscribe.Types.{Header, EventInfo, ChannelInfo, event_info_size, channel_info_size, pos}
use syncscribe.Server.{Server}
use syncscribe.Server.Send.{Env}
use syncscribe.Server.Listing.{
  Table, send_list, event_table, channel_table, client_send_eventlist, client_send_channellist,
  listed_event, listed_channel,
}
use syncscribe.Server.Listing.Parts.{
  IsConnected, Listed, ends, skips, lists, bytes_of_all, as_packet, length-bytes_of_all,
}
use syncscribe.Server.Frame.{HasShort}
use syncscribe.Server.Listing.Keeps.{
  IsBounded, HasEvents, Always, All-Always, event_table-IsBounded, channel_table-IsBounded,
}
use syncscribe.Server.Listing.Rounds.{IsListable, send_list-Sends}
use syncscribe.Client.{Gathered}
use syncscribe.Client.Packets.Parts.{receive_parts, IsGathered, receive_parts-IsGathered}

length-Listed :
    {A : Type 0} {fill : ℕ → Option (A → Option A)} {n i : ℕ} {es : List A}
    → Listed fill n i es
    → length es ≤ n
length-Listed (ends i) = omega arith
length-Listed (skips n i es e l) = omega (arith, length-Listed l)
length-Listed (lists n i f a b es e made l) = omega (arith, length-Listed l)

-- A client waits for the answer to its request, with memory for `room` bytes.
pub record Waits (seq room : ℕ) (memory : List ℕ) (g : Gathered) : Type 0 where
  pub info : g.info ≡ some memory
  pub sequence : g.sequence ≡ seq
  pub wait_packet : g.wait_packet ≡ 0
  pub recv : g.recv ≡ 0
  pub space : length memory ≡ room

module _ {A : Type 0} (table : Table A) (encode : A → List ℕ) (fd seq : ℕ) where
  -- From s to t, packets went over socket fd, and a client that receives them in that order has the
  -- entries of all slots in use, in the slots' order, and their number, and its wait is over.
  pub record Serves (memory : List ℕ) (g : Gathered) (s t : Server) : Type 0 where
    pub packets : List (Header × List A)
    pub entries : List A
    pub listed : Listed (table.fill s) table.size 0 entries
    pub output : t.output ≡ s.output ++ map (λ p. table.over_tcp p.0 p.1 (pos fd)) packets
    pub gathered :
        let bytes = bytes_of_all encode entries in
        Yields
          (IsGathered table.entry_size seq (bytes ++ drop (length bytes) memory) (length entries))
          (receive_parts table.entry_size (map (as_packet encode) packets) g)

  send_list-Serves :
      (Ready : A → Type 0) (Good : Server → Type 0)
      → IsBounded table Ready Good
      → (env : Env) (c total sequance : ℕ) (slots : List A) (memory : List ℕ) (g : Gathered)
        (s : Server)
      → IsListable table
      → ((a : A) → length (encode a) ≡ table.entry_size)
      → IsConnected c fd s
      → Good s
      → 5 ≤ length env.stack.header.id
      → sequance % 256 ≡ seq
      → table.per_packet ≤ length slots
      → All Ready slots
      → Waits seq (table.size * table.entry_size) memory g
      → Yields (Serves memory g s) (send_list table env c total sequance slots s)
  send_list-Serves Ready Good safe env c total sequance slots memory g s is sized conn v long asked
        room ready w =
      weaken
        (send_list-Sends table is env c fd encode sized seq Ready Good safe total sequance slots s
          conn v long asked room ready)
        λ t q.
          let size = length-bytes_of_all encode table.entry_size q.entries sized in
          let few = length-Listed q.listed in
          record {
            packets = q.packets;
            entries = q.entries;
            listed = q.listed;
            output = q.goes.output;
            gathered =
                receive_parts-IsGathered table.entry_size seq (length q.entries)
                  (bytes_of_all encode q.entries) memory (map (as_packet encode) q.packets) g
                  q.parts w.info w.sequence w.wait_packet w.recv (grind (arith, size, few, w.space))
                  (omega (arith, few, is.bounded));
          }

event_table-IsListable : IsListable event_table
event_table-IsListable = record {
  some_fit = omega arith;
  few_fit = omega arith;
  bounded = omega arith;
  fixed = λ s t e c. ap (λ es i. listed_event (get_elem? es i)) e;
}

channel_table-IsListable : IsListable channel_table
channel_table-IsListable = record {
  some_fit = omega arith;
  few_fit = omega arith;
  bounded = omega arith;
  fixed = λ s t e c. ap (λ cs i. listed_channel (get_elem? cs i)) c;
}

module _ (env : Env) (c fd sequance : ℕ) (memory : List ℕ) (g : Gathered) (s : Server) where
  -- Where a client connected over TCP asked for the list of events, with memory for all 256 and a
  -- request's number below 256, what the server sends it is, put together by the client in the order
  -- sent, the entries of all events in use, in the order of the table, and their number, and the
  -- client's wait is over: whatever the layout of an entry in its 90 bytes. The events of the table
  -- must be valid, and the stack must have room for the entries of a packet, each with 32 bytes of
  -- `short_data`, and its header for an identifier.
  pub client_send_eventlist-Serves :
      (encode : EventInfo → List ℕ)
      → ((a : EventInfo) → length (encode a) ≡ event_info_size)
      → IsConnected c fd s
      → HasEvents s
      → 5 ≤ length env.stack.header.id
      → 5 ≤ length env.event_slots
      → All HasShort env.event_slots
      → sequance < 256
      → Waits sequance (256 * event_info_size) memory g
      → Yields
          (Serves event_table encode fd sequance memory g s)
          (client_send_eventlist env c sequance s)
  unfolding client_send_eventlist
  client_send_eventlist-Serves encode sized conn v long room short small w =
      send_list-Serves event_table encode fd sequance HasShort HasEvents event_table-IsBounded env c
        s.event_count sequance env.event_slots memory g s event_table-IsListable sized conn v long
        (omega arith) room short w

  -- So it is for the list of channels, of which a packet has eleven.
  pub client_send_channellist-Serves :
      (encode : ChannelInfo → List ℕ)
      → ((a : ChannelInfo) → length (encode a) ≡ channel_info_size)
      → IsConnected c fd s
      → 5 ≤ length env.stack.header.id
      → 11 ≤ length env.channel_slots
      → sequance < 256
      → Waits sequance (32 * channel_info_size) memory g
      → Yields
          (Serves channel_table encode fd sequance memory g s)
          (client_send_channellist env c sequance s)
  unfolding client_send_channellist
  client_send_channellist-Serves encode sized conn long room small w =
      send_list-Serves channel_table encode fd sequance Always Always channel_table-IsBounded env c
        s.channel_count sequance env.channel_slots memory g s channel_table-IsListable sized conn tt
        long (omega arith) room (All-Always env.channel_slots) w
