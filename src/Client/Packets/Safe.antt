-- ===== src/Client/Packets/Safe.antt =====
-- What a client does with a packet stays inside its memory.
use syncscribe.Common.{
  ℕ, ◌≡◌, ◌∙◌, List, ◌&&◌, not, Option, none, some, arith, ◌==◌, ◌>>=◌, inl, inr, Option-cases,
  length, take, All-get_elem?, memcpy, memcpy_lem, length-memcpy, le→leb, Yields, yields, bind,
  Yields-of_eq, Yields-if, Yields-get, find_index, find_index-lt-length, bit_and,
}
use syncscribe.Types.{
  Packet, type_msg_mask, type_event, type_channel, type_server_status, type_read, type_event_list,
  type_client_list, type_channel_list, type_channel_mask, channel_ticket, error_notsupport,
  error_crypt, error_unknownclient, channel_ticket_size, event_info_size, client_info_size,
  channel_info_size,
}
use syncscribe.Id.{idcmp}
use syncscribe.Server.Channels.{read_ticket}
use syncscribe.Server.Dispatch.Keeps.{IsReceived}
use syncscribe.Client.{ClientEvent, Connect, Gathered, Outside}
use syncscribe.Client.Slots.{client_find_event, client_has_id}
use syncscribe.Client.Packets.{
  process_event, keep_event, put_client_event, channel_process_packet, process_error, process_read,
  receive_part, wait_for_sync, process_packet,
}
use syncscribe.Client.Packets.Rooms.{
  HasRoom, IsConnect, IsOutside, Keeps, send_id-IsConnect, call_back-IsConnect,
  wait_for_sync-IsConnect, put_client_event-IsConnect,
}

keep_event-IsConnect :
    (i : ℕ) (p : Packet) (e : ClientEvent) (s : Connect)
    → IsReceived p
    → HasRoom e.memory
    → IsConnect s
    → Keeps (keep_event i p e s)
unfolding keep_event
keep_event-IsConnect i p e s ok room v = go e.memory room
  where
    go :
        (memory : Option (List ℕ))
        → HasRoom memory
        → Keeps (elim memory [
          | none ↦
              some (put_client_event i (record e { update_counter = p.header.update_counter }) s)
          | some m ↦ do
            m' ← memcpy m p.buffer p.header.data_size
            some
                (record (put_client_event i
                  (record e {
                    memory = some m';
                    data_size = p.header.data_size;
                    update_counter = p.header.update_counter;
                  })
                  s) { events_queue = some i; event_wait = 0 })
        ])
    go none h = yields _ (
        put_client_event-IsConnect i (record e { update_counter = p.header.update_counter }) s v
          room)
    go (some m) h =
        bind _
          (Yields-of_eq {P = λ m'. length m' ≡ length m}
            (memcpy_lem m p.buffer p.header.data_size (omega (arith, ok.small, h)) ok.data_there)
            (length-memcpy m p.buffer p.header.data_size (omega (arith, ok.small, h))
              ok.data_there))
          λ m' same.
            let u =
              put_client_event-IsConnect i
                (record e {
                  memory = some m';
                  data_size = p.header.data_size;
                  update_counter = p.header.update_counter;
                })
                s v (omega (arith, same, h)) in
            yields _ (record {
              read_room = u.read_room;
              rooms = u.rooms;
              no_events = u.no_events;
              no_clients = u.no_clients;
              no_channels = u.no_channels;
            })

process_event-IsConnect :
    (p : Packet) (s : Connect) → IsReceived p → IsConnect s → Keeps (process_event p s)
unfolding process_event client_find_event
process_event-IsConnect p s ok v =
    elim (Option-cases (find_index (client_has_id p.header.id) s.events)) [
      | inl unknown ↦ rw (unknown, process_event) (yields _ v)
      | inr (i, found) ↦
          rw (found, process_event)
            (bind _
              (Yields-get s.events i
                (find_index-lt-length (client_has_id p.header.id) s.events i found))
              λ e at_e.
                keep_event-IsConnect i p e _ ok
                  (All-get_elem? (λ e. HasRoom e.memory) s.events i e v.rooms at_e)
                  (call_back-IsConnect e.callback e.id (take p.header.data_size p.buffer) s v))
    ]

channel_process_packet-IsConnect :
    (p : Packet) (s : Connect) → IsReceived p → IsConnect s → Keeps (channel_process_packet p s)
unfolding channel_process_packet read_ticket
channel_process_packet-IsConnect p s ok v =
    Yields-if
      ((bit_and p.header.type type_channel_mask == channel_ticket)
        && (not (s.ticket_wait == 0) && idcmp p.header.id s.ticket_id))
      _ _
      (λ _. rw (le→leb channel_ticket_size (length p.buffer) ok.ticket_there) (
        yields _ (record {
          read_room = v.read_room;
          rooms = v.rooms;
          no_events = v.no_events;
          no_clients = v.no_clients;
          no_channels = v.no_channels;
        })))
      (λ _. yields _ v)

process_read-IsConnect :
    (p : Packet) (s : Connect) → IsReceived p → IsConnect s → Keeps (process_read p s)
unfolding process_read
process_read-IsConnect p s ok v =
    Yields-if (not (s.read_wait == 0) && idcmp p.header.id s.read_id) _ _
      (λ _.
        bind _
          (Yields-of_eq {P = λ m. length m ≡ length s.read_data}
            (memcpy_lem s.read_data p.buffer p.header.data_size
              (omega (arith, v.read_room, ok.small)) ok.data_there)
            (length-memcpy s.read_data p.buffer p.header.data_size
              (omega (arith, v.read_room, ok.small)) ok.data_there))
          λ m same. yields _ (record {
            read_room = same ∙ v.read_room;
            rooms = v.rooms;
            no_events = v.no_events;
            no_clients = v.no_clients;
            no_channels = v.no_channels;
          }))
      (λ _. yields _ v)

-- A part of a list that has not been asked for is ignored.
receive_part-ignored :
    (entry_size : ℕ) (p : Packet) (g : Gathered)
    → g.info ≡ none
    → Yields (λ g'. g'.info ≡ none) (receive_part entry_size p g)
unfolding receive_part
receive_part-ignored entry_size p g h = rw (h, receive_part) (yields _ h)

process_error-IsConnect :
    (env : Outside) (p : Packet) (s : Connect)
    → IsOutside env
    → IsConnect s
    → Keeps (process_error env p s)
unfolding process_error
process_error-IsConnect env p s w v =
    let exits : IsConnect (record s { onexit = 1 }) = record {
      read_room = v.read_room;
      rooms = v.rooms;
      no_events = v.no_events;
      no_clients = v.no_clients;
      no_channels = v.no_channels;
    } in
    Yields-if (p.header.update_counter == error_notsupport) _ _ (λ _. yields _ exits)
      λ _.
        Yields-if (p.header.update_counter == error_crypt) _ _ (λ _. yields _ exits)
          λ _.
            Yields-if (p.header.update_counter == error_unknownclient) _ _
              (λ _. send_id-IsConnect env s w v) (λ _. yields _ v)

-- A client that has asked for no list, and whose subscriptions have memory for 511 bytes where they
-- have any, handles every packet to an end, with every copy inside its objects, and stays such a
-- client: whatever the packet asks for and whoever has sent it, if its size is 511 at most, and so
-- much memory lies behind its header, and at least the ten bytes of a ticket, and the stack's packet
-- has its 4095 bytes.
pub process_packet-IsConnect :
    (env : Outside) (p : Packet) (s : Connect)
    → IsOutside env
    → IsReceived p
    → IsConnect s
    → Yields IsConnect (process_packet env p s)
unfolding process_packet
process_packet-IsConnect env p s w ok v =
    let kind = bit_and p.header.type type_msg_mask in
    Yields-if (kind == type_event) _ _
      (λ _.
        process_event-IsConnect p (wait_for_sync p.header s) ok
          (wait_for_sync-IsConnect p.header s v))
      λ _.
        Yields-if (kind == type_channel) _ _ (λ _. channel_process_packet-IsConnect p s ok v)
          λ _.
            Yields-if (kind == type_server_status) _ _
              (λ _.
                process_error-IsConnect env p (record s { server_id = p.header.id }) w
                  (record {
                    read_room = v.read_room;
                    rooms = v.rooms;
                    no_events = v.no_events;
                    no_clients = v.no_clients;
                    no_channels = v.no_channels;
                  }))
              λ _.
                Yields-if (kind == type_read) _ _ (λ _. process_read-IsConnect p s ok v)
                  λ _.
                    Yields-if (kind == type_event_list) _ _
                      (λ _.
                        bind _ (receive_part-ignored event_info_size p s.eventlist v.no_events)
                          λ g h. yields _ (record {
                            read_room = v.read_room;
                            rooms = v.rooms;
                            no_events = h;
                            no_clients = v.no_clients;
                            no_channels = v.no_channels;
                          }))
                      λ _.
                        Yields-if (kind == type_client_list) _ _
                          (λ _.
                            bind _
                              (receive_part-ignored client_info_size p s.clientlist v.no_clients)
                              λ g h. yields _ (record {
                                read_room = v.read_room;
                                rooms = v.rooms;
                                no_events = v.no_events;
                                no_clients = h;
                                no_channels = v.no_channels;
                              }))
                          λ _.
                            Yields-if (kind == type_channel_list) _ _
                              (λ _.
                                bind _
                                  (receive_part-ignored channel_info_size p s.channellist
                                    v.no_channels)
                                  λ g h. yields _ (record {
                                    read_room = v.read_room;
                                    rooms = v.rooms;
                                    no_events = v.no_events;
                                    no_clients = v.no_clients;
                                    no_channels = h;
                                  }))
                              (λ _. yields _ v)
