-- ===== src/Client/Packets/Rooms.antt =====
-- The memory of a client that asks for no list, and what sending does to it: nothing.
use syncscribe.Common.{
  ℕ, ◌≤◌, ◌≡◌, List, [], ◌∷◌, Option, none, some, arith, ◌==◌, inl, inr, Bool-cases, length, All,
  All-set, memcpy_lem, Yields, yields, bind, Yields-of_eq, Yields-if, bit_and,
}
use syncscribe.Types.{
  Packet, Header, type_sync, variable_size_maximum, event_data_size_maximum, channel_ticket_size,
}
use syncscribe.Id.{is_free}
use syncscribe.Server.{Callback}
use syncscribe.Server.Channels.{write_ticket}
use syncscribe.Server.Channels.Keeps.{length-write_ticket}
use syncscribe.Client.{ClientEvent, ConnectChannel, Connect, Outside, ClientOutput}
use syncscribe.Client.Requests.{
  connect_send, is_open, send_id, client_send_id, client_send_subscribe, client_send_channel_anons,
  subscribe_all, announce_all, client_emit,
}
use syncscribe.Client.Packets.{call_back, put_client_event, wait_for_sync}

-- Memory for the largest packet, where there is any.
abbrev pub HasRoom : Option (List ℕ) → Type 0
HasRoom none = Unit {0}
HasRoom (some m) = variable_size_maximum ≤ length m

-- A connection whose subscriptions have memory for the largest packet, and that has asked for no list.
pub record IsConnect (s : Connect) : Type 0 where
  pub read_room : length s.read_data ≡ variable_size_maximum
  pub rooms : All (λ e. HasRoom e.memory) s.events
  pub no_events : s.eventlist.info ≡ none
  pub no_clients : s.clientlist.info ≡ none
  pub no_channels : s.channellist.info ≡ none

-- The stack's packet is as long as a packet.
pub record IsOutside (env : Outside) : Type 0 where
  pub room : length env.stack.buffer ≡ event_data_size_maximum

abbrev pub Keeps : Option Connect → Type 0
Keeps o = Yields IsConnect o

pub client_emit-IsConnect :
    (o : ClientOutput) (s : Connect) → IsConnect s → IsConnect (client_emit o s)
client_emit-IsConnect o s v = record {
  read_room = v.read_room;
  rooms = v.rooms;
  no_events = v.no_events;
  no_clients = v.no_clients;
  no_channels = v.no_channels;
}

pub connect_send-IsConnect :
    (env : Outside) (p : Packet) (size : ℕ) (s : Connect)
    → IsConnect s
    → IsConnect (connect_send env p size s).1
unfolding connect_send
connect_send-IsConnect env p size s v = elim (Bool-cases (is_open s.socketfd)) [
  | inl tcp ↦ rw tcp (client_emit-IsConnect _ s v)
  | inr no_tcp ↦ elim (Bool-cases (is_open s.usocketfd)) [
    | inl udp ↦ rw (no_tcp, udp) (client_emit-IsConnect _ s v)
    | inr no_udp ↦ rw (no_tcp, no_udp) v
  ]
]

pub subscribe_all-IsConnect :
    (env : Outside) (es : List ClientEvent) (s : Connect)
    → IsConnect s
    → IsConnect (subscribe_all env es s)
unfolding subscribe_all client_send_subscribe
subscribe_all-IsConnect env [] s v = v
subscribe_all-IsConnect env (e ∷ es) s v = elim (Bool-cases (is_free e.id)) [
  | inl free ↦ rw free (subscribe_all-IsConnect env es s v)
  | inr used ↦ rw used (subscribe_all-IsConnect env es _ (connect_send-IsConnect env _ _ s v))
]

pub announce_all-IsConnect :
    (env : Outside) (cs : List ConnectChannel) (s : Connect)
    → IsOutside env
    → IsConnect s
    → Keeps (announce_all env cs s)
unfolding announce_all client_send_channel_anons
announce_all-IsConnect env [] s w v = yields s v
announce_all-IsConnect env (c ∷ cs) s w v =
    bind _
      (Yields-if (is_free c.id) _ _ (λ _. yields s v)
        (λ _.
          bind _
            (Yields-of_eq {P = λ _. Unit {0}}
              (memcpy_lem env.stack.buffer (write_ticket c.ticket) channel_ticket_size
                (omega (arith, w.room)) (omega (arith, length-write_ticket c.ticket)))
              tt)
            λ b _. yields _ (connect_send-IsConnect env _ _ s v)))
      λ t u. announce_all-IsConnect env cs t w u

pub send_id-IsConnect :
    (env : Outside) (s : Connect) → IsOutside env → IsConnect s → Keeps (send_id env s)
unfolding send_id client_send_id
send_id-IsConnect env s w v =
    announce_all-IsConnect env s.channels _ w
      (subscribe_all-IsConnect env s.events _ (connect_send-IsConnect env _ _ s v))

pub call_back-IsConnect :
    (cb : Option Callback) (id value : List ℕ) (s : Connect)
    → IsConnect s
    → IsConnect (call_back cb id value s)
call_back-IsConnect none id value s v = v
call_back-IsConnect (some cb) id value s v =
    client_emit-IsConnect (ClientOutput.call cb id value) s v

pub wait_for_sync-IsConnect :
    (h : Header) (s : Connect) → IsConnect s → IsConnect (wait_for_sync h s)
wait_for_sync-IsConnect h s v = elim (Bool-cases (bit_and h.type type_sync == 0)) [
  | inl now ↦ rw (now, wait_for_sync) v
  | inr later ↦ rw (later, wait_for_sync) (client_emit-IsConnect _ s v)
]

pub put_client_event-IsConnect :
    (i : ℕ) (e : ClientEvent) (s : Connect)
    → IsConnect s
    → HasRoom e.memory
    → IsConnect (put_client_event i e s)
put_client_event-IsConnect i e s v room = record {
  read_room = v.read_room;
  rooms = All-set (λ e. HasRoom e.memory) s.events i e v.rooms room;
  no_events = v.no_events;
  no_clients = v.no_clients;
  no_channels = v.no_channels;
}
