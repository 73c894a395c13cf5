-- ===== src/Server.antt =====
-- libsyncs/syncs-server-types.h and libsyncs/syncs-server.c: the state of the server.
-- A `struct syncs_client *` is the index of the client in the server's table: every client pointer
-- that the code stores comes from there, and `c->server` is the one server. An `int` or `uint32_t`
-- counter is its 32-bit pattern.
pub mod Slots
pub mod Consumers
pub mod Send
pub mod Events
pub mod Listing
pub mod Channels
pub mod Dispatch
pub mod Receive
pub mod Api
pub mod Frame
pub mod Valid
pub mod Membership
pub mod Delivery
pub mod Run
pub mod Capacity
mod Tests
use syncscribe.Common.{ℕ, ◌^◌, ◌-◌, List, [], ◌∷◌, ◌++◌, Option, none, replicate, get_elem?, set}
use syncscribe.Types.{
  SyncsId, Packet, EventInfo, ClientInfo, ChannelInfo, ChannelTicket, Header, ℤ, negsuc,
  event_maximum, client_maximum, channel_maximum,
}

-- A callback with its argument: `cb` and `args` of an event, where `cb` is not NULL.
pub record Callback : Type 0 where
  pub cb : ℕ
  pub args : ℕ

-- `struct syncs_event`. `args` without `cb` is never read.
pub record Event : Type 0 where
  pub id : SyncsId
  pub memory : List ℕ
  pub data_type : ℕ
  pub data_size : ℕ
  pub count : ℕ
  pub update_counter : ℕ
  pub consumers_count : ℕ
  pub producers_count : ℕ
  pub consumers : List (Option ℕ)
  pub producer : Option ℕ
  pub callback : Option Callback

-- `struct sockaddr_in`: the address and the port.
pub record Address : Type 0 where
  pub ip : ℕ
  pub port : ℕ

-- `struct syncs_client`, less its back pointer, its `epoll_data` and the key that nothing reads.
pub record Client : Type 0 where
  pub id : SyncsId
  pub socketfd : ℤ
  pub addr : Address
  pub event_subscribe : ℕ
  pub event_write : ℕ
  pub rx_event_count : ℕ
  pub tx_event_count : ℕ
  pub tx_error : ℕ
  pub version : ℕ
  pub buffer : List ℕ
  pub buffer_recv : ℕ

-- `struct syncs_channel`.
pub record Channel : Type 0 where
  pub id : SyncsId
  pub ticket : ChannelTicket
  pub anons_count : ℕ
  pub request_count : ℕ
  pub producers_count : ℕ
  pub producer : Option ℕ

-- What the server does to the world, in order: a packet handed to a socket, a call of a
-- subscriber's function, and the end of a connection. The bytes of a packet are `Wire.wire`;
-- the payload of a list packet is its entries.
pub data Output : Type 0 where
  tcp : ℤ → Packet → Output
  udp : Address → Packet → Output
  tcp_clients : ℤ → Header → List ClientInfo → Output
  udp_clients : Address → Header → List ClientInfo → Output
  tcp_events : ℤ → Header → List EventInfo → Output
  udp_events : Address → Header → List EventInfo → Output
  tcp_channels : ℤ → Header → List ChannelInfo → Output
  udp_channels : Address → Header → List ChannelInfo → Output
  call : Callback → SyncsId → List ℕ → Output
  epoll_del : ℤ → Output
  epoll_add : ℤ → Output
  close : ℤ → Output

-- `struct syncs_server`, less the sockets, threads and discovery. `output` is the model's record of
-- the effects.
pub record Server : Type 0 where
  pub id : SyncsId
  pub events : List Event
  pub clients : List Client
  pub channels : List Channel
  pub channel_count : ℕ
  pub event_count : ℕ
  pub client_count : ℕ
  pub uclient_count : ℕ
  pub sync_offset : ℕ
  pub update_counter : ℕ
  pub output : List Output
