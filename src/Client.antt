-- ===== src/Client.antt =====
-- libsyncs/syncs-client-types.h and libsyncs/syncs-client.c: the state of a client's connection.
-- A pointer to an event or a channel is its index in the connection's table. Locks are taken and
-- given back within one function; a wait on a condition is a step of its own, and what the receiving
-- thread does meanwhile is a parameter of the function that waits.
pub mod Slots
pub mod Requests
pub mod Packets
pub mod Lists
pub mod Calls
pub mod Receive
mod Tests
use syncscribe.Common.{ℕ, List, Option}
use syncscribe.Types.{SyncsId, Packet, ChannelTicket, ℤ}
use syncscribe.Server.{Callback, Address}

-- `struct syncs_client_event`. `data` is NULL or memory: allocated, or the application's.
pub record ClientEvent : Type 0 where
  pub id : SyncsId
  pub callback : Option Callback
  pub update_counter : ℕ
  pub flags : ℕ
  pub memory : Option (List ℕ)
  pub data_size : ℕ
  pub data_user_size : ℕ

-- `struct syncs_connect_channel`.
pub record ConnectChannel : Type 0 where
  pub id : SyncsId
  pub ticket : ChannelTicket

-- What the connection keeps of one of the three lists: the memory of its entries, where it has been
-- allocated, and the `..._sequence`, `..._wait_packet`, `..._recv` and `..._wait` of the list.
pub record Gathered : Type 0 where
  pub info : Option (List ℕ)
  pub sequence : ℕ
  pub wait_packet : ℕ
  pub recv : ℕ
  pub wait : ℕ

-- What a client does to the world: packets of so many bytes, calls of the application's functions,
-- and waits for a time.
pub data ClientOutput : Type 0 where
  tcp : ℤ → Packet → ℕ → ClientOutput
  udp : Address → Packet → ℕ → ClientOutput
  call : Callback → SyncsId → List ℕ → ClientOutput
  wait_sync : ℕ → ℕ → ClientOutput

-- `struct syncs_connect`, less the address, the threads, the locks and the keys, which nothing uses.
pub record Connect : Type 0 where
  pub id : SyncsId
  pub server_id : SyncsId
  pub socketfd : ℤ
  pub usocketfd : ℤ
  pub read_data : List ℕ
  pub onexit : ℕ
  pub ready : ℕ
  pub connect_wait : ℕ
  pub read_size : ℕ
  pub read_id : SyncsId
  pub read_wait : ℕ
  pub saddr : Address
  pub event_wait : ℕ
  pub ticket_data : ChannelTicket
  pub ticket_id : SyncsId
  pub ticket_wait : ℕ
  pub events : List ClientEvent
  pub events_queue : Option ℕ
  pub channels : List ConnectChannel
  pub eventlist : Gathered
  pub clientlist : Gathered
  pub channellist : Gathered
  pub output : List ClientOutput

-- What a call meets: the uninitialised packet on its stack, and the result of its sends.
pub record Outside : Type 0 where
  pub stack : Packet
  pub send_result : ℤ
