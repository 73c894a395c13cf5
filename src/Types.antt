-- ===== src/Types.antt =====
-- libsyncs/syncs-types.h: the limits, the packet and the structures that travel in it.
-- A structure is a record of its fields; bytes, words and counters are native numbers. The bytes of
-- a header on the wire are those of `Wire`.
use syncscribe.Common.{ℕ, ◌*◌, List}

abbrev pub event_maximum : ℕ
event_maximum = 256

abbrev pub client_maximum : ℕ
client_maximum = 64

abbrev pub channel_maximum : ℕ
channel_maximum = 32

abbrev pub id_size : ℕ
id_size = 32

-- Also the mask that the receive loops put on `data_size`.
abbrev pub variable_size_maximum : ℕ
variable_size_maximum = 0x1ff

abbrev pub event_data_size_maximum : ℕ
event_data_size_maximum = 0xfff

abbrev pub variable_info_size_maximum : ℕ
variable_info_size_maximum = 32

abbrev pub client_buffer_size : ℕ
client_buffer_size = 32 * 1024

abbrev pub packet_magic : ℕ
packet_magic = b'S'

abbrev pub packet_magic_data : ℕ
packet_magic_data = b'D'

abbrev pub version_major : ℕ
version_major = 2

abbrev pub version_minor : ℕ
version_minor = 1

-- `sizeof` of the packed structures.
abbrev pub header_size : ℕ
header_size = 60

abbrev pub event_info_size : ℕ
event_info_size = 90

abbrev pub client_info_size : ℕ
client_info_size = 52

abbrev pub channel_info_size : ℕ
channel_info_size = 46

abbrev pub channel_ticket_size : ℕ
channel_ticket_size = 10

-- `union syncs_id` as its 32 characters, `c`; the words `i` are read off them in `Id`.
abbrev pub SyncsId : Type 0
SyncsId = List ℕ

pub record Header : Type 0 where
  pub magic : ℕ
  pub crc : ℕ
  pub type : ℕ
  pub id : SyncsId
  pub data0 : ℕ
  pub data1 : ℕ
  pub update_counter : ℕ
  pub data_size : ℕ
  pub magic_data : ℕ

pub record Packet : Type 0 where
  pub header : Header
  pub buffer : List ℕ

pub record EventInfo : Type 0 where
  pub id : SyncsId
  pub type : ℕ
  pub short_data : List ℕ
  pub data_size : ℕ
  pub time : ℕ
  pub count : ℕ
  pub consumers_count : ℕ
  pub producers_count : ℕ

pub record ClientInfo : Type 0 where
  pub id : SyncsId
  pub event_subscribe : ℕ
  pub event_write : ℕ
  pub rx_event_count : ℕ
  pub tx_event_count : ℕ
  pub ip : ℕ

pub record ChannelInfo : Type 0 where
  pub id : SyncsId
  pub anons_count : ℕ
  pub request_count : ℕ
  pub ip : ℕ
  pub port : ℕ

pub record ChannelTicket : Type 0 where
  pub ip : ℕ
  pub port : ℕ
  pub flags : ℕ

-- Message types, the low four bits of `type`.
abbrev pub type_msg_mask : ℕ
type_msg_mask = 0x0f

abbrev pub type_client_id : ℕ
type_client_id = 0x01

abbrev pub type_event : ℕ
type_event = 0x02

abbrev pub type_write : ℕ
type_write = 0x03

abbrev pub type_read : ℕ
type_read = 0x04

abbrev pub type_subscribe : ℕ
type_subscribe = 0x05

abbrev pub type_unsubscribe : ℕ
type_unsubscribe = 0x06

abbrev pub type_define : ℕ
type_define = 0x07

abbrev pub type_undefine : ℕ
type_undefine = 0x08

abbrev pub type_event_list : ℕ
type_event_list = 0x09

abbrev pub type_client_list : ℕ
type_client_list = 0x0a

abbrev pub type_server_status : ℕ
type_server_status = 0x0b

abbrev pub type_channel : ℕ
type_channel = 0x0d

abbrev pub type_channel_list : ℕ
type_channel_list = 0x0e

-- Message attributes.
abbrev pub type_sync : ℕ
type_sync = 0x0010

abbrev pub type_echo : ℕ
type_echo = 0x0020

abbrev pub type_force : ℕ
type_force = 0x0080

abbrev pub type_flags_mask : ℕ
type_flags_mask = 0x00f0

-- Variable types.
abbrev pub type_var_not_defined : ℕ
type_var_not_defined = 0x0000

abbrev pub type_var_empty : ℕ
type_var_empty = 0x0100

abbrev pub type_var_int32 : ℕ
type_var_int32 = 0x0200

abbrev pub type_var_int64 : ℕ
type_var_int64 = 0x0300

abbrev pub type_var_float : ℕ
type_var_float = 0x0400

abbrev pub type_var_double : ℕ
type_var_double = 0x0500

abbrev pub type_var_string : ℕ
type_var_string = 0x0600

abbrev pub type_var_any : ℕ
type_var_any = 0x0f00

abbrev pub type_var_mask : ℕ
type_var_mask = 0x0f00

-- Channel messages.
abbrev pub channel_anons : ℕ
channel_anons = 0x1000

abbrev pub channel_request : ℕ
channel_request = 0x2000

abbrev pub channel_ticket : ℕ
channel_ticket = 0x3000

abbrev pub channel_mask : ℕ
channel_mask = 0xf000

abbrev pub type_channel_mask : ℕ
type_channel_mask = 0x0700

abbrev pub status_lost : ℕ
status_lost = 0x10000000

abbrev pub error_notfound : ℕ
error_notfound = 0

abbrev pub error_notsupport : ℕ
error_notsupport = 1

abbrev pub error_unknownclient : ℕ
error_unknownclient = 2

abbrev pub error_crypt : ℕ
error_crypt = 3

-- A return code or a socket number: a C `int`, `negsuc n` being -(n + 1).
pub data ℤ : Type 0 where
  pos : ℕ → ℤ
  negsuc : ℕ → ℤ
