-- ===== src/Server/Tests/Lists.antt =====
-- The lists of the small server, and the client that asks for them.
use syncscribe.Common.{
  ℕ, ◌≡◌, refl, List, ◌++◌, some, arith, length, take, replicate, length-take, length-append,
  length-replicate, bytes_of, ◌*◌, Yields,
}
use syncscribe.Id.{idstr}
use syncscribe.Types.{EventInfo, ChannelInfo, event_info_size, channel_info_size}
use syncscribe.Client.{Gathered}
use syncscribe.Server.Listing.{
  event_table, channel_table, client_send_eventlist, client_send_channellist,
}
use syncscribe.Server.Listing.Parts.{IsConnected}
use syncscribe.Server.Listing.Gathered.{
  Waits, Serves, client_send_eventlist-Serves, client_send_channellist-Serves,
}
use syncscribe.Server.Tests.{
  small, first, env, env-IsEnv, small-IsValid, no_event_info, no_channel_info,
}

abbrev sized_to : ℕ → List ℕ → List ℕ
sized_to n xs = take n (xs ++ replicate n 0)

length-sized_to : (n : ℕ) (xs : List ℕ) → length (sized_to n xs) ≡ n
length-sized_to n xs = omega (
  arith,
  length-take n (xs ++ replicate n 0),
  length-append xs (replicate n 0),
  length-replicate {A = ℕ} n 0,
)

-- The packed structures, whose identifiers have 32 bytes.
abbrev event_bytes : EventInfo → List ℕ
event_bytes e = sized_to event_info_size (
    e.id
    ++ (bytes_of 4 e.type
        ++ (e.short_data
            ++ (bytes_of 2 e.data_size
                ++ (bytes_of 8 e.time
                    ++ (bytes_of 4 e.count
                        ++ (bytes_of 4 e.consumers_count ++ bytes_of 4 e.producers_count)))))))

abbrev channel_bytes : ChannelInfo → List ℕ
channel_bytes c = sized_to channel_info_size (
    c.id
    ++ (bytes_of 4 c.anons_count
        ++ (bytes_of 4 c.request_count ++ (bytes_of 4 c.ip ++ bytes_of 2 c.port))))

first-IsConnected : IsConnected 0 7 small
first-IsConnected = record { client = first; there = refl; socket = refl }

abbrev memory : List ℕ
memory = replicate (256 * event_info_size) 0

abbrev asking : Gathered
asking = record { info = some memory; sequence = 3; wait_packet = 0; recv = 0; wait = 1 }

asking-Waits : Waits 3 (256 * event_info_size) memory asking
asking-Waits = record {
  info = refl;
  sequence = refl;
  wait_packet = refl;
  recv = refl;
  space = length-replicate {A = ℕ} (256 * event_info_size) 0;
}

client_send_eventlist-Serves_example :
    Yields
      (Serves event_table event_bytes 7 3 memory asking small)
      (client_send_eventlist env 0 3 small)
unfolding idstr
client_send_eventlist-Serves_example =
    client_send_eventlist-Serves env 0 7 3 memory asking small event_bytes
      (λ e. length-sized_to event_info_size _) first-IsConnected small-IsValid.events (omega arith)
      (omega (arith, length-replicate 45 no_event_info)) env-IsEnv.short (omega arith) asking-Waits

abbrev channel_memory : List ℕ
channel_memory = replicate (32 * channel_info_size) 0

abbrev asking_channels : Gathered
asking_channels = record asking { info = some channel_memory }

asking_channels-Waits : Waits 3 (32 * channel_info_size) channel_memory asking_channels
asking_channels-Waits = record {
  info = refl;
  sequence = refl;
  wait_packet = refl;
  recv = refl;
  space = length-replicate {A = ℕ} (32 * channel_info_size) 0;
}

client_send_channellist-Serves_example :
    Yields
      (Serves channel_table channel_bytes 7 3 channel_memory asking_channels small)
      (client_send_channellist env 0 3 small)
unfolding idstr
client_send_channellist-Serves_example =
    client_send_channellist-Serves env 0 7 3 channel_memory asking_channels small channel_bytes
      (λ c. length-sized_to channel_info_size _) first-IsConnected (omega arith)
      (omega (arith, length-replicate 89 no_channel_info)) (omega arith) asking_channels-Waits
