-- ===== src/Client/Lists.antt =====
-- libsyncs/syncs-client.c: the requests for the lists. The three functions differ in what a `Kind`
-- holds, and in the last step of the channel list.
use syncscribe.Common.{
  ℕ, zero, suc, ◌+◌, ◌*◌, ◌%◌, Bool, List, ◌++◌, Option, none, some, ◌==◌, leb, if◌then◌else◌,
  length, take, drop, set, replicate, word, bytes_of, ◌>>=◌,
}
use syncscribe.Types.{
  Header, header_size, event_maximum, client_maximum, channel_maximum, type_event_list,
  type_client_list, type_channel_list, event_info_size, client_info_size, channel_info_size,
}
use syncscribe.Id.{fill_basic_header_request}
use syncscribe.Client.{Connect, Gathered, Outside}
use syncscribe.Client.Requests.{bare, connect_send}
use syncscribe.Client.Calls.{Wait, is_connected, loopback}

pub record Kind : Type 0 where
  pub maximum : ℕ
  pub entry_size : ℕ
  pub type : ℕ
  pub gathered : Connect → Gathered
  pub with_gathered : Gathered → Connect → Connect

abbrev pub client_list : Kind
client_list = record {
  maximum = client_maximum;
  entry_size = client_info_size;
  type = type_client_list;
  gathered = λ s. s.clientlist;
  with_gathered = λ g s. record s { clientlist = g };
}

abbrev pub event_list : Kind
event_list = record {
  maximum = event_maximum;
  entry_size = event_info_size;
  type = type_event_list;
  gathered = λ s. s.eventlist;
  with_gathered = λ g s. record s { eventlist = g };
}

abbrev pub channel_list : Kind
channel_list = record {
  maximum = channel_maximum;
  entry_size = channel_info_size;
  type = type_channel_list;
  gathered = λ s. s.channellist;
  with_gathered = λ g s. record s { channellist = g };
}

-- `calloc`, where nothing has been allocated yet; the flag is whether it succeeds.
abbrev pub allocate : Kind → Bool → Gathered → Gathered
allocate kind succeeds g = elim g.info [
  | some info ↦ g
  | none ↦
      if succeeds
      then record g { info = some (replicate (kind.maximum * kind.entry_size) 0) }
      else g
]

-- The next request: its number, and nothing received yet.
abbrev pub next_request : Gathered → Gathered
next_request g = record g { sequence = (g.sequence + 1) % 256; recv = 0; wait_packet = 0; wait = 1 }

-- What a request for a list returns: the entries' memory, if any, `*count` where it is set, and the
-- connection.
abbrev pub Listed : Type 0
Listed = Option (List ℕ) × Option ℕ × Connect

unfoldable pub request_list : Kind → Outside → Bool → Wait → Connect → Listed
unfolding connect_send
request_list kind env succeeds wait s =
    let g = allocate kind succeeds (kind.gathered s) in
    let s1 = kind.with_gathered g s in
    elim g.info [
      | none ↦ (none, none, s1)
      | some info ↦
          if is_connected s.socketfd
          then (let g' = next_request g in
              let h : Header =
                fill_basic_header_request
                  (record env.stack.header { id = set env.stack.header.id 0 g'.sequence })
                  kind.type in
              let sent = connect_send env (bare env h) header_size (kind.with_gathered g' s1) in
              let (met, t) = wait sent.1 in
              if met
              then ((kind.gathered t).info, some (kind.gathered t).recv, t)
              else (none, none, t))
          else (none, some 0, s1)
    ]

unfoldable pub free_list : Kind → Connect → Connect
free_list kind s = kind.with_gathered (record (kind.gathered s) { info = none }) s

unfoldable pub request_clientslist : Outside → Bool → Wait → Connect → Listed
unfolding request_list
request_clientslist env succeeds wait s = request_list client_list env succeeds wait s

unfoldable pub request_eventslist : Outside → Bool → Wait → Connect → Listed
unfolding request_list
request_eventslist env succeeds wait s = request_list event_list env succeeds wait s

-- The address in a channel's entry, if it is the loopback address and the server's is known, is
-- replaced by that.
abbrev pub relocate_entry : Option ℕ → ℕ → List ℕ → List ℕ
relocate_entry none offset info = info
relocate_entry (some ip) offset info =
    if word (take 4 (drop offset info)) == loopback
    then take offset info ++ (bytes_of 4 ip ++ drop (offset + 4) info)
    else info

-- The loop of `syncs_request_channelslist`, with the rounds left and the entry.
unfoldable pub relocate : Option ℕ → ℕ → ℕ → List ℕ → Option (List ℕ)
relocate ip zero i info = some info
relocate ip (suc rounds) i info =
    let rest = relocate ip rounds (i + 1) (relocate_entry ip (i * channel_info_size + 40) info) in
    if leb (i * channel_info_size + 44) (length info) then rest else none

-- `none` is a read beyond the entries, where more were counted.
unfoldable pub request_channelslist : Outside → Bool → Wait → Option ℕ → Connect → Option Listed
unfolding request_list relocate
request_channelslist env succeeds wait ip s =
    let r = request_list channel_list env succeeds wait s in
    elim r.0 [
      | none ↦ some r
      | some info ↦ do
        info' ← relocate ip r.2.channellist.recv 0 info
        let t = r.2
        some
            (some info', r.1, record t { channellist = record t.channellist { info = some info' } })
    ]
