-- ===== src/Server/Channels/Keeps.antt =====
-- The channel requests run to an end and keep the tables valid.
use syncscribe.Common.{
  ℕ, ◌≤◌, ◌<◌, ◌≡◌, refl, ◌∙◌, List, some, inl, inr, arith, ◌==◌, length, update, length-update,
  find_index, find_index-lt-length, inc32, Option-cases, le→leb, Yields, yields, bind, Yields-if,
  Yields-get, Yields-of_eq, memcpy_lem, bit_and, bytes_of,
}
use syncscribe.Types.{
  Header, SyncsId, ChannelTicket, client_maximum, channel_ticket_size, channel_mask, channel_anons,
  channel_request,
}
use syncscribe.Server.{Channel, Server}
use syncscribe.Server.Slots.{
  find_channel, create_channel, channel_init, free_channel_slot, channel_has_id,
}
use syncscribe.Server.Send.{Env}
use syncscribe.Server.Frame.{client_send-Sent, IsEnv}
use syncscribe.Server.Valid.{IsValid, Sent-IsValid}
use syncscribe.Server.Events.Keeps.{KeepsValid, in_clients}
use syncscribe.Server.Channels.{
  read_ticket, write_ticket, announced, announce_at, add_channel, client_channel_request,
  client_channel,
}

update_channel-IsValid :
    (s : Server) (i n : ℕ) (f : Channel → Channel)
    → IsValid s
    → IsValid (record s { channels = update s.channels i f; channel_count = n })
update_channel-IsValid s i n f v = record {
  events_length = v.events_length;
  clients_length = v.clients_length;
  channels_length = length-update s.channels i f ∙ v.channels_length;
  events = v.events;
}

read_ticket-Yields :
    (source : List ℕ)
    → channel_ticket_size ≤ length source
    → Yields (λ _. Unit {0}) (read_ticket source)
unfolding read_ticket
read_ticket-Yields source long = rw (le→leb channel_ticket_size (length source) long) (yields _ tt)

announce_at-IsValid :
    (c i : ℕ) (source : List ℕ) (s : Server)
    → IsValid s
    → c < client_maximum
    → channel_ticket_size ≤ length source
    → KeepsValid (announce_at c i source s)
unfolding announce_at
announce_at-IsValid c i source s v h long =
    bind _ (Yields-get s.clients c (in_clients s c v h)) λ x at_x.
      bind _ (read_ticket-Yields source long) λ ticket _.
        yields _ (update_channel-IsValid s i s.channel_count (announced c x.addr.ip ticket) v)

add_channel-IsValid :
    (c : ℕ) (id : SyncsId) (source : List ℕ) (s : Server)
    → IsValid s
    → c < client_maximum
    → channel_ticket_size ≤ length source
    → KeepsValid (add_channel c id source s)
unfolding add_channel create_channel
add_channel-IsValid c id source s v h long = elim (Option-cases (find_channel s id)) [
  | inr (i, found) ↦ rw (found, add_channel) (announce_at-IsValid c i source s v h long)
  | inl absent ↦
      rw (absent, add_channel)
        (elim (Option-cases (find_index free_channel_slot s.channels)) [
          | inl full ↦ rw (full, create_channel) (yields _ v)
          | inr (i, free) ↦
              rw (free, create_channel)
                (announce_at-IsValid c i source _
                  (update_channel-IsValid s i (inc32 s.channel_count) (channel_init id) v) h long)
        ])
]

pub length-write_ticket : (t : ChannelTicket) → length (write_ticket t) ≡ channel_ticket_size
unfolding write_ticket bytes_of
length-write_ticket t = refl

client_channel_request-IsValid :
    (env : Env) (c : ℕ) (id : SyncsId) (s : Server)
    → IsEnv env
    → IsValid s
    → c < client_maximum
    → KeepsValid (client_channel_request env c id s)
unfolding client_channel_request
client_channel_request-IsValid env c id s w v h = elim (Option-cases (find_channel s id)) [
  | inl absent ↦ rw (absent, client_channel_request) (yields _ v)
  | inr (i, found) ↦
      rw (found, client_channel_request)
        (bind _ (Yields-get s.channels i (in_channels i found)) λ channel _.
          bind _
            (Yields-of_eq {P = λ _. Unit {0}}
              (memcpy_lem env.stack.buffer (write_ticket channel.ticket) channel_ticket_size
                (omega (arith, w.room)) (omega (arith, length-write_ticket channel.ticket)))
              tt)
            λ b _.
              bind _ (client_send-Sent env s c _ _ (in_clients s c v h))
                λ r p. yields _ (Sent-IsValid p v))
]
  where
    in_channels : (i : ℕ) → find_channel s id ≡ some i → i < length s.channels
    in_channels i found =
        unfold find_channel in find_index-lt-length (channel_has_id id) s.channels i found

-- `syncs_client_channel` runs to an end and keeps the tables valid, if a ticket's worth of memory
-- lies behind the header.
pub client_channel-IsValid :
    (env : Env) (c : ℕ) (h : Header) (source : List ℕ) (s : Server)
    → IsEnv env
    → IsValid s
    → c < client_maximum
    → channel_ticket_size ≤ length source
    → KeepsValid (client_channel env c h source s)
unfolding client_channel
client_channel-IsValid env c h source s w v lt long =
    Yields-if (bit_and h.type channel_mask == channel_anons) _ _
      (λ _. bind _ (add_channel-IsValid c h.id source s v lt long) λ r p. yields _ p)
      (λ _.
        Yields-if (bit_and h.type channel_mask == channel_request) _ _
          (λ _. bind _ (client_channel_request-IsValid env c h.id s w v lt) λ r p. yields _ p)
          (λ _. yields _ v))
