-- ===== src/Server/Tests/Events.antt =====
-- Writing, reading, creating and freeing events at the small server.
use syncscribe.Common.{
  ℕ, zero, suc, ◌≡◌, refl, true, false, List, [], ◌∷◌, none, some, arith, replicate, take,
  length-replicate, count, Yields, find_index, word,
}
use syncscribe.Types.{SyncsId, pos}
use syncscribe.Id.{idstr, idcmp, is_free}
use syncscribe.Server.Slots.{create_event, find_event, free_event, live_slot, has_id}
use syncscribe.Server.Slots.Unique.{
  IsTable, Made, create_event-Made, free_event-IsTable, free_differs,
}
use syncscribe.Server.Send.{send_event}
use syncscribe.Server.Valid.{IsValidEvent-IsSendable}
use syncscribe.Server.Delivery.{Delivers, send_event-Delivers}
use syncscribe.Server.Events.{client_write, client_read, client_subscribe, accepts}
use syncscribe.Server.Events.Written.{Written, client_write-Written}
use syncscribe.Server.Events.Answered.{Answered, client_read-Answered, client_read-client_write}
use syncscribe.Server.Consumers.{holds, add_client_to_event}
use syncscribe.Server.Capacity.{add_client_to_event_joins}
use syncscribe.Server.Events.Subscribed.{Subscribed, client_subscribe-Subscribed}
use syncscribe.Server.Tests.{
  second, int_event-IsValidEvent, temp, blank, int_event, small, env, joined, env-IsEnv,
  small-IsValid, joined-IsValidEvent,
}

abbrev other : SyncsId
other = idstr (111 ∷ [])

temp_found : find_event small temp ≡ some 0
unfolding find_event idcmp find_index word idstr
temp_found = refl

other_unknown : find_event small other ≡ none
unfolding find_event idcmp find_index idstr word
other_unknown = refl

temp_used : is_free temp ≡ false
unfolding is_free idstr word
temp_used = refl

other_used : is_free other ≡ false
unfolding is_free idstr word
other_used = refl

blank_free : is_free blank.id ≡ true
unfolding is_free word
blank_free = refl

none_with : (id : SyncsId) (n : ℕ) → is_free id ≡ false → count (has_id id) (replicate n blank) ≡ 0
unfolding count
none_with id zero used = refl
none_with id (suc n) used =
    ground (arith, free_differs blank.id id blank_free used, none_with id n used)

none_live : (n : ℕ) → count live_slot (replicate n blank) ≡ 0
unfolding count
none_live zero = refl
none_live (suc n) = ground (arith, blank_free, none_live n)

small-IsTable : IsTable small
unfolding count
small-IsTable = record {
  size = omega (arith, length-replicate 255 blank);
  counted = ground (arith, temp_used, none_live 255);
  unique = λ id used. ground (arith, none_with id 255 used);
}

create_event-Made_example : Made small other (create_event small other)
create_event-Made_example = create_event-Made other small other_used small-IsTable other_unknown

free_event-IsTable_example :
    IsTable (free_event small temp) × (find_event (free_event small temp) temp ≡ none)
free_event-IsTable_example = free_event-IsTable temp small temp_used small-IsTable

send_event-Delivers_example : Yields (Delivers joined 0 small) (send_event env joined 0 small)
send_event-Delivers_example =
    send_event-Delivers env joined 0 small env-IsEnv
      (IsValidEvent-IsSendable small joined small-IsValid.clients_length joined-IsValidEvent)

abbrev four : List ℕ
four = 1 ∷ 2 ∷ 3 ∷ 4 ∷ []

client_write-Written_example :
    Yields
      (λ r. (r.0 ≡ pos 0) × Written 1 0 4 temp 0x203 four int_event small r.1)
      (client_write env 1 temp 0x203 four 4 small)
client_write-Written_example =
    client_write-Written env 1 0 4 temp 0x203 four int_event small env-IsEnv small-IsValid
      (omega arith) refl temp_found refl (omega arith) (omega arith)

client_read-Answered_example :
    Yields
      (λ r. (r.0 ≡ pos 0) × Answered 0 temp 4 (take 4 int_event.memory) small r.1)
      (client_read env 0 temp small)
client_read-Answered_example =
    client_read-Answered env 0 0 temp int_event small env-IsEnv small-IsValid (omega arith) refl
      temp_found

client_read-client_write_example :
    Yields
      (λ r.
        Yields (λ q. (q.0 ≡ pos 0) × Answered 0 temp 4 four r.1 q.1) (client_read env 0 temp r.1))
      (client_write env 1 temp 0x203 four 4 small)
client_read-client_write_example =
    client_read-client_write env env 1 0 0 4 temp 0x203 four int_event small env-IsEnv env-IsEnv
      small-IsValid (omega arith) (omega arith) refl temp_found refl (omega arith) (omega arith)

add_client_to_event_joins_example :
    let r = add_client_to_event 1 int_event second in
    (r.0 ≡ pos 0) × ((j : ℕ) × (find_index (holds 1) r.1.consumers ≡ some j))
add_client_to_event_joins_example =
    add_client_to_event_joins 1 int_event second int_event-IsValidEvent (omega arith)

client_subscribe-Subscribed_example :
    Yields
      (λ r. (r.0 ≡ pos 0) × Subscribed 1 0 temp 0 int_event small r.1)
      (client_subscribe env 1 temp 0x205 0 small)
unfolding accepts
client_subscribe-Subscribed_example =
    client_subscribe-Subscribed env 1 0 0 temp 0x205 int_event small env-IsEnv small-IsValid
      (omega arith) refl temp_found refl
