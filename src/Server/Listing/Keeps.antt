-- ===== src/Server/Listing/Keeps.antt =====
-- Sending a list runs to an end, with every write inside the packet, and changes no table.
use syncscribe.Common.{
  ◌∷◌, [], ◌≤◌, ◌≡◌, min, All, All-set, All-get_elem?, set, get_elem?, get_elem?_of_lt, Option,
  none, some, subst, sym, length-set, memcpy_lem, length-memcpy, Yields-some, Yields-of_eq,
  Bool-cases, ℕ, zero, suc, ◌+◌, ◌<◌, refl, List, inl, inr, arith, leb, length, Option-cases,
  Yields, yields, bind, weaken, Yields-if,
}
use syncscribe.Types.{Header}
use syncscribe.Server.{Server}
use syncscribe.Server.Send.{Env, count_tx}
use syncscribe.Server.Frame.{Sent, Sent-refl, Sent-trans, client_send-Sent, with_client-Sent}
use syncscribe.Server.Listing.{
  Table, client_table, event_table, channel_table, set_char, send_part, flush, list_from,
  list_header, send_list, client_send_clientlist, client_send_eventlist, client_send_channellist,
}
use syncscribe.Types.{variable_info_size_maximum}
use syncscribe.Id.{is_free}
use syncscribe.Server.Slots.{is_closed}
use syncscribe.Server.Frame.{IsEnv, HasShort}
use syncscribe.Server.Valid.{IsValidEvent, IsValid}

-- Filling an entry, where there is one to fill, stays inside it.
abbrev pub Fills : {A : Type 0} → (A → Type 0) → A → Option (A → Option A) → Type 0
Fills Ready a none = Unit {0}
Fills Ready a (some f) = Yields Ready (f a)

-- At a good server, each slot in use fills an entry that is ready inside of it, and the entry is
-- ready again.
pub record IsBounded {A : Type 0} (table : Table A) (Ready : A → Type 0) (Good : Server → Type 0)
    : Type 0 where
  pub one_fits : 1 ≤ table.per_packet
  pub kept : (s t : Server) → t.events ≡ s.events → Good s → Good t
  pub filled : (s : Server) (i : ℕ) (a : A) → Good s → Ready a → Fills Ready a (table.fill s i)

abbrev pub Always : {A : Type 0} → A → Type 0
Always a = Unit {0}

pub All-Always : {A : Type 0} (xs : List A) → All Always xs
All-Always [] = tt
All-Always (x ∷ xs) = (tt, All-Always xs)

pub client_table-IsBounded : IsBounded client_table Always Always
client_table-IsBounded = record {
  one_fits = omega arith;
  kept = λ s t e v. v;
  filled = λ s i a v r. elim (Option-cases (get_elem? s.clients i)) [
    | inl gone ↦ rw gone tt
    | inr (x, at) ↦ rw at (elim (Bool-cases (is_closed x.socketfd)) [
      | inl closed ↦ rw closed tt
      | inr used ↦ rw used (yields _ tt)
    ])
  ];
}

-- The events of the table have their memory.
abbrev pub HasEvents : Server → Type 0
HasEvents s = All IsValidEvent s.events

pub event_table-IsBounded : IsBounded event_table HasShort HasEvents
event_table-IsBounded = record {
  one_fits = omega arith;
  kept = λ s t e v. subst (All IsValidEvent) (sym e) v;
  filled = λ s i a v r. elim (Option-cases (get_elem? s.events i)) [
    | inl gone ↦ rw gone tt
    | inr (e, at) ↦ rw at (elim (Bool-cases (is_free e.id)) [
      | inl free ↦ rw free tt
      | inr used ↦
          let u = All-get_elem? IsValidEvent s.events i e v at in
          let n = min e.data_size variable_info_size_maximum in
          let small : n ≤ length a.short_data = omega (arith, r) in
          let there : n ≤ length e.memory = omega (arith, u.room) in
          rw used (
            bind _
              (Yields-of_eq {P = λ m. length m ≡ length a.short_data}
                (memcpy_lem a.short_data e.memory n small there)
                (length-memcpy a.short_data e.memory n small there))
              (λ m same. yields _ (omega (arith, same, r))))
    ])
  ];
}

pub channel_table-IsBounded : IsBounded channel_table Always Always
channel_table-IsBounded = record {
  one_fits = omega arith;
  kept = λ s t e v. v;
  filled = λ s i a v r. elim (Option-cases (get_elem? s.channels i)) [
    | inl gone ↦ rw gone tt
    | inr (x, at) ↦ rw at (elim (Bool-cases (is_free x.id)) [
      | inl free ↦ rw free tt
      | inr used ↦ rw used (yields _ tt)
    ])
  ];
}

-- The state of a round: there is room for an entry.
record HasSpace {A : Type 0} (table : Table A) (Ready : A → Type 0) (k : ℕ) (slots : List A)
    : Type 0 where
  space : k < table.per_packet
  memory : table.per_packet ≤ length slots
  ready : All Ready slots

module _ {A : Type 0} (table : Table A) (env : Env) (c : ℕ) where
  send_part-Sent :
      (h : Header) (k : ℕ) (slots : List A) (s : Server)
      → c < length s.clients
      → Yields (λ r. Sent s r.1) (send_part table env c h k slots s)
  unfolding send_part
  send_part-Sent h k slots s lt = bind _ (client_send-Sent env s c _ _ lt) λ r p.
      bind _ (with_client-Sent r.1 c count_tx (λ x. refl) (omega (arith, p.clients_length)))
        λ t q. yields _ (Sent-trans p q)

  flush-Sent :
      (h : Header) (k : ℕ) (slots : List A) (s : Server)
      → c < length s.clients
      → 1 ≤ table.per_packet
      → Yields (λ r. (r.1 < table.per_packet) × Sent s r.2) (flush table env c h k slots s)
  unfolding flush
  flush-Sent h k slots s lt one =
      Yields-if (leb table.per_packet k) _ _
        (λ _. bind _ (send_part-Sent h k slots s lt) λ r p. yields _ (omega (arith, one), p))
        (λ open_still. yields _ (ground arith, Sent-refl s))

  module _ (Ready : A → Type 0) (Good : Server → Type 0) (is : IsBounded table Ready Good) where
    list_from-Sent :
        (rounds i k : ℕ) (h : Header) (slots : List A) (s : Server)
        → c < length s.clients
        → Good s
        → HasSpace table Ready k slots
        → Yields (Sent s) (list_from table env c rounds i k h slots s)
    unfolding list_from
    list_from-Sent zero i k h slots s lt v r =
        bind _ (send_part-Sent (set_char 4 1 h) k slots s lt) λ r p. yields _ p
    list_from-Sent (suc rounds) i k h slots s lt v r = elim (Option-cases (table.fill s i)) [
      | inl unused ↦ rw (unused, list_from) (list_from-Sent rounds (i + 1) k h slots s lt v r)
      | inr (f, used) ↦
          let (a, at) = get_elem?_of_lt slots k (omega (arith, r.space, r.memory)) in
          let ready_a = All-get_elem? Ready slots k a r.ready at in
          let (b, made, ready) =
            Yields-some (subst (Fills Ready a) used (is.filled s i a v ready_a)) in
          rw (used, list_from)
            (rw at (
              rw made (
                bind _ (flush-Sent h (k + 1) (set slots k b) s lt is.one_fits) λ q p.
                  weaken
                    (list_from-Sent rounds (i + 1) q.1 q.0 (set slots k b) q.2
                      (omega (arith, p.1.clients_length)) (is.kept s q.2 p.1.events v)
                      (record {
                        space = p.0;
                        memory = omega (arith, length-set slots k b, r.memory);
                        ready = All-set Ready slots k b r.ready ready;
                      }))
                    (λ t u. Sent-trans p.1 u))))
    ]

    send_list-Sent :
        (total sequance : ℕ) (slots : List A) (s : Server)
        → c < length s.clients
        → Good s
        → table.per_packet ≤ length slots
        → All Ready slots
        → Yields (Sent s) (send_list table env c total sequance slots s)
    unfolding send_list
    send_list-Sent total sequance slots s lt v memory ready =
        list_from-Sent table.size 0 0 (list_header table env c total sequance) slots s lt v
          (record { space = omega (arith, is.one_fits); memory = memory; ready = ready })

module _ (env : Env) (c sequance : ℕ) (s : Server) (w : IsEnv env) (v : IsValid s)
    (lt : c < length s.clients) where
  pub client_send_clientlist-Sent : Yields (Sent s) (client_send_clientlist env c sequance s)
  unfolding client_send_clientlist
  client_send_clientlist-Sent =
      send_list-Sent client_table env c Always Always client_table-IsBounded s.client_count sequance
        env.client_slots s lt tt (omega (arith, w.clients_room)) (All-Always env.client_slots)

  pub client_send_eventlist-Sent : Yields (Sent s) (client_send_eventlist env c sequance s)
  unfolding client_send_eventlist
  client_send_eventlist-Sent =
      send_list-Sent event_table env c HasShort HasEvents event_table-IsBounded s.event_count
        sequance env.event_slots s lt v.events (omega (arith, w.events_room)) w.short

  pub client_send_channellist-Sent : Yields (Sent s) (client_send_channellist env c sequance s)
  unfolding client_send_channellist
  client_send_channellist-Sent =
      send_list-Sent channel_table env c Always Always channel_table-IsBounded s.channel_count
        sequance env.channel_slots s lt tt (omega (arith, w.channels_room))
        (All-Always env.channel_slots)
