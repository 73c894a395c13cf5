-- ===== src/Server/Listing/Rounds.antt =====
-- The loop over a table sends its entries in parts, in order.
use syncscribe.Common.{
  ℕ, zero, suc, ◌+◌, ◌*◌, ◌%◌, ◌≤◌, ◌<◌, ◌≡◌, refl, sym, ap, subst, ◌∙◌, List, [], ◌∷◌, ◌++◌, map,
  true, false, some, arith, ◌==◌, leb, leb→le, length, get_elem?, get_elem?_of_lt, set, update,
  take, All, All-set, All-get_elem?, Yields-some, Option, length-append, length-set, length-take,
  append-nil, append_assoc, inl, inr, Option-cases, Bool-cases, inc8, Yields, yields, bind, weaken,
}
use syncscribe.Types.{Header}
use syncscribe.Server.{Server}
use syncscribe.Server.Send.{Env}
use syncscribe.Server.Listing.Keeps.{Fills, IsBounded}
use syncscribe.Server.Listing.{Table, set_char, flush, list_from, list_header, send_list}
use syncscribe.Server.Listing.Chars.{
  IsListHeader, char_of-set_char, char_of-set_char_ne, set_char-IsListHeader, next-IsListHeader,
  start-IsListHeader,
}
use syncscribe.Server.Listing.Parts.{
  IsConnected, Goes, Goes-trans, take_next, Listed, ends, skips, lists, bytes_of_all, as_packet,
  bytes_of_all-append, over, send_part-Goes, as_packet-IsPart,
}
use syncscribe.Client.Packets.Parts.{Parts, more, last}

-- A table whose packets hold between 2 and 127 entries, and whose entries are read off the events and
-- the channels.
pub record IsListable {A : Type 0} (table : Table A) : Type 0 where
  pub some_fit : 2 ≤ table.per_packet
  pub few_fit : table.per_packet < 128
  pub bounded : table.size ≤ 256
  pub fixed :
      (s t : Server) → t.events ≡ s.events → t.channels ≡ s.channels → table.fill t ≡ table.fill s

module _ {A : Type 0} (table : Table A) (is : IsListable table) (env : Env) (c fd : ℕ)
    (encode : A → List ℕ) (sized : (a : A) → length (encode a) ≡ table.entry_size) (seq : ℕ)
    (Ready : A → Type 0) (Good : Server → Type 0) (safe : IsBounded table Ready Good) where
  -- Parts from number n on are sent, which bring `current` and the entries of the slots from i on.
  pub record Sends (n rounds i : ℕ) (current : List A) (s t : Server) : Type 0 where
    pub packets : List (Header × List A)
    pub entries : List A
    pub listed : Listed (table.fill s) rounds i entries
    pub goes : Goes c fd s (map (over table env c fd encode sized seq) packets) t
    pub parts :
        Parts table.entry_size seq n
          (map (as_packet encode) packets)
          (bytes_of_all encode (current ++ entries))
          (length (current ++ entries))

  -- The state of a round.
  record IsRound (n rounds i k : ℕ) (h : Header) (slots : List A) : Type 0 where
    header : IsListHeader n seq h
    counted : n + n + k ≤ i
    room : k < table.per_packet
    memory : table.per_packet ≤ length slots
    ready : All Ready slots
    bounded : i + rounds ≤ 256

  last-Sends :
      (n i k : ℕ) (h : Header) (slots : List A) (s : Server)
      → IsConnected c fd s
      → IsRound n 0 i k h slots
      → Yields (Sends n 0 i (take k slots) s) (list_from table env c 0 i k h slots s)
  unfolding list_from
  last-Sends n i k h slots s conn r =
      let marked = set_char 4 1 h in
      bind _ (send_part-Goes table env c fd encode sized seq marked k slots s conn) λ p q.
        yields _ (record {
          packets =
              (record (set_char 2 k marked) { data_size = k * table.entry_size }, take k slots)
              ∷ [];
          entries = [];
          listed = ends i;
          goes = q.1;
          parts =
              rw (append-nil (take k slots), took)
                (last n k (bytes_of_all encode (take k slots)) _ (
                  as_packet-IsPart table env c fd encode sized seq n k marked (take k slots) true
                    (omega (arith, length-set h.id 4 1, r.header.long))
                    (char_of-set_char_ne 4 0 1 h (omega arith) ∙ r.header.number)
                    (char_of-set_char_ne 4 3 1 h (omega arith) ∙ r.header.answers)
                    (ap (λ (x : ℕ). x == 1) (char_of-set_char 4 1 h (omega (arith, r.header.long))))
                    took (omega (arith, r.room, is.few_fit))));
        })
    where
      took : length (take k slots) ≡ k
      took = omega (arith, length-take k slots, r.room, r.memory)

  -- One more entry, and there is room for another.
  entry-Sends :
      (n rounds i k : ℕ) (slots : List A) (f : A → Option A) (a b : A) (s t : Server)
      → table.fill s i ≡ some f
      → get_elem? slots k ≡ some a
      → f a ≡ some b
      → Sends n rounds (i + 1) (take (k + 1) (set slots k b)) s t
      → Sends n (suc rounds) i (take k slots) s t
  entry-Sends n rounds i k slots f a b s t used at made q =
      let same : take (k + 1) (set slots k b) ++ q.entries ≡ take k slots ++ b ∷ q.entries =
        ap (λ l. l ++ q.entries) (take_next k slots a b at)
        ∙ append_assoc (take k slots) (b ∷ []) q.entries in
      record {
        packets = q.packets;
        entries = b ∷ q.entries;
        listed = lists rounds i f a b q.entries used made q.listed;
        goes = q.goes;
        parts =
            subst
              (λ l.
                Parts table.entry_size seq n (map (as_packet encode) q.packets)
                  (bytes_of_all encode l) (length l))
              same q.parts;
      }

  -- One more entry that fills the packet, which is sent.
  full-Sends :
      (n rounds i k : ℕ) (h : Header) (slots : List A) (f : A → Option A) (a b : A)
      (s s' t : Server)
      → IsRound n (suc rounds) i k h slots
      → table.per_packet ≤ k + 1
      → table.fill s i ≡ some f
      → get_elem? slots k ≡ some a
      → f a ≡ some b
      → (let h' : Header = record (set_char 2 (k + 1) h) {
        data_size = (k + 1) * table.entry_size;
      } in
          Goes c fd s
            (over table env c fd encode sized seq (h', take (k + 1) (set slots k b)) ∷ [])
            s')
      → Sends (n + 1) rounds (i + 1) [] s' t
      → Sends n (suc rounds) i (take k slots) s t
  full-Sends n rounds i k h slots f a b s s' t r full used at made g q = record {
    packets = (h', filled) ∷ q.packets;
    entries = b ∷ q.entries;
    listed = lists rounds i f a b q.entries used made (
        subst (λ g. Listed g rounds (i + 1) q.entries) (is.fixed s s' g.events g.channels)
          q.listed);
    goes = Goes-trans g q.goes;
    parts =
        subst
          (λ l.
            Parts table.entry_size seq n (map (as_packet encode) ((h', filled) ∷ q.packets))
              (bytes_of_all encode l) (length l))
          same
          (rw (bytes_of_all-append encode filled q.entries, length-append filled q.entries, took)
            (more n (k + 1) (length q.entries) (bytes_of_all encode filled)
              (bytes_of_all encode q.entries) _ _
              (as_packet-IsPart table env c fd encode sized seq n (k + 1) h filled false
                r.header.long r.header.number r.header.answers
                (ap (λ (x : ℕ). x == 1) r.header.open_end) took (omega (arith, r.room, is.few_fit)))
              (omega (arith, r.counted, r.bounded, is.some_fit)) q.parts));
  }
    where
      h' : Header
      h' = record (set_char 2 (k + 1) h) { data_size = (k + 1) * table.entry_size }

      filled : List A
      filled = take (k + 1) (set slots k b)

      took : length filled ≡ k + 1
      took =
          omega (arith, length-take (k + 1) (set slots k b), length-set slots k b, r.room, r.memory)

      same : filled ++ q.entries ≡ take k slots ++ b ∷ q.entries
      same =
          ap (λ l. l ++ q.entries) (take_next k slots a b at)
          ∙ append_assoc (take k slots) (b ∷ []) q.entries

  -- A full packet goes out, and the next begins.
  flush-Goes :
      (h : Header) (k : ℕ) (slots : List A) (s : Server)
      → leb table.per_packet k ≡ true
      → IsConnected c fd s
      → Yields
          (λ r.
            let h' : Header = record (set_char 2 k h) { data_size = k * table.entry_size } in
            (r.0 ≡ record h' { id = update h'.id 0 inc8 })
            × (r.1 ≡ 0)
            × Goes c fd s (over table env c fd encode sized seq (h', take k slots) ∷ []) r.2)
          (flush table env c h k slots s)
  unfolding flush
  flush-Goes h k slots s full conn = rw full (
      bind _ (send_part-Goes table env c fd encode sized seq h k slots s conn)
        λ p q. yields _ (ap (λ (h : Header). record h { id = update h.id 0 inc8 }) q.0, refl, q.1))

  -- The state of the next round: after a slot that is not in use, after an entry, after a packet.
  skip-IsRound :
      {n rounds i k : ℕ} {h : Header} {slots : List A}
      → IsRound n (suc rounds) i k h slots
      → IsRound n rounds (i + 1) k h slots
  skip-IsRound r = record {
    header = r.header;
    counted = omega (arith, r.counted);
    room = r.room;
    memory = r.memory;
    ready = r.ready;
    bounded = omega (arith, r.bounded);
  }

  entry-IsRound :
      {n rounds i k : ℕ} {h : Header} {slots : List A} (b : A)
      → Ready b
      → IsRound n (suc rounds) i k h slots
      → k + 1 < table.per_packet
      → IsRound n rounds (i + 1) (k + 1) h (set slots k b)
  entry-IsRound {k} {slots} b ready r room = record {
    header = r.header;
    counted = omega (arith, r.counted);
    room = room;
    memory = omega (arith, length-set slots k b, r.memory);
    ready = All-set Ready slots k b r.ready ready;
    bounded = omega (arith, r.bounded);
  }

  packet-IsRound :
      {n rounds i k k' : ℕ} {h h'' : Header} {slots : List A} (b : A)
      → Ready b
      → IsRound n (suc rounds) i k h slots
      → table.per_packet ≤ k + 1
      → k' ≡ 0
      → (let h' : Header = record (set_char 2 (k + 1) h) {
        data_size = (k + 1) * table.entry_size;
      } in
          h'' ≡ record h' { id = update h'.id 0 inc8 })
      → IsRound (n + 1) rounds (i + 1) k' h'' (set slots k b)
  packet-IsRound {n} {k} {h} {slots} b ready r full start e = record {
    header = subst (IsListHeader (n + 1) seq) (sym e) (
        next-IsListHeader n seq
          (record (set_char 2 (k + 1) h) { data_size = (k + 1) * table.entry_size })
          (omega (arith, r.counted, r.bounded))
          (set_char-IsListHeader n seq (k + 1) ((k + 1) * table.entry_size) h r.header));
    counted = omega (arith, r.counted, full, is.some_fit, start);
    room = omega (arith, is.some_fit, start);
    memory = omega (arith, length-set slots k b, r.memory);
    ready = All-set Ready slots k b r.ready ready;
    bounded = omega (arith, r.bounded);
  }

  list_from-Sends :
      (rounds n i k : ℕ) (h : Header) (slots : List A) (s : Server)
      → IsConnected c fd s
      → Good s
      → IsRound n rounds i k h slots
      → Yields (Sends n rounds i (take k slots) s) (list_from table env c rounds i k h slots s)
  unfolding list_from
  list_from-Sends zero n i k h slots s conn v r = last-Sends n i k h slots s conn r
  list_from-Sends (suc rounds) n i k h slots s conn v r = elim (Option-cases (table.fill s i)) [
    | inl unused ↦
        rw (unused, list_from)
          (weaken (list_from-Sends rounds n (i + 1) k h slots s conn v (skip-IsRound r)) (λ t q.
            record {
              packets = q.packets;
              entries = q.entries;
              listed = skips rounds i q.entries unused q.listed;
              goes = q.goes;
              parts = q.parts;
            }))
    | inr (f, used) ↦
        let (a, at) = get_elem?_of_lt slots k (omega (arith, r.room, r.memory)) in
        let ready_a = All-get_elem? Ready slots k a r.ready at in
        let (b, made, ready) =
          Yields-some (subst (Fills Ready a) used (safe.filled s i a v ready_a)) in
        let slots' = set slots k b in
        rw (used, list_from)
          (rw at (
            rw made (elim (Bool-cases (leb table.per_packet (k + 1))) [
              | inl full ↦ bind _ (flush-Goes h (k + 1) slots' s full conn) λ p q.
                  weaken
                    (list_from-Sends rounds (n + 1) (i + 1) p.1 p.0 slots' p.2 q.2.connected
                      (safe.kept s p.2 q.2.events v)
                      (packet-IsRound b ready r (leb→le table.per_packet (k + 1) full) q.1 q.0))
                    (λ t u.
                      full-Sends n rounds i k h slots f a b s p.2 t r
                        (leb→le table.per_packet (k + 1) full) used at made q.2
                        (subst (λ m. Sends (n + 1) rounds (i + 1) (take m slots') p.2 t) q.1 u))
              | inr open_still ↦
                  rw (open_still, flush)
                    (weaken
                      (list_from-Sends rounds n (i + 1) (k + 1) h slots' s conn v
                        (entry-IsRound b ready r (ground arith)))
                      (λ t q. entry-Sends n rounds i k slots f a b s t used at made q))
            ])))
  ]

  -- The whole list: all entries of the table in use, in the order of the slots, in parts from 0 on.
  pub send_list-Sends :
      (total sequance : ℕ) (slots : List A) (s : Server)
      → IsConnected c fd s
      → Good s
      → 5 ≤ length env.stack.header.id
      → sequance % 256 ≡ seq
      → table.per_packet ≤ length slots
      → All Ready slots
      → Yields (Sends 0 table.size 0 [] s) (send_list table env c total sequance slots s)
  unfolding send_list list_header
  send_list-Sends total sequance slots s conn v long asked memory ready =
      list_from-Sends table.size 0 0 0 _ slots s conn v (record {
        header =
            subst (λ m. IsListHeader 0 m (list_header table env c total sequance)) asked
              (start-IsListHeader _ sequance _ long);
        counted = omega arith;
        room = omega (arith, is.some_fit);
        memory = memory;
        ready = ready;
        bounded = omega (arith, is.bounded);
      })
