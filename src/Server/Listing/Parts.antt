-- ===== src/Server/Listing/Parts.antt =====
-- The packets of a list that the server sends over TCP are parts that a client can put together.
use syncscribe.Common.{
  ℕ, zero, suc, ◌+◌, ◌*◌, ◌≤◌, ◌<◌, ◌≡◌, refl, sym, ap, ◌∙◌, List, [], ◌∷◌, ◌++◌, Bool, Option,
  none, some, arith, ◌==◌, length, get_elem?, lt_of_get_elem?, set, take, length-append,
  append_assoc, get_elem?-set_self, Yields, yields,
}
use syncscribe.Types.{Header, Packet, pos}
use syncscribe.Server.{Client, Server, Output}
use syncscribe.Server.Send.{Env, client_send, send_over, count_tx}
use syncscribe.Server.Listing.{Table, set_char, send_part}
use syncscribe.Server.Listing.Chars.{char_of-set_char, char_of-set_char_ne}
use syncscribe.Client.Packets.{char_of}
use syncscribe.Client.Packets.Parts.{IsPart}

-- Client c is connected over socket fd.
pub record IsConnected (c fd : ℕ) (s : Server) : Type 0 where
  pub client : Client
  pub there : get_elem? s.clients c ≡ some client
  pub socket : client.socketfd ≡ pos fd

-- A step from s that sends, and leaves the events, the channels and the connection as they were.
pub record Goes (c fd : ℕ) (s : Server) (os : List Output) (t : Server) : Type 0 where
  pub events : t.events ≡ s.events
  pub channels : t.channels ≡ s.channels
  pub connected : IsConnected c fd t
  pub output : t.output ≡ s.output ++ os

pub Goes-trans :
    {c fd : ℕ} {s t u : Server} {os qs : List Output}
    → Goes c fd s os t
    → Goes c fd t qs u
    → Goes c fd s (os ++ qs) u
Goes-trans {s} {os} {qs} x y = record {
  events = y.events ∙ x.events;
  channels = y.channels ∙ x.channels;
  connected = y.connected;
  output = y.output ∙ ap (λ l. l ++ qs) x.output ∙ append_assoc s.output os qs;
}

pub take_next :
    {A : Type 0} (k : ℕ) (xs : List A) (a b : A)
    → get_elem? xs k ≡ some a
    → take (k + 1) (set xs k b) ≡ take k xs ++ b ∷ []
take_next zero [] a b h = cc
take_next zero (x ∷ xs) a b h = ground arith
take_next (suc k) [] a b h = cc
take_next (suc k) (x ∷ xs) a b h =
    ap (λ m. take m (x ∷ set xs k b)) {x = suc k + 1} {y = suc (k + 1)} (omega arith)
    ∙ ap (λ t. x ∷ t) (take_next k xs a b h)

take_all : (xs : List ℕ) → take (length xs) xs ≡ xs
take_all [] = refl
take_all (x ∷ xs) = ap (λ t. x ∷ t) (take_all xs)

module _ {A : Type 0} where
  -- The entries of the slots from i on that are in use, in order: what `fill` makes of whatever
  -- stood in the packet's memory.
  pub data Listed (fill : ℕ → Option (A → Option A)) : ℕ → ℕ → List A → Type 0 where
    ends : (i : ℕ) → Listed fill 0 i []
    skips :
        (n i : ℕ) (es : List A)
        → fill i ≡ none
        → Listed fill n (i + 1) es
        → Listed fill (suc n) i es
    lists :
        (n i : ℕ) (f : A → Option A) (a b : A) (es : List A)
        → fill i ≡ some f
        → f a ≡ some b
        → Listed fill n (i + 1) es
        → Listed fill (suc n) i (b ∷ es)

  -- The bytes of entries, one after the other.
  abbrev pub bytes_of_all : (A → List ℕ) → List A → List ℕ
  bytes_of_all encode [] = []
  bytes_of_all encode (a ∷ l) = encode a ++ bytes_of_all encode l

  -- A list packet as the client receives it.
  abbrev pub as_packet : (A → List ℕ) → Header × List A → Packet
  as_packet encode (h, l) = record { header = h; buffer = bytes_of_all encode l }

  pub bytes_of_all-append :
      (encode : A → List ℕ) (xs ys : List A)
      → bytes_of_all encode (xs ++ ys) ≡ bytes_of_all encode xs ++ bytes_of_all encode ys
  bytes_of_all-append encode [] ys = refl
  bytes_of_all-append encode (x ∷ xs) ys =
      ap (λ t. encode x ++ t) (bytes_of_all-append encode xs ys)
      ∙ sym (append_assoc (encode x) (bytes_of_all encode xs) (bytes_of_all encode ys))

  pub length-bytes_of_all :
      (encode : A → List ℕ) (size : ℕ) (xs : List A)
      → ((a : A) → length (encode a) ≡ size)
      → length (bytes_of_all encode xs) ≡ length xs * size
  length-bytes_of_all encode size [] h = omega arith
  length-bytes_of_all encode size (x ∷ xs) h = grind (
    arith,
    length-append (encode x) (bytes_of_all encode xs),
    h x,
    length-bytes_of_all encode size xs h,
  )

module _ {A : Type 0} (table : Table A) (env : Env) (c fd : ℕ) (encode : A → List ℕ)
    (sized : (a : A) → length (encode a) ≡ table.entry_size) (seq : ℕ) where
  abbrev pub over : Header × List A → Output
  over p = table.over_tcp p.0 p.1 (pos fd)

  -- What sending one part does.
  pub send_part-Goes :
      (h : Header) (k : ℕ) (slots : List A) (s : Server)
      → IsConnected c fd s
      → Yields
          (λ r.
            let h' : Header = record (set_char 2 k h) { data_size = k * table.entry_size } in
            (r.0 ≡ h') × Goes c fd s (over (h', take k slots) ∷ []) r.1)
          (send_part table env c h k slots s)
  unfolding send_part client_send send_over
  send_part-Goes h k slots s is =
      rw (is.there, is.socket)
        (rw is.there (
          yields _ (
            refl,
            record {
              events = refl;
              channels = refl;
              connected = record {
                client = count_tx is.client;
                there =
                    get_elem?-set_self s.clients c (count_tx is.client)
                      (lt_of_get_elem? s.clients c is.client is.there);
                socket = is.socket;
              };
              output = refl;
            },
          )))

  -- A part with k entries in it, sent from a header that is numbered n.
  pub as_packet-IsPart :
      (n k : ℕ) (h : Header) (es : List A) (final : Bool)
      → 5 ≤ length h.id
      → char_of 0 h ≡ n
      → char_of 3 h ≡ seq
      → (char_of 4 h == 1) ≡ final
      → length es ≡ k
      → k < 128
      → IsPart table.entry_size seq n k
          (bytes_of_all encode es)
          final
          (as_packet encode (record (set_char 2 k h) { data_size = k * table.entry_size }, es))
  as_packet-IsPart n k h es final long number answers mark count few =
      let size : length (bytes_of_all encode es) ≡ k * table.entry_size =
        length-bytes_of_all encode table.entry_size es sized
        ∙ ap (λ m. m * table.entry_size) count in
      record {
        number = char_of-set_char_ne 2 0 k h (omega arith) ∙ number;
        entries = char_of-set_char 2 k h (omega (arith, long)) ∙ omega (arith, few);
        answers = char_of-set_char_ne 2 3 k h (omega arith) ∙ answers;
        end_mark = ap (λ (x : ℕ). x == 1) (char_of-set_char_ne 2 4 k h (omega arith)) ∙ mark;
        size = sym size;
        carried = take_all (bytes_of_all encode es);
        there = omega arith;
        whole = size;
        few = few;
      }
