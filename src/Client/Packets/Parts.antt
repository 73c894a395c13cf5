-- ===== src/Client/Packets/Parts.antt =====
-- The parts of a list, put together by a client.
use syncscribe.Common.{
  ℕ, zero, suc, ◌+◌, ◌*◌, ◌^◌, ◌%◌, ◌≤◌, ◌<◌, ◌≡◌, refl, sym, ap, ◌∙◌, List, [], ◌∷◌, ◌++◌, Bool,
  ◌&&◌, true, false, Option, some, arith, ◌==◌, ◌>>=◌, le→leb, if◌then◌else◌, length, take, drop,
  length-append, length-drop, append_assoc, take-append_left, Yields, yields, bind, weaken,
}
use syncscribe.Types.{Packet}
use syncscribe.Client.{Gathered}
use syncscribe.Client.Packets.{char_of, memcpy_at, add_char, receive_part}

-- Packet number n of the answer to request seq: so many entries, of `entry_size` bytes each, and
-- whether it is the last.
pub record IsPart (entry_size seq n count : ℕ) (bytes : List ℕ) (ends : Bool) (p : Packet)
    : Type 0 where
  pub number : char_of 0 p.header ≡ n
  pub entries : char_of 2 p.header ≡ count
  pub answers : char_of 3 p.header ≡ seq
  pub end_mark : (char_of 4 p.header == 1) ≡ ends
  pub size : p.header.data_size ≡ length bytes
  pub carried : take (length bytes) p.buffer ≡ bytes
  pub there : length bytes ≤ length p.buffer
  pub whole : length bytes ≡ count * entry_size
  pub few : count < 128

-- The packets from number n on, to the last: the bytes and the entries that they bring.
pub data Parts (entry_size seq : ℕ) : ℕ → List Packet → List ℕ → ℕ → Type 0 where
  last :
      (n count : ℕ) (bytes : List ℕ) (p : Packet)
      → IsPart entry_size seq n count bytes true p
      → Parts entry_size seq n (p ∷ []) bytes count
  more :
      (n count total : ℕ) (bytes rest : List ℕ) (p : Packet) (ps : List Packet)
      → IsPart entry_size seq n count bytes false p
      → n < 255
      → Parts entry_size seq (n + 1) ps rest total
      → Parts entry_size seq n (p ∷ ps) (bytes ++ rest) (count + total)
  -- A part of the answer to another request, or of another number.
  stray :
      (n total : ℕ) (bytes : List ℕ) (p : Packet) (ps : List Packet)
      → ((char_of 3 p.header == seq) && (char_of 0 p.header == n)) ≡ false
      → Parts entry_size seq n ps bytes total
      → Parts entry_size seq n (p ∷ ps) bytes total

-- The packets, in the order in which they arrive.
pub receive_parts : ℕ → List Packet → Gathered → Option Gathered
receive_parts entry_size [] g = some g
receive_parts entry_size (p ∷ ps) g = do
  g' ← receive_part entry_size p g
  receive_parts entry_size ps g'

-- The memory holds `before` in the entries received, and goes on with `rest`.
pub record Holds (entry_size seq : ℕ) (before rest : List ℕ) (n recv : ℕ) (g : Gathered)
    : Type 0 where
  pub info : g.info ≡ some (before ++ rest)
  pub sequence : g.sequence ≡ seq
  pub wait_packet : g.wait_packet ≡ n
  pub recv_is : g.recv ≡ recv
  pub whole : length before ≡ recv * entry_size

drop-nil : (n : ℕ) → drop {A = ℕ} n [] ≡ []
drop-nil zero = refl
drop-nil (suc n) = refl

drop-drop : (a b : ℕ) (xs : List ℕ) → drop a (drop b xs) ≡ drop (b + a) xs
drop-drop a zero xs = ap (λ m. drop m xs) {y = 0 + a} (omega arith)
drop-drop a (suc b) [] = drop-nil a ∙ sym (drop-nil (suc b + a))
drop-drop a (suc b) (x ∷ xs) =
    drop-drop a b xs ∙ ap (λ m. drop m (x ∷ xs)) {x = suc (b + a)} {y = suc b + a} (omega arith)

module _ (entry_size seq : ℕ) where
  copied :
      (before bytes rest : List ℕ) (p : Packet)
      → p.header.data_size ≡ length bytes
      → take (length bytes) p.buffer ≡ bytes
      → length bytes ≤ length p.buffer
      → length bytes ≤ length rest
      → memcpy_at (before ++ rest) (length before) p.buffer p.header.data_size
        ≡ some ((before ++ bytes) ++ drop (length bytes) rest)
  unfolding memcpy_at
  copied before bytes rest p size carried there room = rw size (
      rw
        (le→leb (length before + length bytes) (length (before ++ rest))
          (omega (arith, length-append before rest, room)))
        (rw (le→leb (length bytes) (length p.buffer) there) (λ i. some (joined i))))
    where
      joined :
          take (length before) (before ++ rest)
            ++ (take (length bytes) p.buffer
                ++ drop (length before + length bytes) (before ++ rest))
          ≡ (before ++ bytes) ++ drop (length bytes) rest
      joined =
          (λ i.
            take-append_left before rest i
            ++ (carried i ++ drop-append_more before rest (length bytes) i))
          ∙ sym (append_assoc before bytes (drop (length bytes) rest))
        where
          drop-append_more : (xs ys : List ℕ) (n : ℕ) → drop (length xs + n) (xs ++ ys) ≡ drop n ys
          drop-append_more [] ys n = ap (λ m. drop m ys) {x = 0 + n} (omega arith)
          drop-append_more (x ∷ xs) ys n =
              ap (λ m. drop m (x ∷ (xs ++ ys))) {x = length (x ∷ xs) + n} {y = suc (length xs + n)}
                (omega arith)
              ∙ drop-append_more xs ys n

  receive_part-Holds :
      (n recv count : ℕ) (before bytes rest : List ℕ) (ends : Bool) (p : Packet) (g : Gathered)
      → IsPart entry_size seq n count bytes ends p
      → Holds entry_size seq before rest n recv g
      → length bytes ≤ length rest
      → recv + count < 2 ^ 31
      → Yields
          (λ g'.
            Holds entry_size seq
              (before ++ bytes)
              (drop (length bytes) rest)
              ((n + 1) % 256)
              (recv + count)
              g'
            × (g'.wait ≡ (if ends then 0 else g.wait)))
          (receive_part entry_size p g)
  unfolding receive_part
  receive_part-Holds n recv count before bytes rest ends p g is h room few =
      rw (h.info, receive_part)
        (rw expected (
          rw offset (
            rw (copied before bytes rest p is.size is.carried is.there room) (
              yields _ (
                record {
                  info = refl;
                  sequence = h.sequence;
                  wait_packet = ap (λ m. (m + 1) % 256) h.wait_packet;
                  recv_is = counted;
                  whole = omega (arith, length-append before bytes, h.whole, is.whole);
                },
                ap (λ b. if b then 0 else g.wait) is.end_mark,
              )))))
    where
      expected :
          ((char_of 3 p.header == g.sequence) && (char_of 0 p.header == g.wait_packet)) ≡ true
      expected = ground (arith, is.answers, h.sequence, is.number, h.wait_packet)

      offset : g.recv * entry_size ≡ length before
      offset = ap (λ r. r * entry_size) h.recv_is ∙ sym h.whole

      counted : add_char g.recv (char_of 2 p.header) ≡ recv + count
      counted = ground (arith, h.recv_is, is.entries, is.few, few)

  receive_part-stray :
      (n : ℕ) (p : Packet) (g : Gathered) (before rest : List ℕ) (recv : ℕ)
      → Holds entry_size seq before rest n recv g
      → ((char_of 3 p.header == seq) && (char_of 0 p.header == n)) ≡ false
      → receive_part entry_size p g ≡ some g
  unfolding receive_part
  receive_part-stray n p g before rest recv h other = ground (arith, h.info, differs)
    where
      differs :
          ((char_of 3 p.header == g.sequence) && (char_of 0 p.header == g.wait_packet)) ≡ false
      differs = rw (h.sequence, h.wait_packet) other

  -- The list is there: the entries counted, the bytes in the memory, and the wait over.
  pub record IsGathered (memory : List ℕ) (count : ℕ) (g : Gathered) : Type 0 where
    pub info : g.info ≡ some memory
    pub recv_is : g.recv ≡ count
    pub done : g.wait ≡ 0

  receive_parts-Holds :
      {n total : ℕ} {bytes : List ℕ} {ps : List Packet}
      → Parts entry_size seq n ps bytes total
      → (recv : ℕ) (before rest : List ℕ) (g : Gathered) → Holds entry_size seq before rest n recv g
      → length bytes ≤ length rest
      → recv + total < 2 ^ 31
      → Yields
          (IsGathered ((before ++ bytes) ++ drop (length bytes) rest) (recv + total))
          (receive_parts entry_size ps g)
  unfolding receive_parts
  receive_parts-Holds (last n count bytes p is) recv before rest g h room few =
      bind _ (receive_part-Holds n recv count before bytes rest true p g is h room few)
        λ g' k. yields _ (record { info = k.0.info; recv_is = k.0.recv_is; done = k.1 })
  receive_parts-Holds (more n count total bytes tail p ps is next parts) recv before rest g h room
        few =
      bind _
        (receive_part-Holds n recv count before bytes rest false p g is h
          (omega (arith, length-append bytes tail)) (omega arith))
        λ g' k.
          weaken
            (receive_parts-Holds parts (recv + count) (before ++ bytes) (drop (length bytes) rest)
              g' (renumbered g' k.0)
              (omega (arith, length-append bytes tail, length-drop (length bytes) rest))
              (omega arith))
            λ t is_there. record {
              info = is_there.info ∙ ap some regroup;
              recv_is = omega (arith, is_there.recv_is);
              done = is_there.done;
            }
    where
      renumbered :
          (g' : Gathered)
          → Holds entry_size seq
              (before ++ bytes)
              (drop (length bytes) rest)
              ((n + 1) % 256)
              (recv + count)
              g'
          → Holds entry_size seq
              (before ++ bytes)
              (drop (length bytes) rest)
              (n + 1)
              (recv + count)
              g'
      renumbered g' k = record {
        info = k.info;
        sequence = k.sequence;
        wait_packet = omega (arith, k.wait_packet);
        recv_is = k.recv_is;
        whole = k.whole;
      }

      regroup :
          ((before ++ bytes) ++ tail) ++ drop (length tail) (drop (length bytes) rest)
          ≡ (before ++ (bytes ++ tail)) ++ drop (length (bytes ++ tail)) rest
      regroup =
          (λ i. append_assoc before bytes tail i ++ drop-drop (length tail) (length bytes) rest i)
          ∙ ap (λ m. (before ++ (bytes ++ tail)) ++ drop m rest) (sym (length-append bytes tail))
  receive_parts-Holds (stray n total bytes p ps other parts) recv before rest g h room few =
      rw (receive_part-stray n p g before rest recv h other)
        (receive_parts-Holds parts recv before rest g h room few)

  -- The parts of a list that a client has asked for, with the packets numbered from 0 to the one
  -- marked as the last, and any number of parts of other requests or numbers between them, leave the
  -- entries of all of them in their order in the client's memory, their count in `..._recv`, and end
  -- the wait: if the memory has room for all the entries, and they are fewer than 2^31.
  pub receive_parts-IsGathered :
      (total : ℕ) (bytes memory : List ℕ) (ps : List Packet) (g : Gathered)
      → Parts entry_size seq 0 ps bytes total
      → g.info ≡ some memory
      → g.sequence ≡ seq
      → g.wait_packet ≡ 0
      → g.recv ≡ 0
      → length bytes ≤ length memory
      → total < 2 ^ 31
      → Yields
          (IsGathered (bytes ++ drop (length bytes) memory) total)
          (receive_parts entry_size ps g)
  receive_parts-IsGathered total bytes memory ps g parts info sequence wait_packet recv room few =
      weaken
        (receive_parts-Holds parts 0 [] memory g
          (record {
            info = info;
            sequence = sequence;
            wait_packet = wait_packet;
            recv_is = recv;
            whole = omega arith;
          })
          room (omega arith))
        λ g' is. record { info = is.info; recv_is = omega (arith, is.recv_is); done = is.done }
