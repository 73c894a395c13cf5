-- ===== src/Client/Receive/Round.antt =====
-- The loop of a client over the bytes received, and a round of its receiving thread: they end.
use syncscribe.Common.{
  ℕ, zero, suc, ◌+◌, ◌-◌, ◌≤◌, ◌<◌, ◌≡◌, refl, ◌∙◌, List, [], ◌++◌, Bool, inl, inr, Option, some,
  arith, ltb, ◌==◌, Bool-cases, length, ◌>>=◌, take, drop, length-append, length-take, length-drop,
  Yields, yields, bind, weaken, Yields-if, ltb→lt, ltb→le,
}
use syncscribe.Types.{header_size, variable_size_maximum, channel_ticket_size}
use syncscribe.Wire.{read_header}
use syncscribe.Server.Receive.{received, is_packet, masked_size, mask_memory, packet_at}
use syncscribe.Server.Receive.Loop.{length-mask_memory, masked_size-le, packet_at-IsReceived}
use syncscribe.Client.{Outside}
use syncscribe.Client.Packets.Rooms.{IsConnect, IsOutside}
use syncscribe.Client.Packets.Safe.{process_packet-IsConnect}
use syncscribe.Client.Receive.{ClientScan, scan_client, Receiving, recv_round, rest_of}

-- In the loop: the bytes not yet consumed lie in the memory, with a ticket's worth behind them.
record IsClientScan (z : ClientScan) : Type 0 where
  valid : IsConnect z.connect
  inside : z.available + channel_ticket_size ≤ length z.memory

-- Where the loop stops, from a state z.
record ScanStops (z u : ClientScan) : Type 0 where
  valid : IsConnect u.connect
  inside : u.available + channel_ticket_size ≤ length u.memory
  short : u.available < header_size + variable_size_maximum
  size : length u.before + length u.memory ≡ length z.before + length z.memory

-- The loop ended by its test, and not for want of fuel.
data ScanEnded (z : ClientScan) : Option ClientScan → Type 0 where
  scan_ended : (u : ClientScan) → ScanStops z u → ScanEnded z (some u)

ScanEnded-again :
    {z y : ClientScan} {r : Option ClientScan}
    → length y.before + length y.memory ≡ length z.before + length z.memory
    → ScanEnded y r
    → ScanEnded z r
ScanEnded-again e (scan_ended u s) =
    scan_ended u (record { valid = s.valid; inside = s.inside; short = s.short; size = s.size ∙ e })

-- The thread goes on unless it is told to stop, with a buffer of the same length and less than the largest packet in it.
pub record GoesOn (r : Receiving) (p : Bool × Receiving) : Type 0 where
  pub goes_on : p.0 ≡ (p.1.connect.onexit == 0)
  pub valid : IsConnect p.1.connect
  pub same_buffer : length p.1.buffer ≡ length r.buffer
  pub short : p.1.buffer_recv < header_size + variable_size_maximum

module _ (env : Outside) (w : IsOutside env) where
  scan_client-ScanEnded :
      (fuel : ℕ) (z : ClientScan)
      → IsClientScan z
      → z.available < fuel
      → Yields (ScanEnded z) (scan_client env fuel z)
  unfolding scan_client
  scan_client-ScanEnded zero z v lt = elim lt [ ]
  scan_client-ScanEnded (suc fuel) z v lt =
      let memory' = mask_memory z.memory in
      let total = header_size + masked_size z.memory in
      Yields-if (ltb z.available header_size) _ _
        (λ few. yields _ (scan_ended z (stop z.memory (omega (arith, ltb→lt _ _ few)) refl)))
        λ enough.
          let room : header_size ≤ z.available = ltb→le z.available header_size enough in
          let same = length-mask_memory z.memory (omega (arith, v.inside, room)) in
          Yields-if (is_packet (read_header z.memory)) _ _
            (λ _.
              Yields-if (ltb z.available total) _ _
                (λ part. yields _ (
                  scan_ended (record z { memory = memory' })
                    (stop memory' (omega (arith, ltb→lt _ _ part, masked_size-le z.memory)) same)))
                (λ whole.
                  let fits : total ≤ z.available = ltb→le z.available total whole in
                  bind _
                    (process_packet-IsConnect env (packet_at z.memory) z.connect w
                      (packet_at-IsReceived z.memory z.available v.inside fits) v.valid)
                    λ s' u.
                      let next : ClientScan = record {
                        before = z.before ++ take total memory';
                        memory = drop total memory';
                        available = z.available - total;
                        connect = s';
                      } in
                      weaken
                        (scan_client-ScanEnded fuel next
                          (record {
                            valid = u;
                            inside = omega (arith, length-drop total memory', same, v.inside, fits);
                          })
                          (omega (arith, room)))
                        (λ o e.
                          ScanEnded-again
                            (omega (
                              arith,
                              length-append z.before (take total memory'),
                              length-take total memory',
                              length-drop total memory',
                              same,
                              v.inside,
                              fits,
                            ))
                            e)))
            (λ _.
              let next : ClientScan = record z {
                before = z.before ++ take 1 z.memory;
                memory = drop 1 z.memory;
                available = z.available - 1;
              } in
              weaken
                (scan_client-ScanEnded fuel next
                  (record {
                    valid = v.valid;
                    inside = omega (arith, length-drop 1 z.memory, v.inside, room);
                  })
                  (omega (arith, room)))
                (λ o e.
                  ScanEnded-again
                    (omega (
                      arith,
                      length-append z.before (take 1 z.memory),
                      length-take 1 z.memory,
                      length-drop 1 z.memory,
                      v.inside,
                      room,
                    ))
                    e))
    where
      stop :
          (memory : List ℕ)
          → z.available < header_size + variable_size_maximum
          → length memory ≡ length z.memory
          → ScanStops z (record z { memory = memory })
      stop memory short same = record {
        valid = v.valid;
        inside = omega (arith, same, v.inside);
        short = short;
        size = omega (arith, same);
      }

  length-rest_of :
      (z : ClientScan)
      → z.available ≤ length z.memory
      → length (rest_of z) ≡ length z.before + length z.memory
  length-rest_of z h = elim (Bool-cases (z.available == 0)) [
    | inl done ↦ rw done (length-append z.before z.memory)
    | inr left ↦ rw left (
        omega (
          arith,
          length-append (take z.available z.memory) (drop z.available (z.before ++ z.memory)),
          length-append z.before z.memory,
          length-take z.available z.memory,
          length-drop z.available (z.before ++ z.memory),
        ))
  ]

  -- A round of the receiving thread of a client that has asked for no list, and whose subscriptions
  -- have memory for 511 bytes where they have any, in which at least a header's bytes are read and the
  -- buffer has room for them and for a ticket behind them, comes to an end: the thread goes on
  -- exactly if `onexit` is 0 then, the client is as before in that, and the buffer has its length and less than the largest packet in it.
  pub recv_round-GoesOn :
      (bytes : List ℕ) (r : Receiving)
      → IsConnect r.connect
      → header_size ≤ length bytes
      → r.buffer_recv + length bytes + channel_ticket_size ≤ length r.buffer
      → Yields (GoesOn r) (recv_round env (received bytes) r)
  unfolding recv_round
  recv_round-GoesOn bytes r v long room =
      Yields-if (ltb (length bytes) header_size) _ _
        (λ short. absurd (omega (arith, ltb→lt _ _ short)))
        (λ _.
          bind _
            (scan_client-ScanEnded (r.buffer_recv + length bytes + 1) start
              (record { valid = v; inside = omega (arith, stored) }) (omega arith))
            (λ o e. finish e))
    where
      buffer : List ℕ
      buffer =
          take r.buffer_recv r.buffer ++ (bytes ++ drop (r.buffer_recv + length bytes) r.buffer)

      stored : length buffer ≡ length r.buffer
      stored = omega (
        arith,
        length-append (take r.buffer_recv r.buffer)
            (bytes ++ drop (r.buffer_recv + length bytes) r.buffer),
        length-append bytes (drop (r.buffer_recv + length bytes) r.buffer),
        length-take r.buffer_recv r.buffer,
        length-drop (r.buffer_recv + length bytes) r.buffer,
      )

      start : ClientScan
      start = record {
        before = [];
        memory = buffer;
        available = r.buffer_recv + length bytes;
        connect = r.connect;
      }

      finish :
          {o : Option ClientScan}
          → ScanEnded start o
          → Yields (GoesOn r) (
              o >>= λ z. some (
                z.connect.onexit == 0,
                record { buffer = rest_of z; buffer_recv = z.available; connect = z.connect },
              ))
      finish (scan_ended z stop) = yields _ (record {
        goes_on = refl;
        valid = stop.valid;
        same_buffer =
            omega (arith, length-rest_of z (omega (arith, stop.inside)), stop.size, stored);
        short = stop.short;
      })
