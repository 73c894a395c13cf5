-- ===== src/Server/Receive/Loop.antt =====
-- The loop of `syncs_client_handler` over the bytes received: it ends, and what it leaves.
use syncscribe.Common.{
  ℕ, zero, suc, ◌+◌, ◌-◌, ◌≤◌, ◌<◌, ◌≡◌, refl, ◌∙◌, List, ◌++◌, Option, some, arith, ltb, length,
  take, drop, length-append, length-take, length-drop, Yields, yields, bind, weaken, Yields-if,
  bit_and-le, ltb→lt, ltb→le, bytes_of,
}
use syncscribe.Common.Words.{length-bytes_of}
use syncscribe.Types.{client_maximum, header_size, variable_size_maximum, channel_ticket_size}
use syncscribe.Wire.{read_header}
use syncscribe.Server.Send.{Env}
use syncscribe.Server.Frame.{IsEnv}
use syncscribe.Server.Valid.{IsValid}
use syncscribe.Server.Dispatch.Keeps.{IsReceived, client_process_packet-IsValid}
use syncscribe.Server.Receive.{Scan, is_packet, masked_size, mask_memory, packet_at, scan_packets}

-- In the loop: the bytes not yet consumed lie in the memory, with a ticket's worth behind them.
pub record IsScan (z : Scan) : Type 0 where
  pub valid : IsValid z.server
  pub inside : z.available + channel_ticket_size ≤ length z.memory

-- Where the loop stops, from a state z: less than a packet of the largest size is left, and every
-- byte of the memory is still there.
pub record Stops (z u : Scan) : Type 0 where
  pub valid : IsValid u.server
  pub inside : u.available + channel_ticket_size ≤ length u.memory
  pub short : u.available < header_size + variable_size_maximum
  pub size : length u.before + length u.memory ≡ length z.before + length z.memory

-- The loop ended by its test, and not for want of fuel.
pub data Ended (z : Scan) : Option Scan → Type 0 where
  ended : (u : Scan) → Stops z u → Ended z (some u)

pub length-mask_memory :
    (memory : List ℕ) → header_size ≤ length memory → length (mask_memory memory) ≡ length memory
length-mask_memory memory h = omega (
  arith,
  length-append (take 57 memory) (bytes_of 2 (masked_size memory) ++ drop 59 memory),
  length-append (bytes_of 2 (masked_size memory)) (drop 59 memory),
  length-bytes_of 2 (masked_size memory),
  length-take 57 memory,
  length-drop 59 memory,
)

pub masked_size-le : (memory : List ℕ) → masked_size memory ≤ variable_size_maximum
masked_size-le memory = bit_and-le (read_header memory).data_size variable_size_maximum

pub packet_at-IsReceived :
    (memory : List ℕ) (available : ℕ)
    → available + channel_ticket_size ≤ length memory
    → header_size + masked_size memory ≤ available
    → IsReceived (packet_at memory)
packet_at-IsReceived memory available inside whole = record {
  small = masked_size-le memory;
  data_there = omega (arith, length-drop header_size memory);
  ticket_there = omega (arith, length-drop header_size memory);
}

Ended-again :
    {z y : Scan} {r : Option Scan}
    → length y.before + length y.memory ≡ length z.before + length z.memory
    → Ended y r
    → Ended z r
Ended-again e (ended u s) =
    ended u (record { valid = s.valid; inside = s.inside; short = s.short; size = s.size ∙ e })

module _ (env : ℕ → Env) (c : ℕ) (w : (n : ℕ) → IsEnv (env n)) (h : c < client_maximum) where
  -- From valid tables, with the bytes received and a ticket's worth of memory behind them in the
  -- buffer and more fuel than bytes, the loop over the buffer ends by its own test: the tables are
  -- valid, less than the largest packet is left over, and the buffer has kept its length.
  pub scan_packets-Ended :
      (fuel : ℕ) (z : Scan)
      → IsScan z
      → z.available < fuel
      → Yields (Ended z) (scan_packets env c fuel z)
  unfolding scan_packets
  scan_packets-Ended zero z v lt = elim lt [ ]
  scan_packets-Ended (suc fuel) z v lt =
      let memory' = mask_memory z.memory in
      let total = header_size + masked_size z.memory in
      Yields-if (ltb z.available header_size) _ _
        (λ few. yields _ (ended z (stop z.memory (omega (arith, ltb→lt _ _ few)) refl)))
        λ enough.
          let room : header_size ≤ z.available = ltb→le z.available header_size enough in
          let same = length-mask_memory z.memory (omega (arith, v.inside, room)) in
          Yields-if (is_packet (read_header z.memory)) _ _
            (λ _.
              Yields-if (ltb z.available total) _ _
                (λ part. yields _ (
                  ended (record z { memory = memory' })
                    (stop memory' (omega (arith, ltb→lt _ _ part, masked_size-le z.memory)) same)))
                (λ whole.
                  let fits : total ≤ z.available = ltb→le z.available total whole in
                  bind _
                    (client_process_packet-IsValid (env (length z.before)) c (w (length z.before)) h
                      (packet_at z.memory) z.server
                      (packet_at-IsReceived z.memory z.available v.inside fits) v.valid)
                    λ r u.
                      let next : Scan = record {
                        before = z.before ++ take total memory';
                        memory = drop total memory';
                        available = z.available - total;
                        server = r.1;
                      } in
                      weaken
                        (scan_packets-Ended fuel next
                          (record {
                            valid = u;
                            inside = omega (arith, length-drop total memory', same, v.inside, fits);
                          })
                          (omega (arith, room)))
                        (λ o e.
                          Ended-again
                            (omega (
                              arith,
                              length-append z.before (take total memory'),
                              length-take total memory',
                              length-drop total memory',
                              same,
                              v.inside,
                              fits,
                            ))
                            e)))
            (λ _.
              let next : Scan = record z {
                before = z.before ++ take 1 z.memory;
                memory = drop 1 z.memory;
                available = z.available - 1;
              } in
              weaken
                (scan_packets-Ended fuel next
                  (record {
                    valid = v.valid;
                    inside = omega (arith, length-drop 1 z.memory, v.inside, room);
                  })
                  (omega (arith, room)))
                (λ o e.
                  Ended-again
                    (omega (
                      arith,
                      length-append z.before (take 1 z.memory),
                      length-take 1 z.memory,
                      length-drop 1 z.memory,
                      v.inside,
                      room,
                    ))
                    e))
    where
      stop :
          (memory : List ℕ)
          → z.available < header_size + variable_size_maximum
          → length memory ≡ length z.memory
          → Stops z (record z { memory = memory })
      stop memory short same = record {
        valid = v.valid;
        inside = omega (arith, same, v.inside);
        short = short;
        size = omega (arith, same);
      }
