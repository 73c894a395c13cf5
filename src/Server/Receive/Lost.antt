-- ===== src/Server/Receive/Lost.antt =====
-- `syncs_client_handler`: a read of fewer bytes than a header's is lost.
use syncscribe.Common.{
  zero, suc, ◌∷◌, sym, ap, ap₂, set, if◌then◌else◌, take-append_left, drop-append_left,
  lt_of_get_elem?, ℕ, ◌+◌, ◌≤◌, ◌<◌, ◌≡◌, refl, ◌∙◌, List, [], ◌++◌, Option, some, arith, ltb, ◌==◌,
  length, take, drop, get_elem?, get_elem?-set_self, length-take, ◌>>=◌, lt→ltb, ==_ne,
}
use syncscribe.Types.{header_size}
use syncscribe.Server.{Server, Client}
use syncscribe.Server.Send.{Env, put_client, with_client}
use syncscribe.Server.Receive.{scan_packets, received, keep_rest, store, client_handler}
use syncscribe.Server.Consumers.{close_client_socket}

drop_nil : (n : ℕ) → drop {A = ℕ} n [] ≡ []
drop_nil zero = refl
drop_nil (suc n) = refl

drop_plus : (m n : ℕ) (xs : List ℕ) → drop (m + n) xs ≡ drop n (drop m xs)
drop_plus zero n xs = ap (λ k. drop k xs) {x = 0 + n} {y = n} (omega arith)
drop_plus (suc m) n [] = drop_nil (suc m + n) ∙ sym (drop_nil n)
drop_plus (suc m) n (x ∷ xs) =
    ap (λ k. drop k (x ∷ xs)) {x = suc m + n} {y = suc (m + n)} (omega arith) ∙ drop_plus m n xs

drop_past :
    (a b rest : List ℕ)
    → length a ≤ length b
    → drop (length b) (a ++ drop (length a) rest) ≡ drop (length b) rest
drop_past [] b rest h = refl
drop_past (x ∷ a) [] rest h = absurd (omega arith)
drop_past (x ∷ a) (y ∷ b) [] h =
    ap (λ m. drop (length b) (a ++ m)) (sym (drop_nil (length a)))
    ∙ drop_past a b [] (omega arith)
    ∙ drop_nil (length b)
drop_past (x ∷ a) (y ∷ b) (z ∷ rest) h = drop_past a b rest (omega arith)

set_twice : {A : Type 0} (xs : List A) (i : ℕ) (a b : A) → set (set xs i a) i b ≡ set xs i b
set_twice [] i a b = refl
set_twice (x ∷ xs) zero a b = refl
set_twice (x ∷ xs) (suc i) a b = ap (λ m. x ∷ m) (set_twice xs i a b)

-- What the handler does once the bytes are stored in client y of a server.
abbrev handle_stored : (ℕ → Env) → ℕ → List ℕ → Client → Server → Option Server
handle_stored env c bytes y s =
    let available = y.buffer_recv + length bytes in
    if ltb (length bytes) header_size
    then (if length bytes == 0 then close_client_socket c s else some s)
    else (do
      scanned ←
          scan_packets env c (available + 1)
            (record { before = []; memory = y.buffer; available = available; server = s })
      z ← scanned
      with_client c (keep_rest z) z.server)

client_handler_stored :
    (env : ℕ → Env) (c : ℕ) (bytes : List ℕ) (s : Server) (x : Client)
    → get_elem? s.clients c ≡ some x
    → client_handler env c (received bytes) s
      ≡ handle_stored env c bytes (store bytes x) (put_client c (store bytes x) s)
unfolding client_handler
client_handler_stored env c bytes s x at_x = rw at_x refl

client_handler_short :
    (env : ℕ → Env) (c : ℕ) (bytes : List ℕ) (s : Server) (x : Client)
    → get_elem? s.clients c ≡ some x
    → 0 < length bytes
    → length bytes < header_size
    → client_handler env c (received bytes) s ≡ some (put_client c (store bytes x) s)
unfolding client_handler
client_handler_short env c bytes s x at_x some_bytes short =
    rw (at_x, lt→ltb _ _ short, ==_ne (length bytes) 0 (λ e. omega arith))

-- Where no more bytes were stored first, all of them are overwritten.
store_twice :
    (a b : List ℕ) (x : Client)
    → x.buffer_recv ≤ length x.buffer
    → length a ≤ length b
    → store b (store a x) ≡ store b x
store_twice a b x inside shorter =
    let r = x.buffer_recv in
    let kept = take r x.buffer in
    let behind = a ++ drop (r + length a) x.buffer in
    let size : r ≡ length kept = omega (arith, length-take r x.buffer, inside) in
    ap (λ m. record x { buffer = m })
      (ap₂ (λ l m. l ++ (b ++ m))
        (ap (λ n. take n (kept ++ behind)) size ∙ take-append_left kept behind)
        (drop_plus r (length b) (kept ++ behind)
          ∙ ap (drop (length b)) (
              ap (λ n. drop n (kept ++ behind)) size
              ∙ drop-append_left kept behind
              ∙ ap (λ m. a ++ m) (drop_plus r (length a) x.buffer))
          ∙ drop_past a b (drop r x.buffer) shorter
          ∙ sym (drop_plus r (length b) x.buffer)))

-- A read of fewer bytes than a header's is lost: it is written into the buffer but not counted, so
-- that the next read, if it has at least as many bytes, overwrites all of them. The server is then
-- as if the first read had not been.
pub client_handler_lost :
    (env env' : ℕ → Env) (c : ℕ) (a b : List ℕ) (s : Server) (x : Client)
    → get_elem? s.clients c ≡ some x
    → x.buffer_recv ≤ length x.buffer
    → 0 < length a
    → length a < header_size
    → length a ≤ length b
    → (client_handler env c (received a) s >>= λ t. client_handler env' c (received b) t)
      ≡ client_handler env' c (received b) s
client_handler_lost env env' c a b s x at_x inside some_bytes short shorter =
    ap (λ o. o >>= λ t. client_handler env' c (received b) t)
      (client_handler_short env c a s x at_x some_bytes short)
    ∙ client_handler_stored env' c b (put_client c (store a x) s) (store a x)
        (get_elem?-set_self s.clients c (store a x) (lt_of_get_elem? s.clients c x at_x))
    ∙ ap (λ y. handle_stored env' c b y (put_client c y (put_client c (store a x) s)))
        (store_twice a b x inside shorter)
    ∙ ap (handle_stored env' c b (store b x))
        (ap (λ cs. record s { clients = cs }) (set_twice s.clients c (store a x) (store b x)))
    ∙ sym (client_handler_stored env' c b s x at_x)
