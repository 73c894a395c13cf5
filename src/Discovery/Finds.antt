-- ===== src/Discovery/Finds.antt =====
-- A client that looks for a server finds one that answers.
use syncscribe.Common.{
  ℕ, ◌+◌, ◌^◌, ◌≤◌, ◌<◌, ◌≡◌, ◌≢◌, refl, sym, ap, ◌∙◌, List, [], ◌∷◌, ◌++◌, false, Option, none,
  some, arith, leb, le→leb, length, drop, All, All-append, length-append, append_assoc, ◌>>=◌,
  subst, if◌then◌else◌,
}
use syncscribe.Discovery.Reads.{Names, read_port-decimal, copy_address_lem}
use syncscribe.Text.{codes, c_string, find_text, write_bytes, decimal}
use syncscribe.Text.Search.{IsText, c_string-append}
use syncscribe.Text.Decimal.{decimal-IsText, length-decimal}
use syncscribe.Discovery.{
  Announced, Found, found, msearch_line, response_line, field_name, location_field, ssdp_ip,
  ssdp_port, response_text, msearch_text, read_port, take_location, find_at, find_in,
}

gt→leb_lem : {a b : ℕ} → b < a → leb a b ≡ false
gt→leb_lem h = ground arith

-- What a server can announce: an address of 16 characters at most without a colon, a port that is an
-- `int`, and a name of 31 characters at most.
pub record IsAnnounced (s : Announced) : Type 0 where
  pub addr_text : IsText s.addr
  pub addr_clean : All (λ x. x ≢ b':') s.addr
  pub addr_few : length s.addr ≤ 16
  pub port_small : s.port < 2 ^ 31
  pub id_text : IsText s.id
  pub id_few : length s.id ≤ 31

-- The answer after the port, and after `LOCATION:`.
after_port : Announced → List ℕ
after_port s =
    codes "\r\nSERVER:unknow\r\nST:"
    ++ (field_name ++ (codes "\r\nUSN:" ++ (s.id ++ codes "\r\n\r\n")))

pub after_location : Announced → List ℕ
unfolding after_port
after_location s = s.addr ++ b':' ∷ (decimal s.port ++ after_port s)

start_text : List ℕ
start_text = response_line ++ codes "CACHE-CONTROL:max-age=120\r\nDATE:\r\nEXT:\r\n"

response_text_parts :
    (s : Announced) → response_text s ≡ start_text ++ (location_field ++ after_location s)
unfolding response_text start_text after_location
response_text_parts s = refl

pub response_text-Names : (s : Announced) → Names response_line (response_text s)
unfolding response_text
response_text-Names s = record {
  before =
      codes "CACHE-CONTROL:max-age=120\r\nDATE:\r\nEXT:\r\nLOCATION:"
      ++ (s.addr ++ b':' ∷ (decimal s.port ++ codes "\r\nSERVER:unknow\r\nST:"));
  after = codes "\r\nUSN:" ++ (s.id ++ codes "\r\n\r\n");
  parts = simp append_assoc;
}

texts : (xs ys : List ℕ) → IsText xs → IsText ys → IsText (xs ++ ys)
texts xs ys h k = All-append (λ (x : ℕ). x ≢ 0) xs ys h k

find_location :
    (rest : List ℕ) → find_text location_field (start_text ++ (location_field ++ rest)) ≡ some 57
unfolding find_text start_text
find_location rest = refl

drop-location : (rest : List ℕ) → drop (57 + 9) (start_text ++ (location_field ++ rest)) ≡ rest
unfolding start_text
drop-location rest = refl

pub msearch_text-Names : Names msearch_line msearch_text
unfolding msearch_text
msearch_text-Names = record {
  before =
      codes "HOST:"
      ++ (ssdp_ip
          ++ b':' ∷ (decimal ssdp_port ++ codes "\r\nMAN:\"ssdp:discover\"\r\nMX:1\r\nST:"));
  after = codes "\r\nUSER-AGENT:unknow\r\n\r\n";
  parts = simp append_assoc;
}

pub msearch_text-IsText : IsText msearch_text
unfolding msearch_text
msearch_text-IsText = omega arith

pub length-msearch_text : length msearch_text ≡ 118
unfolding msearch_text
length-msearch_text = refl

module _ (s : Announced) (is : IsAnnounced s) where
  after_port-IsText : IsText (after_port s)
  unfolding after_port
  after_port-IsText =
      let named = s.id ++ codes "\r\n\r\n" in
      let usn = codes "\r\nUSN:" ++ named in
      texts (codes "\r\nSERVER:unknow\r\nST:") (field_name ++ usn) (omega arith) (
        texts field_name usn (omega arith) (
          texts (codes "\r\nUSN:") named (omega arith)
            (texts s.id (codes "\r\n\r\n") is.id_text (omega arith))))

  after_location-IsText : IsText (after_location s)
  unfolding after_location
  after_location-IsText =
      texts s.addr (b':' ∷ (decimal s.port ++ after_port s)) is.addr_text (
        omega arith,
        texts (decimal s.port) (after_port s) (decimal-IsText s.port) after_port-IsText,
      )

  pub response_text-IsText : IsText (response_text s)
  unfolding start_text
  response_text-IsText = subst IsText (sym (response_text_parts s)) (
      texts start_text (location_field ++ after_location s) (omega arith)
        (texts location_field (after_location s) (omega arith) after_location-IsText))

  pub response_text_short : length (response_text s) ≤ 200
  unfolding response_text
  response_text_short =
      let tail =
        codes "\r\nSERVER:unknow\r\nST:"
        ++ (field_name ++ (codes "\r\nUSN:" ++ (s.id ++ codes "\r\n\r\n"))) in
      omega (
        arith,
        length-decimal s.port is.port_small,
        is.addr_few,
        is.id_few,
        length-append s.id (codes "\r\n\r\n"),
        length-append (decimal s.port) tail,
        length-append s.addr (b':' ∷ (decimal s.port ++ tail)),
      )

  after_location_read :
      (more ip addr : List ℕ)
      → take_location (after_location s ++ more) ip addr
        ≡ (write_bytes (s.addr ++ (ip ++ 0 ∷ [])) addr >>= λ a. some (found a s.port))
  unfolding take_location after_location after_port read_port
  after_location_read more ip addr =
      rw
        (
          append_assoc s.addr (b':' ∷ (decimal s.port ++ after_port s)) more,
          copy_address_lem 17 s.addr ((decimal s.port ++ after_port s) ++ more)
              (omega (arith, is.addr_few)) is.addr_clean,
          port_read,
        )
        refl
    where
      port_read : read_port ((decimal s.port ++ after_port s) ++ more) 0 ≡ some s.port
      port_read =
          ap (λ l. read_port l 0) (append_assoc (decimal s.port) (after_port s) more)
          ∙ read_port-decimal s.port (after_port s ++ more) is.port_small
          ∙ after_digits
        where
          after_digits : read_port (after_port s ++ more) s.port ≡ some s.port
          after_digits = refl

  -- What comes after `LOCATION:` is read as the address and the port, where there is room.
  pub take_location-after :
      (ip addr : List ℕ)
      → length s.addr + length ip < length addr
      → (more : List ℕ)
      → take_location (after_location s ++ more) ip addr
        ≡ some (
            found
              ((s.addr ++ (ip ++ 0 ∷ [])) ++ drop (length (s.addr ++ (ip ++ 0 ∷ []))) addr)
              s.port)
  unfolding write_bytes
  take_location-after ip addr room more =
      after_location_read more ip addr
      ∙ rw (
          le→leb (length (s.addr ++ (ip ++ 0 ∷ []))) (length addr)
            (omega (arith, length-append s.addr (ip ++ 0 ∷ []), length-append ip (0 ∷ []), room)))

  -- Where there is none, it is written past the memory.
  pub take_location_overflow :
      (ip addr : List ℕ)
      → length addr ≤ length s.addr + length ip
      → (more : List ℕ) → take_location (after_location s ++ more) ip addr ≡ none
  unfolding write_bytes
  take_location_overflow ip addr full more =
      after_location_read more ip addr
      ∙ ap
          (λ b.
            (if b
              then some
                  ((s.addr ++ (ip ++ 0 ∷ [])) ++ drop (length (s.addr ++ (ip ++ 0 ∷ []))) addr)
              else none)
            >>= λ a. some (found a s.port))
          (gt→leb_lem
            (omega (arith, length-append s.addr (ip ++ 0 ∷ []), length-append ip (0 ∷ []), full)))

  -- The memory of the answer, read by a client.
  pub find_in-response :
      (more rest ip addr : List ℕ) (o : Option Found)
      → c_string more ≡ some rest
      → ((t : List ℕ) → take_location (after_location s ++ t) ip addr ≡ o)
      → find_in (response_text s ++ more) ip addr ≡ (o >>= λ r. some (some r))
  unfolding find_in find_at
  find_in-response more rest ip addr o there taken =
      let whole = c_string-append (response_text s) rest more response_text-IsText there in
      let again : (t : List ℕ)
          → response_text s ++ t ≡ start_text ++ (location_field ++ (after_location s ++ t)) =
        λ t.
          rw (response_text_parts s)
            (append_assoc start_text (location_field ++ after_location s) t) in
      let place =
        ap (find_text location_field) (again rest) ∙ find_location (after_location s ++ rest) in
      let suffix = ap (drop (57 + 9)) (again more) ∙ drop-location (after_location s ++ more) in
      rw whole (
        ap (find_at (response_text s ++ more) ip addr) place
        ∙ ap (λ l. take_location l ip addr >>= λ r. some (some r)) suffix
        ∙ ap (λ o. o >>= λ r. some (some r)) (taken more))
