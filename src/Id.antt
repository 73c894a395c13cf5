-- ===== src/Id.antt =====
-- libsyncs/syncs-common.h: identifiers, sizes by type, and the start of a header.
-- A C string is the list of its bytes before the terminator; what a pointer past its end would
-- read is the terminator, 0.
pub mod Compare
pub mod Text
mod Tests
use syncscribe.Common.{
  Option, memcpy, ℕ, zero, suc, ◌*◌, ◌-◌, ◌^◌, List, [], ◌∷◌, ◌++◌, Bool, true, false, ◌&&◌, ◌==◌,
  if◌then◌else◌, length, take, drop, replicate, word, bit_and,
}
use syncscribe.Types.{
  SyncsId, Header, id_size, packet_magic, packet_magic_data, type_var_mask, type_var_float,
  type_var_int32, type_var_double, type_var_int64,
}

-- `id.i[k]`.
pub id_word : ℕ → SyncsId → ℕ
id_word k id = word (take 8 (drop (8 * k) id))

-- `id.i[0] == -1`: the mark of a free slot.
unfoldable pub is_free : SyncsId → Bool
unfolding id_word
is_free id = id_word 0 id == 2 ^ 64 - 1

-- `id.i[0] = -1`.
unfoldable pub mark_free : SyncsId → SyncsId
mark_free id = replicate 8 255 ++ drop 8 id

unfoldable pub idcmp : SyncsId → SyncsId → Bool
unfolding id_word
idcmp a b =
    (id_word 0 a == id_word 0 b)
    && (id_word 1 a == id_word 1 b)
    && (id_word 2 a == id_word 2 b)
    && (id_word 3 a == id_word 3 b)

-- The character at a pointer, and the pointer moved on.
abbrev pub char_at : List ℕ → ℕ
char_at [] = 0
char_at (x ∷ xs) = x

-- The loop of `syncs_idcmp_str`, with the rounds that `--i` leaves.
idcmp_str_from : ℕ → List ℕ → List ℕ → Bool
idcmp_str_from zero s b = char_at s == char_at b
idcmp_str_from (suc i) s [] = char_at s == 0
idcmp_str_from (suc i) s (x ∷ b) =
    if x == 0
    then char_at s == 0
    else if char_at s == x
    then idcmp_str_from i (drop 1 s) b
    else false

unfoldable pub idcmp_str : SyncsId → List ℕ → Bool
unfolding idcmp_str_from
idcmp_str a b = idcmp_str_from (id_size - 1) a b

-- `while (--i && (*s++ = *b++) != 0);`: what it writes, with the rounds that `--i` leaves.
copy_str : ℕ → List ℕ → List ℕ
copy_str zero b = []
copy_str (suc i) [] = 0 ∷ []
copy_str (suc i) (x ∷ b) = if x == 0 then 0 ∷ [] else x ∷ copy_str i b

-- The destination is cleared first.
unfoldable pub idstr : List ℕ → SyncsId
unfolding copy_str
idstr b =
    let written = copy_str (id_size - 1) b in written ++ drop (length written) (replicate id_size 0)

-- The text copied over the start of `a`.
unfoldable pub stridcpy : List ℕ → SyncsId → Option (List ℕ)
unfolding copy_str
stridcpy a b = let written = copy_str (id_size - 1) b in memcpy a written (length written)

unfoldable pub get_size_by_type : ℕ → ℕ
get_size_by_type type =
    let t = bit_and type type_var_mask in
    if t == type_var_float
    then 4
    else if t == type_var_int32
    then 4
    else if t == type_var_double
    then 8
    else if t == type_var_int64
    then 8
    else 0

unfoldable pub fill_basic_header : Header → ℕ → Header
fill_basic_header p type = record p {
  magic = packet_magic;
  magic_data = packet_magic_data;
  type = type;
}

unfoldable pub fill_basic_header_request : Header → ℕ → Header
unfolding fill_basic_header
fill_basic_header_request p type = record (fill_basic_header p type) { data_size = 0 }

unfoldable pub fill_header : Header → SyncsId → ℕ → Header
unfolding fill_basic_header
fill_header p id type = record (fill_basic_header p type) { id = id }

unfoldable pub fill_header_str : Header → List ℕ → ℕ → Header
unfolding fill_basic_header idstr
fill_header_str p cid type = record (fill_basic_header p type) { id = idstr cid }

unfoldable pub fill_header_request_str : Header → List ℕ → ℕ → Header
unfolding fill_basic_header_request idstr
fill_header_request_str p cid type = record (fill_basic_header_request p type) { id = idstr cid }

unfoldable pub fill_header_request_id : Header → SyncsId → ℕ → Header
unfolding fill_basic_header_request
fill_header_request_id p id type = record (fill_basic_header_request p type) { id = id }
