-- ===== src/Util/Url.antt =====
-- URL coding of include/httplib/util/misc.hpp: `hex2dec`, `url_decode` (in place) and `url_encode`.
pub mod Reference
pub mod InPlace
pub mod RoundTrip
use Prim.Native.Nat.{bit_or}
use httplib.Base.{
  ℕ, zero, suc, ◌+◌, ◌-◌, ◌*◌, ◌/◌, ◌%◌, Bool, ◌&&◌, ◌||◌, Option, none, some, List, [], ◌∷◌, ◌++◌,
  ltb, leb, ◌==◌, if◌then◌else◌, ◌>>=◌, Text, length, take, get_elem?, set, codes,
}

-- `std::uint8_t` arithmetic; a byte that is no hexadecimal digit is returned as it is.
unfoldable pub hex2dec : ℕ → ℕ
hex2dec c =
    if leb b'0' c && leb c b'9'
    then c - b'0'
    else if leb b'a' c && leb c b'f'
    then c - (b'a' - 10)
    else if leb b'A' c && leb c b'F'
    then c - (b'A' - 10)
    else c

-- `str[i]` of a `std::string`: at `size()` it is the terminating null; beyond that the read is out
-- of bounds, which is `none`.
unfoldable pub char_at : Text → ℕ → Option ℕ
char_at str i = if i == length str then some 0 else get_elem? str i

-- One escape: the two bytes behind the `%` at `r`.
unfoldable pub escaped_at : Text → ℕ → Option ℕ
unfolding char_at hex2dec
escaped_at str r = do
  high ← char_at str (r + 1)
  low ← char_at str (r + 2)
  some (bit_or (hex2dec high * 16 % 256) (hex2dec low))

-- The loop of `url_decode(std::string&)`. `r` is read and `w` written, in one buffer; the fuel
-- bounds the rounds. `none` is an out-of-bounds read, or the end of the fuel.
decode_from : ℕ → ℕ → ℕ → Text → Option Text
decode_from zero r w str = none
decode_from (suc fuel) r w str =
    let put = λ (r' v : ℕ). decode_from fuel r' (suc w) (set str w v) in
    if ltb r (length str)
    then (do
      c ← char_at str r
      if c == b'%' then (escaped_at str r >>= put (r + 3)) else put (suc r) c)
    else some (take w str)

unfoldable pub url_decode : Text → Option Text
unfolding decode_from escaped_at
url_decode str = decode_from (suc (length str)) 0 0 str

-- `std::isalnum` in the classic locale, for the bytes of ASCII; false for the others.
abbrev pub is_alnum : ℕ → Bool
is_alnum c = (leb b'0' c && leb c b'9') || (leb b'a' c && leb c b'z') || (leb b'A' c && leb c b'Z')

abbrev pub hex_digit : ℕ → ℕ
hex_digit d = if ltb d 10 then b'0' + d else b'a' + d - 10

-- The bytes that `url_encode` copies.
abbrev pub is_unreserved : ℕ → Bool
is_unreserved c = is_alnum c || c == b'-' || c == b'_' || c == b'.' || c == b'~'

-- One round of the loop: what is put on the stream for a byte. `std::setw(2)` with the fill `0` and
-- `std::hex` gives two lower-case digits for a byte.
unfoldable pub encode_byte : ℕ → Text
encode_byte c =
    if is_unreserved c
    then c ∷ []
    else if c == b' '
    then b'+' ∷ []
    else b'%' ∷ hex_digit (c / 16) ∷ hex_digit (c % 16) ∷ []

unfoldable pub url_encode : Text → Text
unfolding encode_byte
url_encode [] = []
url_encode (c ∷ value) = encode_byte c ++ url_encode value
