-- ===== src/Util/Url/RoundTrip.antt =====
-- What URL decoding makes of the output of URL encoding.
use httplib.Base.{
  ℕ, ◌/◌, ◌%◌, ◌<◌, ◌≡◌, ◌≢◌, refl, ap, ◌∙◌, true, false, some, [], ◌∷◌, ◌++◌, map, arith, ◌==◌,
  if◌then◌else◌, ==_iff, ==_ne, ◌>>=◌, inl, inr, Text, All, Lacks, Bool-cases, byte_table,
  byte_table-entry,
}
use httplib.Util.Url.{hex2dec, hex_digit, is_unreserved, encode_byte, url_encode, url_decode}
use httplib.Util.Url.Reference.{unescape, decoded}
use httplib.Util.Url.InPlace.{decoded-plain, url_decode-decoded}

abbrev pub IsByte : ℕ → Type 0
IsByte c = c < 256

-- A space comes back as a plus sign, every other byte as itself.
abbrev pub plus_for_space : ℕ → ℕ
plus_for_space c = if c == b' ' then b'+' else c

digits_table : byte_table (λ c. unescape (hex_digit (c / 16)) (hex_digit (c % 16)) == c) 256 ≡ true
unfolding byte_table hex2dec
digits_table = refl

unescape-hex_digit : (c : ℕ) → IsByte c → unescape (hex_digit (c / 16)) (hex_digit (c % 16)) ≡ c
unescape-hex_digit c h = (==_iff _ c).0 (
    byte_table-entry (λ x. unescape (hex_digit (x / 16)) (hex_digit (x % 16)) == x) 256 c
      digits_table h)

ne_of_unreserved : (c d : ℕ) → is_unreserved c ≡ true → is_unreserved d ≡ false → c ≢ d
ne_of_unreserved c d h k e = cc (ap is_unreserved e)

decoded-escape :
    (h l : ℕ) (t : Text) → decoded (b'%' ∷ h ∷ l ∷ t) ≡ (decoded t >>= λ u. some (unescape h l ∷ u))
unfolding decoded
decoded-escape h l t = refl

decoded-encode_byte :
    (c : ℕ) (t : Text)
    → IsByte c
    → decoded (encode_byte c ++ t) ≡ (decoded t >>= λ u. some (plus_for_space c ∷ u))
unfolding encode_byte
decoded-encode_byte c t h = elim (Bool-cases (is_unreserved c)) [
  | inl e ↦
      rw (e, ==_ne c b' ' (ne_of_unreserved c b' ' e refl))
        (decoded-plain c t (ne_of_unreserved c b'%' e refl))
  | inr e ↦ elim (Bool-cases (c == b' ')) [
    | inl s ↦ rw (e, s) (decoded-plain b'+' t (omega arith))
    | inr s ↦
        rw (e, s)
          (decoded-escape (hex_digit (c / 16)) (hex_digit (c % 16)) t
            ∙ ap (λ v. decoded t >>= λ u. some (v ∷ u)) (unescape-hex_digit c h))
  ]
]

decoded-url_encode :
    (s : Text) → All IsByte s → decoded (url_encode s) ≡ some (map plus_for_space s)
unfolding url_encode
decoded-url_encode [] h = unfold decoded in refl
decoded-url_encode (c ∷ s) h =
    decoded-encode_byte c (url_encode s) h.0
    ∙ ap (λ o. o >>= λ u. some (plus_for_space c ∷ u)) (decoded-url_encode s h.1)

-- Decoding the encoding of any text of bytes succeeds and gives the text with a `+` for each space.
pub url_decode-url_encode :
    (s : Text) → All IsByte s → url_decode (url_encode s) ≡ some (map plus_for_space s)
url_decode-url_encode s h = url_decode-decoded (url_encode s) ∙ decoded-url_encode s h

map-plus_for_space : (s : Text) → Lacks b' ' s → map plus_for_space s ≡ s
map-plus_for_space [] h = refl
map-plus_for_space (c ∷ s) h = rw (==_ne c b' ' h.0) (ap (◌∷◌ c) (map-plus_for_space s h.1))

-- Encoding and then decoding a text of bytes that has no space gives the text as it was.
pub url_decode-url_encode-Lacks :
    (s : Text) → All IsByte s → Lacks b' ' s → url_decode (url_encode s) ≡ some s
url_decode-url_encode-Lacks s h k = url_decode-url_encode s h ∙ ap some (map-plus_for_space s k)
