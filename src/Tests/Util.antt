-- ===== src/Tests/Util.antt =====
-- Splitting, decoding and encoding of concrete texts.
use httplib.Base.{ℕ, ◌≡◌, ◌≢◌, refl, some, none, List, [], ◌∷◌, map, Text, codes, All, Lacks, arith}
use httplib.Util.Split.{split}
use httplib.Util.Split.Laws.{split-pieces}
use httplib.Util.Url.{url_decode, url_encode}
use httplib.Util.Url.RoundTrip.{url_decode-url_encode, url_decode-url_encode-Lacks, plus_for_space}
use httplib.Util.Split.Pieces.{pieces, without_first}
use httplib.Util.Url.InPlace.{url_decode-decoded}
use httplib.Util.Url.Reference.{decoded}
use httplib.Tests.Trimming.{trimming}

split_path : split trimming (codes "/a/ b//") (codes "/") ≡ codes "a" ∷ codes "b" ∷ [] ∷ []
unfolding split trimming httplib.Base.find_from httplib.Tests.Trimming.join
split_path = refl

split_range : split trimming (codes "-5") (codes "-") ≡ codes "5" ∷ []
unfolding split trimming httplib.Base.find_from httplib.Tests.Trimming.join
split_range = refl

split-pieces_example :
    split trimming (codes "a, b,c") (codes ",")
    ≡ map trimming.trim (pieces b',' (without_first b',' (codes "a, b,c")))
split-pieces_example = split-pieces trimming b',' (codes "a, b,c") (λ e. cc)

decode_escape : url_decode (codes "a%2Fb+%41") ≡ some (codes "a/b+A")
unfolding url_decode
decode_escape = refl

decode_cut : url_decode (codes "a%") ≡ none
unfolding url_decode
decode_cut = refl

encode_space : url_encode (codes "a b/c") ≡ codes "a+b%2fc"
unfolding url_encode
encode_space = refl

url_decode-decoded_example : url_decode (codes "%41+b") ≡ decoded (codes "%41+b")
url_decode-decoded_example = url_decode-decoded (codes "%41+b")

url_decode-url_encode_example :
    url_decode (url_encode (codes "a b")) ≡ some (map plus_for_space (codes "a b"))
url_decode-url_encode_example =
    url_decode-url_encode (codes "a b") (omega arith, (omega arith, (omega arith, tt)))

kept_space : url_decode (url_encode (codes "a/b")) ≡ some (codes "a/b")
kept_space =
    url_decode-url_encode-Lacks (codes "a/b") (omega arith, (omega arith, (omega arith, tt)))
      ((λ e. omega (arith, e)), ((λ e. omega (arith, e)), ((λ e. omega (arith, e)), tt)))
