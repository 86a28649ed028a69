-- ===== src/Html/QueryParams/Safe.antt =====
-- The bytes that `url_encode` writes are none that `decode` of lib/html/query_params.cpp splits at or
-- trims.
use httplib.Base.{
  ℕ, ◌≡◌, ◌≢◌, refl, Bool, true, false, not, ◌&&◌, [], ◌∷◌, ◌++◌, Text, null, All, Lacks, arith,
  ◌==◌, and-true, byte_table, byte_table-entry,
}
use httplib.Util.Trim.{Trimming, is_space, trim_id, All-StartsClean, All-EndsClean}
use httplib.Util.Url.{encode_byte, url_encode}
use httplib.Util.Url.RoundTrip.{IsByte}

-- The bytes that neither separate nor are trimmed.
abbrev pub is_safe : ℕ → Bool
is_safe c = not (c == b'&') && (not (c == b'=') && not (is_space c))

abbrev pub all_safe : Text → Bool
all_safe [] = true
all_safe (c ∷ s) = is_safe c && all_safe s

pub all_safe-append :
    (s t : Text) → all_safe s ≡ true → all_safe t ≡ true → all_safe (s ++ t) ≡ true
all_safe-append [] t h k = k
all_safe-append (c ∷ s) t h k = ground (arith, all_safe-append s t)

safe_table : byte_table (λ c. all_safe (encode_byte c) && not (null (encode_byte c))) 256 ≡ true
unfolding byte_table encode_byte
safe_table = refl

encode_byte-safe :
    (c : ℕ) → IsByte c → (all_safe (encode_byte c) ≡ true) × (not (null (encode_byte c)) ≡ true)
encode_byte-safe c h = and-true (all_safe (encode_byte c)) (not (null (encode_byte c))) (
    byte_table-entry (λ x. all_safe (encode_byte x) && not (null (encode_byte x))) 256 c safe_table
      h)

pub url_encode-safe : (s : Text) → All IsByte s → all_safe (url_encode s) ≡ true
unfolding url_encode
url_encode-safe [] h = refl
url_encode-safe (c ∷ s) h =
    all_safe-append (encode_byte c) (url_encode s) (encode_byte-safe c h.0).0
      (url_encode-safe s h.1)

-- A text that starts with a safe byte.
abbrev pub StartsSafe : Text → Type 0
StartsSafe s = (c : ℕ) × (rest : Text) × (s ≡ c ∷ rest) × (is_safe c ≡ true)

pub StartsSafe-append : (s t : Text) → all_safe s ≡ true → not (null s) ≡ true → StartsSafe (s ++ t)
StartsSafe-append [] t h k = cc
StartsSafe-append (c ∷ s) t h k = (c, s ++ t, refl, (and-true (is_safe c) (all_safe s) h).0)

pub url_encode-nonempty : (s : Text) → s ≢ [] → All IsByte s → not (null (url_encode s)) ≡ true
unfolding url_encode
url_encode-nonempty [] h k = absurd (h refl)
url_encode-nonempty (c ∷ s) h k = by_first (encode_byte c) (encode_byte-safe c k.0).1
  where
    by_first : (e : Text) → not (null e) ≡ true → not (null (e ++ url_encode s)) ≡ true
    by_first [] q = cc
    by_first (x ∷ e) q = refl

pub all_safe-Lacks_and : (s : Text) → all_safe s ≡ true → Lacks b'&' s
all_safe-Lacks_and [] h = tt
all_safe-Lacks_and (c ∷ s) h =
    let parts = and-true (is_safe c) (all_safe s) h in
    (ground (arith, parts.0), all_safe-Lacks_and s parts.1)

pub all_safe-Lacks_is : (s : Text) → all_safe s ≡ true → Lacks b'=' s
all_safe-Lacks_is [] h = tt
all_safe-Lacks_is (c ∷ s) h =
    let parts = and-true (is_safe c) (all_safe s) h in
    (ground (arith, parts.0), all_safe-Lacks_is s parts.1)

pub all_safe-All : (s : Text) → all_safe s ≡ true → All (λ c. is_space c ≡ false) s
all_safe-All [] h = tt
all_safe-All (c ∷ s) h =
    let parts = and-true (is_safe c) (all_safe s) h in
    (
      not_true (is_space c)
          (and-true (not (c == b'=')) (not (is_space c))
            (and-true (not (c == b'&')) (not (c == b'=') && not (is_space c)) parts.0).1).1,
      all_safe-All s parts.1,
    )
  where
    not_true : (b : Bool) → not b ≡ true → b ≡ false
    not_true true q = cc
    not_true false q = refl

module _ (boost : Trimming) where
  pub trim_clean : (s : Text) → All (λ c. is_space c ≡ false) s → boost.trim s ≡ s
  trim_clean s h = trim_id boost s (All-StartsClean s h) (All-EndsClean s h)
