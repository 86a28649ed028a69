-- ===== src/Html/QueryParams/RoundTrip.antt =====
-- Parameters written by `encoded_params` and read again by `decode` (lib/html/query_params.cpp).
use httplib.Base.{
  ◌≡◌, ◌≢◌, refl, ap, subst, ◌∙◌, Bool, true, false, not, some, [], ◌∷◌, ◌++◌, map, append_assoc,
  append-nil, Text, codes, null, All, Lacks, arith, ==_ne, if◌then◌else◌, All-append,
}
use mathlib.Core.List.{Perm, perm_middle}
use mathlib.Core.List.Perm
use httplib.Util.Trim.{Trimming, is_space}
use httplib.Util.Split.{split}
use httplib.Util.Split.Pieces.{pieces, without_first, pieces-append, pieces-Lacks}
use httplib.Util.Split.Laws.{split-pieces}
use httplib.Util.Url.{url_encode}
use httplib.Util.Url.RoundTrip.{IsByte, plus_for_space, url_decode-url_encode}
use httplib.Html.QueryParams.{
  Entries, Hashing, Joining, add, decode_pair, decode_items, decode, token, encoded_params,
}
use httplib.Html.QueryParams.Safe.{
  all_safe, StartsSafe, url_encode-safe, StartsSafe-append, url_encode-nonempty, all_safe-Lacks_and,
  all_safe-Lacks_is, all_safe-All, trim_clean,
}

module _ (boost : Trimming) where
  -- A key and its value, both encoded_params, at the first `=`.
  split-token :
      (k v : Text)
      → all_safe k ≡ true
      → not (null k) ≡ true
      → all_safe v ≡ true
      → split boost (k ++ b'=' ∷ v) (codes "=") ≡ k ∷ (if null v then [] else v ∷ [])
  split-token [] v sk nk sv = cc
  split-token (c ∷ k) v sk nk sv =
      split-pieces boost b'=' (c ∷ k ++ b'=' ∷ v) (λ e. cc)
      ∙ rw (==_ne c b'=' (all_safe-Lacks_is (c ∷ k) sk).0) (
          ap (map boost.trim) (pieces-append b'=' (c ∷ k) v (all_safe-Lacks_is (c ∷ k) sk))
          ∙ rw (pieces-Lacks b'=' v (all_safe-Lacks_is v sv))
              (trimmed v (trim_clean boost v (all_safe-All v sv))))
    where
      trimmed :
          (u : Text)
          → boost.trim u ≡ u
          → map boost.trim ((c ∷ k) ∷ (if null u then [] else u ∷ []))
            ≡ (c ∷ k) ∷ (if null u then [] else u ∷ [])
      trimmed [] e = rw (trim_clean boost (c ∷ k) (all_safe-All (c ∷ k) sk)) refl
      trimmed (x ∷ u) e = rw (trim_clean boost (c ∷ k) (all_safe-All (c ∷ k) sk), e) refl

-- An entry whose key is not empty, of bytes.
abbrev pub IsEntry : Text × Text → Type 0
IsEntry item = (item.0 ≢ []) × All IsByte item.0 × All IsByte item.1

abbrev pub plus_entry : Text × Text → Text × Text
plus_entry item = (map plus_for_space item.0, map plus_for_space item.1)

module _ (boost : Trimming) (hashing : Hashing) where
  decode_pair-token :
      (item : Text × Text) (params : Entries)
      → IsEntry item
      → decode_pair hashing (split boost (token item) (codes "=")) params
        ≡ some (hashing.emplace (plus_entry item) params)
  unfolding token decode_pair add
  decode_pair-token (k, v) params (nk, bk, bv) =
      ap (λ parts. decode_pair hashing parts params)
        (split-token boost (url_encode k) (url_encode v) (url_encode-safe k bk)
          (url_encode-nonempty k nk bk) (url_encode-safe v bv))
      ∙ by_value v bv
    where
      by_value :
          (u : Text)
          → All IsByte u
          → decode_pair hashing
              (url_encode k ∷ (if null (url_encode u) then [] else url_encode u ∷ []))
              params
            ≡ some (hashing.emplace (map plus_for_space k, map plus_for_space u) params)
      by_value [] b = unfold url_encode in rw (url_decode-url_encode k bk) refl
      by_value (c ∷ u) b =
          let full = url_encode-nonempty (c ∷ u) (λ e. cc) b in
          rw
            (
              not_true (null (url_encode (c ∷ u))) full,
              url_decode-url_encode k bk,
              url_decode-url_encode (c ∷ u) b,
            )
            refl
        where
          not_true : (b : Bool) → not b ≡ true → b ≡ false
          not_true true q = cc
          not_true false q = refl

module _ (hashing : Hashing) where
  -- The entries put in one by one.
  abbrev put_all : Entries → Entries → Entries
  put_all [] params = params
  put_all (item ∷ items) params = put_all items (hashing.emplace (plus_entry item) params)

  put_all-perm :
      (items params : Entries) → Perm (put_all items params) (map plus_entry items ++ params)
  put_all-perm [] params = Perm.rfl
  put_all-perm (item ∷ items) params =
      Perm.trans (put_all-perm items (hashing.emplace (plus_entry item) params)) (
        Perm.trans
          (Perm.append_left (map plus_entry items) (hashing.emplace_perm (plus_entry item) params))
          (perm_middle (map plus_entry items) params))

token-Lacks_and : (item : Text × Text) → IsEntry item → Lacks b'&' (token item)
unfolding token
token-Lacks_and (k, v) (nk, bk, bv) =
    All-append (λ x. x ≢ b'&') (url_encode k) (b'=' ∷ url_encode v)
      (all_safe-Lacks_and (url_encode k) (url_encode-safe k bk))
      ((λ e. omega (arith, e)), all_safe-Lacks_and (url_encode v) (url_encode-safe v bv))

token-clean : (item : Text × Text) → IsEntry item → All (λ c. is_space c ≡ false) (token item)
unfolding token
token-clean (k, v) (nk, bk, bv) =
    All-append (λ c. is_space c ≡ false) (url_encode k) (b'=' ∷ url_encode v)
      (all_safe-All (url_encode k) (url_encode-safe k bk))
      (refl, all_safe-All (url_encode v) (url_encode-safe v bv))

module _ (joining : Joining) where
  -- What `encoded_params` writes for a first entry and others.
  abbrev written : Text × Text → Entries → Text
  written item items = encoded_params joining (item ∷ items)

  written-starts :
      (item : Text × Text) (items : Entries) → IsEntry item → StartsSafe (written item items)
  unfolding encoded_params token
  written-starts (k, v) [] (nk, bk, bv) = rw (joining.join_one (token (k, v)) (codes "&")) (
      StartsSafe-append (url_encode k) (b'=' ∷ url_encode v) (url_encode-safe k bk)
        (url_encode-nonempty k nk bk))
  written-starts (k, v) (i ∷ items) (nk, bk, bv) =
      rw
        (
          joining.join_more (token (k, v)) (token i) (map token items) (codes "&"),
          append_assoc (url_encode k) (b'=' ∷ url_encode v)
              (b'&' ∷ joining.join (map token (i ∷ items)) (codes "&")),
        )
        (StartsSafe-append (url_encode k) _ (url_encode-safe k bk) (url_encode-nonempty k nk bk))

  not_null-StartsSafe : (s : Text) → StartsSafe s → null s ≡ false
  not_null-StartsSafe [] (c, rest, e, h) = cc
  not_null-StartsSafe (x ∷ s) h = refl

  pieces-written :
      (item : Text × Text) (items : Entries)
      → All IsEntry (item ∷ items)
      → pieces b'&' (written item items) ≡ map token (item ∷ items)
  unfolding encoded_params
  pieces-written item [] h =
      rw (joining.join_one (token item) (codes "&"))
        (pieces-Lacks b'&' (token item) (token-Lacks_and item h.0))
  pieces-written item (i ∷ items) h =
      rw (joining.join_more (token item) (token i) (map token items) (codes "&")) (
        pieces-append b'&' (token item) (written i items) (token-Lacks_and item h.0)
        ∙ rw (not_null-StartsSafe (written i items) (written-starts i items h.1.0))
            (ap (λ ps. token item ∷ ps) (pieces-written i items h.1)))

  without_first-StartsSafe : (s : Text) → StartsSafe s → without_first b'&' s ≡ s
  without_first-StartsSafe s (c, rest, e, h) = rw (e, ==_ne c b'&' apart) refl
    where
      apart : c ≢ b'&'
      apart = ground (arith, h)

  module _ (boost : Trimming) (hashing : Hashing) where
    trim_tokens :
        (items : Entries) → All IsEntry items → map boost.trim (map token items) ≡ map token items
    trim_tokens [] h = refl
    trim_tokens (i ∷ items) h =
        rw (trim_clean boost (token i) (token-clean i h.0), trim_tokens items h.1) refl

    decode_items-tokens :
        (items params : Entries)
        → All IsEntry items
        → decode_items boost hashing (map token items) params ≡ some (put_all hashing items params)
    unfolding decode_items
    decode_items-tokens [] params h = refl
    decode_items-tokens (i ∷ items) params h =
        rw (decode_pair-token boost hashing i params h.0)
          (decode_items-tokens items (hashing.emplace (plus_entry i) params) h.1)

    decode-put_all :
        (params : Entries)
        → All IsEntry params
        → decode boost hashing (encoded_params joining params) ≡ some (put_all hashing params [])
    unfolding decode encoded_params
    decode-put_all [] h = rw (joining.join_none (codes "&")) refl
    decode-put_all (item ∷ items) h =
        let start = written-starts item items h.0 in
        rw (not_null-StartsSafe (written item items) start) (
          ap (λ parts. decode_items boost hashing parts []) {y = map token (item ∷ items)}
            (split-pieces boost b'&' (written item items) (nonempty start)
              ∙ rw (without_first-StartsSafe (written item items) start) (
                  ap (map boost.trim) (pieces-written item items h) ∙ trim_tokens (item ∷ items) h))
          ∙ decode_items-tokens (item ∷ items) [] h)
      where
        nonempty : StartsSafe (written item items) → written item items ≢ []
        nonempty (c, rest, e, k) q = cc

    -- What `encoded_params` writes for parameters of bytes whose keys are not empty, met in any order,
    -- is read by `decode`, without an exception, as the same parameters, each as often, with a `+` for
    -- each space; the order in which they are met then may be another one.
    pub decode-encoded_params :
        (params : Entries)
        → All IsEntry params
        → (again : Entries) × (decode boost hashing (encoded_params joining params) ≡ some again)
          × Perm again (map plus_entry params)
    decode-encoded_params params h = (
      put_all hashing params [],
      decode-put_all params h,
      subst (Perm (put_all hashing params [])) (append-nil (map plus_entry params))
          (put_all-perm hashing params []),
    )
