-- ===== src/Bodies/FormData/Disposition/Pairs.antt =====
-- The loop of `parse_content_disposition`: what it reads of quoted values, and that it ends.
use mathlib.Core.Option
use httplib.Base.{
  drop-append_cons, not, ◌&&◌, ℕ, zero, suc, ◌+◌, ◌≤◌, ◌<◌, ◌≡◌, ◌≢◌, refl, ap, Bool, false, Option,
  some, List, [], ◌∷◌, ◌++◌, inl, inr, arith, Text, codes, length, take, drop, find, Lacks, All,
  length-drop, take-append, Option-cases, Bool-cases, ◌==◌,
}
use httplib.Util.Trim.{Trimming, is_space}
use httplib.Util.Split.Pieces.{find-append}
use httplib.Util.Split.Total.{find_bound}
use httplib.Bodies.FormData.Disposition.{
  quoted, plain, value_at, skip_semicolon, skip_spaces, parse_from, parse_content_disposition,
}

-- The bytes that may stand between quotes and are read back.
abbrev pub Quotable : Text → Type 0
Quotable = All (λ c. (c ≢ 34) × (c ≢ 92))

quoted-append : (n r : Text) → Quotable n → quoted false (n ++ 34 ∷ r) ≡ (n, 34 ∷ r)
unfolding quoted
quoted-append [] r h = refl
quoted-append (c ∷ n) r h = ground (arith, quoted-append n r h.1)

value_at-quoted :
    (boost : Trimming) (n r : Text) → Quotable n → value_at boost (34 ∷ (n ++ 34 ∷ r)) ≡ (n, r)
unfolding value_at
value_at-quoted boost n r h = rw (quoted-append n r h) refl

-- One pair `k="n"`.
pub parse_from-pair :
    (boost : Trimming) (fuel x : ℕ) (k n r : Text)
    → Lacks 61 (x ∷ k)
    → Quotable n
    → parse_from boost (suc fuel) (x ∷ k ++ 61 ∷ 34 ∷ (n ++ 34 ∷ r))
      ≡ Option.map
          (λ more. (boost.trim (x ∷ k), n) ∷ more)
          (parse_from boost fuel (skip_spaces (skip_semicolon r)))
unfolding parse_from
parse_from-pair boost fuel x k n r h q =
    rw
      (
        find-append 61 (x ∷ k) (34 ∷ (n ++ 34 ∷ r)) h,
        take-append (x ∷ k) (61 ∷ 34 ∷ (n ++ 34 ∷ r)),
        drop-append_cons (x ∷ k) 61 (34 ∷ (n ++ 34 ∷ r)),
        parse_from,
      )
      (ap with_value (value_at-quoted boost n r q))
  where
    with_value : Text × Text → Option (List (Text × Text))
    with_value after =
        Option.map (λ more. (boost.trim (x ∷ k), after.0) ∷ more)
          (parse_from boost fuel (skip_spaces (skip_semicolon after.1)))

-- Each round takes at least one byte, so the fuel is enough.
module _ (boost : Trimming) where
  quoted_shorter : (escape : Bool) (s : Text) → length (quoted escape s).1 ≤ length s
  unfolding quoted
  quoted_shorter escape [] = omega arith
  quoted_shorter escape (c ∷ s) = ground (arith, quoted_shorter (c == 92 && not escape) s)

  plain_shorter : (s : Text) → length (plain boost s).1 ≤ length s
  unfolding plain
  plain_shorter s = elim (Option-cases (find s (codes ";"))) [
    | inl e ↦ rw (e, plain) (omega arith)
    | inr (i, e) ↦ rw (e, plain) (omega (arith, length-drop i s))
  ]

  value_at_shorter : (s : Text) → length (value_at boost s).1 ≤ length s
  unfolding value_at
  value_at_shorter [] = plain_shorter []
  value_at_shorter (c ∷ s) = elim (Bool-cases (c == 34)) [
    | inl e ↦
        rw (e, value_at) (omega (arith, length-drop 1 (quoted false s).1, quoted_shorter false s))
    | inr e ↦ rw (e, value_at) (plain_shorter (c ∷ s))
  ]

  skip_semicolon_shorter : (s : Text) → length (skip_semicolon s) ≤ length s
  unfolding skip_semicolon
  skip_semicolon_shorter [] = omega arith
  skip_semicolon_shorter (c ∷ s) = ground arith

  skip_spaces_shorter : (s : Text) → length (skip_spaces s) ≤ length s
  unfolding skip_spaces
  skip_spaces_shorter [] = omega arith
  skip_spaces_shorter (c ∷ s) = elim (Bool-cases (is_space c)) [
    | inl e ↦ rw (e, skip_spaces) (omega (arith, skip_spaces_shorter s))
    | inr e ↦ rw (e, skip_spaces) (omega arith)
  ]

  abbrev after_pair : ℕ → Text → Text
  after_pair eq s = skip_spaces (skip_semicolon (value_at boost (drop (eq + 1) s)).1)

  after_pair_shorter :
      (eq : ℕ) (s : Text) → find s (codes "=") ≡ some eq → length (after_pair eq s) < length s
  after_pair_shorter eq s e =
      let after = value_at boost (drop (eq + 1) s) in
      omega (
        arith,
        skip_spaces_shorter (skip_semicolon after.1),
        skip_semicolon_shorter after.1,
        value_at_shorter (drop (eq + 1) s),
        length-drop (eq + 1) s,
        find_bound s (codes "=") e,
      )

  parse_from_total :
      (fuel : ℕ) (s : Text)
      → length s < fuel
      → (pairs : List (Text × Text)) × (parse_from boost fuel s ≡ some pairs)
  unfolding parse_from
  parse_from_total zero s h = absurd (omega arith)
  parse_from_total (suc fuel) [] h = ([], refl)
  parse_from_total (suc fuel) (c ∷ s) h = elim (Option-cases (find (c ∷ s) (codes "="))) [
    | inl e ↦ ([], rw (e, parse_from) refl)
    | inr (eq, e) ↦
        let (pairs, q) =
          parse_from_total fuel (after_pair eq (c ∷ s))
            (omega (arith, after_pair_shorter eq (c ∷ s) e)) in
        (
          (boost.trim (take eq (c ∷ s)), (value_at boost (drop (eq + 1) (c ∷ s))).0) ∷ pairs,
          rw (e, q, parse_from) refl,
        )
  ]

  parse_total :
      (s : Text) → parse_from boost (suc (length s)) s ≡ some (parse_content_disposition boost s)
  unfolding parse_content_disposition
  parse_total s =
      let (pairs, q) = parse_from_total (suc (length s)) s (omega arith) in ground (arith, q)
