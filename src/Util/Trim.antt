-- ===== src/Util/Trim.antt =====
-- What the code relies on of `boost::algorithm::trim_copy` (third party): its documented effect is
-- to remove all leading and trailing spaces, as `std::isspace` tells them in the classic locale.
use httplib.Base.{
  ℕ, ◌≡◌, refl, sym, ap, subst, ◌∙◌, Bool, true, false, ◌&&◌, ◌||◌, [], ◌∷◌, ◌++◌, append-nil, leb,
  ◌==◌, Text, All, drop,
}

-- Space, tab, line feed, vertical tab, form feed and carriage return.
abbrev pub is_space : ℕ → Bool
is_space c = c == 32 || (leb 9 c && leb c 13)

abbrev pub IsSpace : ℕ → Type 0
IsSpace c = is_space c ≡ true

abbrev pub StartsClean : Text → Type 0
StartsClean [] = Unit
StartsClean (c ∷ s) = is_space c ≡ false

abbrev pub EndsClean : Text → Type 0
EndsClean [] = Unit
EndsClean (c ∷ []) = is_space c ≡ false
EndsClean (c ∷ d ∷ s) = EndsClean (d ∷ s)

pub record Trimming : Type 0 where
  pub trim : Text → Text
  pub before : Text → Text
  pub after : Text → Text
  pub splits : (s : Text) → before s ++ (trim s ++ after s) ≡ s
  pub before_spaces : (s : Text) → All IsSpace (before s)
  pub after_spaces : (s : Text) → All IsSpace (after s)
  pub trim_starts : (s : Text) → StartsClean (trim s)
  pub trim_ends : (s : Text) → EndsClean (trim s)

not-EndsClean_of_spaces :
    (xs : Text) (y : ℕ) (ys : Text) → EndsClean (xs ++ y ∷ ys) → All IsSpace (y ∷ ys) → ⊥
not-EndsClean_of_spaces [] y [] h (p, _) = cc
not-EndsClean_of_spaces [] y (z ∷ ys) h (p, q) = not-EndsClean_of_spaces [] z ys h q
not-EndsClean_of_spaces (x ∷ []) y ys h p = not-EndsClean_of_spaces [] y ys h p
not-EndsClean_of_spaces (x ∷ w ∷ xs) y ys h p = not-EndsClean_of_spaces (w ∷ xs) y ys h p

-- A text that neither starts nor ends with a space is the only way to split it into spaces, a
-- middle and spaces.
middle_of_clean :
    (b m a s : Text)
    → b ++ (m ++ a) ≡ s
    → All IsSpace b
    → All IsSpace a
    → StartsClean s
    → EndsClean s
    → m ≡ s
middle_of_clean (x ∷ b) m a s e (p, _) q h k = absurd (false_of (subst StartsClean (sym e) h) p)
  where
    false_of : is_space x ≡ false → is_space x ≡ true → ⊥
    false_of f t = cc
middle_of_clean [] m [] s e p q h k = sym (append-nil m) ∙ e
middle_of_clean [] m (y ∷ a) s e p q h k =
    absurd (not-EndsClean_of_spaces m y a (subst EndsClean (sym e) k) q)

-- Trimming leaves a text alone that has no space at its ends.
pub trim_id : (boost : Trimming) (s : Text) → StartsClean s → EndsClean s → boost.trim s ≡ s
trim_id boost s h k =
    middle_of_clean (boost.before s) (boost.trim s) (boost.after s) s (boost.splits s)
      (boost.before_spaces s) (boost.after_spaces s) h k

pub All-StartsClean : (s : Text) → All (λ c. is_space c ≡ false) s → StartsClean s
All-StartsClean [] h = tt
All-StartsClean (c ∷ s) h = h.0

pub All-EndsClean : (s : Text) → All (λ c. is_space c ≡ false) s → EndsClean s
All-EndsClean [] h = tt
All-EndsClean (c ∷ []) h = h.0
All-EndsClean (c ∷ d ∷ s) h = All-EndsClean (d ∷ s) h.1

pub trim-nil : (boost : Trimming) → boost.trim [] ≡ []
trim-nil boost = trim_id boost [] tt tt

-- One space before a text without spaces at its ends is trimmed away.
pub trim_after_space :
    (boost : Trimming) (s : Text) → StartsClean s → EndsClean s → boost.trim (32 ∷ s) ≡ s
trim_after_space boost s h k =
    split_at (boost.before (32 ∷ s)) (boost.trim (32 ∷ s)) (boost.after (32 ∷ s))
      (boost.splits (32 ∷ s)) (boost.before_spaces (32 ∷ s)) (boost.after_spaces (32 ∷ s))
      (boost.trim_starts (32 ∷ s))
  where
    only_spaces : (t : Text) → StartsClean t → All IsSpace t → [] ≡ t
    only_spaces [] c p = refl
    only_spaces (x ∷ t) c (p, _) = cc

    not_space : is_space 32 ≡ false → ⊥
    not_space f = cc

    split_at :
        (b m a : Text)
        → b ++ (m ++ a) ≡ 32 ∷ s
        → All IsSpace b
        → All IsSpace a
        → StartsClean m
        → m ≡ s
    split_at (x ∷ b) m a e (_, p) q c = middle_of_clean b m a s (ap (drop 1) e) p q h k
    split_at [] (x ∷ m) a e p q c = absurd (not_space (subst StartsClean e c))
    split_at [] [] a e p q c = only_spaces s h (subst (All IsSpace) e q).1

pub EndsClean-append : (s : Text) (c : ℕ) → is_space c ≡ false → EndsClean (s ++ c ∷ [])
EndsClean-append [] c h = h
EndsClean-append (x ∷ []) c h = h
EndsClean-append (x ∷ y ∷ s) c h = EndsClean-append (y ∷ s) c h
