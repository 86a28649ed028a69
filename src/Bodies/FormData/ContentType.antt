-- ===== src/Bodies/FormData/ContentType.antt =====
-- The boundary in the content type of a form: what the reader's `init` finds there.
use httplib.Base.{
  ℕ, zero, suc, ◌+◌, ◌-◌, ◌≤◌, ◌<◌, ◌≡◌, ◌≢◌, ◌⊎◌, refl, sym, ap, ◌∙◌, subst, Bool, true, false,
  Option, none, some, List, [], ◌∷◌, ◌++◌, map, inl, inr, arith, if◌then◌else◌, null, Text, codes,
  length, take, drop, All, Lacks, Lacks-lacks, Lacks-append, length-drop, take_all,
}
use httplib.Util.Trim.{Trimming, StartsClean, EndsClean, trim_id, trim_after_space}
use httplib.Util.Split.{split}
use httplib.Util.Split.Pieces.{pieces, pieces-Lacks, pieces-append}
use httplib.Util.Split.Laws.{split-pieces}
use httplib.Bodies.FormData.{FormData}
use httplib.Bodies.FormData.Reader.{
  Reader, Error, reader, boundary_of, init, second_part, bad_field, boundary_line, no_field,
}
use httplib.Bodies.FormData.Reader.HeaderLines.{EndsClean-behind}

-- A boundary that can be read back from the content type.
pub record IsBoundary (b : Text) : Type 0 where
  pub some_byte : b ≢ []
  pub no_semicolon : Lacks 59 b
  pub no_equals : Lacks 61 b
  pub starts_clean : StartsClean b
  pub ends_clean : EndsClean b

-- The content type of a form, as lib/server/response.cpp sets it.
abbrev pub content_type_of : Text → Text
content_type_of boundary = codes "multipart/form-data; boundary=" ++ boundary

abbrev boundary_part : Text → Text
boundary_part b = codes "boundary=" ++ b

-- A reader for a form with the boundary `b`, which has set its own to `found`.
abbrev holding : Text → FormData → Text → Reader
holding b form found = record {
  body = form;
  content_type = content_type_of b;
  boundary = found;
  step = boundary_line;
  field_data = no_field;
}

abbrev pub started : Text → FormData → Reader
started b form = holding b form b

module _ (boost : Trimming) where
  EndsClean-boundary : (p b : Text) → b ≢ [] → EndsClean b → EndsClean (p ++ b)
  EndsClean-boundary p [] h k = absurd (h refl)
  EndsClean-boundary p (x ∷ b) h k = EndsClean-behind p x b k

  split_content_type :
      (b : Text)
      → IsBoundary b
      → split boost (content_type_of b) (codes ";")
        ≡ codes "multipart/form-data" ∷ boundary_part b ∷ []
  split_content_type b h =
      split-pieces boost 59 (content_type_of b) (λ e. cc)
      ∙ ap (map boost.trim) (
          pieces-append 59 (codes "multipart/form-data") (32 ∷ boundary_part b)
            (Lacks-lacks 59 (codes "multipart/form-data") refl)
          ∙ ap (λ ps. codes "multipart/form-data" ∷ ps)
              (pieces-Lacks 59 (32 ∷ boundary_part b) (
                Lacks-append 59 (codes " boundary=") b (Lacks-lacks 59 (codes " boundary=") refl)
                  h.no_semicolon)))
      ∙ rw
          (
            trim_id boost (codes "multipart/form-data") refl refl,
            trim_after_space boost (boundary_part b) refl
                (EndsClean-boundary (codes "boundary=") b h.some_byte h.ends_clean),
          )
          refl

  split_boundary :
      (b : Text)
      → IsBoundary b
      → split boost (boundary_part b) (codes "=") ≡ codes "boundary" ∷ b ∷ []
  split_boundary b h =
      split-pieces boost 61 (boundary_part b) (λ e. cc)
      ∙ ap (map boost.trim) (
          pieces-append 61 (codes "boundary") b (Lacks-lacks 61 (codes "boundary") refl)
          ∙ ap (λ ps. codes "boundary" ∷ ps) (last_piece b h.some_byte h.no_equals))
      ∙ rw (trim_id boost (codes "boundary") refl refl, trim_id boost b h.starts_clean h.ends_clean)
          refl
    where
      last_piece : (b : Text) → b ≢ [] → Lacks 61 b → (if null b then [] else pieces 61 b) ≡ b ∷ []
      last_piece [] h k = absurd (h refl)
      last_piece (x ∷ b) h k = pieces-Lacks 61 (x ∷ b) k

  boundary_found :
      (b : Text)
      → IsBoundary b
      → boundary_of boost (codes "multipart/form-data" ∷ boundary_part b ∷ []) [] ≡ b
  unfolding boundary_of second_part httplib.Base.starts_with
  boundary_found b h =
      rw
        (
          trim_id boost (codes "multipart/form-data") refl refl,
          trim_id boost (boundary_part b) refl
              (EndsClean-boundary (codes "boundary=") b h.some_byte h.ends_clean),
          split_boundary b h,
        )
        (trim_id boost b h.starts_clean h.ends_clean)

  abbrev with_boundary : Text → FormData → Text → Reader × Option Error
  with_boundary b form found = (holding b form found, if null found then some bad_field else none)

  abbrev settled : Text → FormData → Text → Reader × Option Error
  settled b form found = (holding b form found, none)

  -- A reader on the content type that a form with this boundary is sent with has the boundary
  -- after `init`, which sets no error.
  pub init-content_type :
      (b : Text) (form : FormData)
      → IsBoundary b
      → init boost (reader (content_type_of b) form) ≡ (started b form, none)
  unfolding init reader
  init-content_type b form h =
      ap (λ parts. with_boundary b form (boundary_of boost parts [])) (split_content_type b h)
      ∙ ap (with_boundary b form) (boundary_found b h)
      ∙ no_error b h.some_byte
    where
      no_error : (c : Text) → c ≢ [] → with_boundary b form c ≡ settled b form c
      no_error [] k = absurd (k refl)
      no_error (x ∷ c) k = refl
