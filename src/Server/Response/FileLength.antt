-- ===== src/Server/Response/FileLength.antt =====
-- `Content-Length` of an answer with a file (`response::set_file_content` of lib/server/response.cpp)
-- and the bytes that its body gives (lib/body/file_body.cpp).
use httplib.Base.{
  ℕ, suc, ◌+◌, ◌-◌, ◌^◌, ◌≤◌, ◌<◌, ◌≡◌, refl, ap, subst, ◌∙◌, true, Option, none, some, List, [],
  ◌∷◌, Text, length, take, drop, length-drop, eq_text, inl, inr, Bool-cases, Option-cases, arith,
}
use httplib.Util.Trim.{Trimming}
use httplib.Html.Ranges.{ℤ, size_of_int, Ranges, Parsed, failed, parsed, parse}
use httplib.Bodies.FileBody.{get}
use httplib.Bodies.FileBody.Reads.{drain, length-take}
use httplib.Bodies.FileBody.Ranges.{opened, asked, AsksWithin, get-asked}
use httplib.Server.Response.{Body, file_body, Calls, Format, reset_content, set_empty_content}
use httplib.Server.Response.Effects.{Message, replay}
use httplib.Server.Response.File.{
  FileState, Conditions, Texts, part_size, set_ranges, set_known_file, set_file_content, etag,
}

-- The ends of a range as the body holds them: the bits of an `int64_t`.
abbrev pub bits_of : Ranges → List (ℕ × ℕ)
bits_of [] = []
bits_of ((first, last) ∷ ranges) = (size_of_int first, size_of_int last) ∷ bits_of ranges

-- The ranges of a body, if it is one of a file.
abbrev pub ranges_of : {J : Type 0} → Body J → Option Ranges
ranges_of (file_body file) = some file.ranges
ranges_of content = none

-- Where an answer has a file, its length is that of the ranges.
abbrev Announces : ℕ → Option Ranges → Option ℕ → Type 0
Announces size none n = Unit
Announces size (some []) n = n ≡ some size
Announces size (some ((first, last) ∷ [])) n = n ≡ some (part_size first last)
Announces size (some (r ∷ q ∷ ranges)) n = Unit

abbrev MessageAnnounces : {J : Type 0} → ℕ → Message J → Type 0
MessageAnnounces size m = Announces size (ranges_of m.content) m.length

module _ {J : Type 0} (format : Format) (texts : Texts) (boost : Trimming) (file : FileState)
    (c : Conditions) where
  set_ranges-announces :
      (m : Message J) (size : ℕ) (ranges : Ranges)
      → MessageAnnounces size (replay m (set_ranges format texts file size ranges))
  unfolding set_ranges
  set_ranges-announces m size [] = refl
  set_ranges-announces m size ((first, last) ∷ []) = refl
  set_ranges-announces m size (r ∷ q ∷ ranges) = tt

  known-announces :
      (m : Message J) (size time : ℕ) (p : Parsed)
      → ranges_of m.content ≡ none
      → MessageAnnounces size (replay m (set_known_file format texts file c size time p))
  unfolding set_known_file set_empty_content reset_content
  known-announces m size time failed e = tt
  known-announces m size time (parsed ranges) e =
      elim (Bool-cases (eq_text c.if_none_match (etag format texts size time))) [
        | inl f ↦ rw f tt
        | inr f ↦ elim (Bool-cases (eq_text c.if_modified_since (texts.gmt_date time))) [
          | inl g ↦ rw (f, g) tt
          | inr g ↦ elim (Bool-cases file.is_open) [
            | inl o ↦ rw (f, g, o) (set_ranges-announces m size ranges)
            | inr o ↦ rw (f, g, o, e) tt
          ]
        ]
      ]

  abbrev CallsAnnounce : ℕ → Message J → Option (Calls J) → Type 0
  CallsAnnounce size m none = Unit
  CallsAnnounce size m (some calls) = MessageAnnounces size (replay m calls)

  content-announces :
      (m : Message J) (size : ℕ)
      → file.file_size ≡ some size
      → CallsAnnounce size m (set_file_content format texts boost file c)
  unfolding set_file_content reset_content
  content-announces m size e = elim (Option-cases file.write_time) [
    | inl f ↦ rw (e, f) tt
    | inr (time, f) ↦ elim (Option-cases (parse boost c.range size)) [
      | inl g ↦ rw (e, f, g) tt
      | inr (p, g) ↦ rw (e, f, g) (known-announces _ size time p refl)
    ]
  ]

length-part :
    (first last : ℤ) (contents : Text)
    → length contents < 2 ^ 63
    → size_of_int first ≤ size_of_int last
    → size_of_int last < length contents
    → part_size first last
      ≡ length (take (size_of_int last + 1 - size_of_int first) (drop (size_of_int first) contents))
unfolding part_size
length-part first last contents small h k =
    let rest = length-drop (size_of_int first) contents in
    omega (
      arith,
      small,
      h,
      k,
      length-take (size_of_int last + 1 - size_of_int first) (drop (size_of_int first) contents)
          (omega (arith, rest, h, k)),
    )

announced-asked :
    (ranges : Ranges) (contents : Text) (n : Option ℕ)
    → length contents < 2 ^ 63
    → AsksWithin (bits_of ranges) (length contents)
    → Announces (length contents) (some ranges) n
    → n ≡ some (length (asked (bits_of ranges) contents))
announced-asked [] contents n small h e = e
announced-asked ((first, last) ∷ []) contents n small h e =
    e ∙ ap some (length-part first last contents small h.0 h.1)
announced-asked (r ∷ q ∷ ranges) contents n small h e = absurd h

module _ {J : Type 0} (format : Format) (texts : Texts) (boost : Trimming) (file : FileState)
    (c : Conditions) where
  -- Whenever `set_file_content` leaves a message with a file of less than 2^63 bytes that is sent whole,
  -- or of which one range is sent that lies in it, `Content-Length` is exactly the number of bytes
  -- that the calls of `get` then give for this body, and they end without an error, as long as the
  -- file has the size it had and the buffer is not empty.
  pub content_length-sent :
      (m : Message J) (calls : Calls J) (ranges : Ranges) (contents : Text) (decimal : ℕ → Text)
      (buffer : ℕ) (content_type boundary : Text) (junk : ℕ)
      → 0 < buffer
      → length contents < 2 ^ 63
      → file.file_size ≡ some (length contents)
      → set_file_content format texts boost file c ≡ some calls
      → ranges_of (replay m calls).content ≡ some ranges
      → AsksWithin (bits_of ranges) (length contents)
      → (sent : Text) × (drain
            (get decimal buffer)
            (suc (length contents))
            (opened (bits_of ranges) content_type boundary contents junk)
          ≡ some (sent, true))
        × ((replay m calls).length ≡ some (length sent))
  content_length-sent m calls ranges contents decimal buffer content_type boundary junk room small
        known made has_file within =
      let announces : MessageAnnounces (length contents) (replay m calls) =
        subst (CallsAnnounce format texts boost file c (length contents) m) made
          (content-announces format texts boost file c m (length contents) known) in
      (
        asked (bits_of ranges) contents,
        (get-asked decimal buffer (bits_of ranges) content_type boundary contents junk room
            (omega (arith, small)) within).0,
        announced-asked ranges contents (replay m calls).length small within
            (subst (λ o. Announces (length contents) o (replay m calls).length) has_file announces),
      )
