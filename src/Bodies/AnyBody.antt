-- ===== src/Bodies/AnyBody.antt =====
-- `any_body` of lib/body/any_body.cpp and the compressors of lib/body/compressor.cpp. The filters of
-- boost::iostreams are a parameter (`Filter`), and so are the reader and the writer behind the body.
pub mod Coded
use httplib.Base.{
  ℕ, zero, suc, Bool, true, false, not, ◌&&◌, Option, none, some, List, [], ◌∷◌, ◌++◌, Text, codes,
  drop, length, null, eq_text, starts_with, if◌then◌else◌, map,
}

-- A filter: what it passes on of the bytes that are written, and what is left when it is closed.
pub record Filter : Type 1 where
  pub State : Type 0
  pub write : State → Text → State × Text
  pub close : State → State × Text

-- `basic_compressor`: the filter that ends in the buffer.
pub record Compressor (F : Filter) : Type 0 where
  pub stream : F.State
  pub buffer : Text

module _ {F : Filter} where
  unfoldable pub finish_coded : Compressor F → Compressor F
  finish_coded c =
      let (stream, bytes) = F.close c.stream in
      record { stream = stream; buffer = c.buffer ++ bytes }

  unfoldable pub write_coded : Compressor F → Text → Bool → Compressor F
  unfolding finish_coded
  write_coded c bytes more =
      let (stream, passed) = F.write c.stream bytes in
      let written : Compressor F = record { stream = stream; buffer = c.buffer ++ passed } in
      if not more then finish_coded written else written

  unfoldable consume_all : Compressor F → Compressor F
  consume_all c = record { stream = c.stream; buffer = [] }

  unfoldable consume : ℕ → Compressor F → Compressor F
  consume n c = record { stream = c.stream; buffer = drop n c.buffer }

-- `compressor_factory`: the map from encodings to the functions that make a compressor.
module _ {A : Type 0} where
  unfoldable create : Text → List (Text × A) → Option A
  create encoding [] = none
  create encoding ((name, make) ∷ creators) =
      let rest = create encoding creators in if eq_text name encoding then some make else rest

  unfoldable register_compressor : Text → A → List (Text × A) → List (Text × A)
  register_compressor encoding make [] = (encoding, make) ∷ []
  register_compressor encoding make ((name, old) ∷ creators) =
      let rest = register_compressor encoding make creators in
      if eq_text name encoding then (name, make) ∷ creators else (name, old) ∷ rest

  unfoldable is_supported_encoding : Text → List (Text × A) → Bool
  unfolding create
  is_supported_encoding encoding creators = elim (create encoding creators) [
    | none ↦ false
    | some make ↦ true
  ]

  unfoldable supported_encoding : List (Text × A) → List Text
  supported_encoding [] = []
  supported_encoding ((name, make) ∷ creators) = name ∷ supported_encoding creators

data Kind : Type 0 where
  form_data_body json_body query_params_body string_body : Kind

-- The body that `reader::init` chooses by the content type.
unfoldable kind_of : Text → Kind
unfolding starts_with
kind_of content_type =
    if starts_with content_type (codes "multipart/form-data")
    then form_data_body
    else if starts_with content_type (codes "application/json")
    then json_body
    else if starts_with content_type (codes "application/x-www-form-urlencoded")
    then query_params_body
    else string_body

-- A reader behind the body; the number is how many bytes it takes, and `finish` sets the error anew.
pub record ProxyReader (E : Type 0) : Type 1 where
  pub State : Type 0
  pub put : State → Text → State × ℕ × Option E
  pub finish : State → Option E

module _ {E : Type 0} (F : Filter) (proxy : ProxyReader E) where
  abbrev Reading : Type 0
  Reading = proxy.State × Option (Compressor F)

  -- The decoded bytes, should there be any, go to the reader in one call.
  unfoldable pub put_decoded : proxy.State → Compressor F → proxy.State × Compressor F × Option E
  unfolding consume
  put_decoded r c =
      let (next, taken, error) = proxy.put r c.buffer in
      if null c.buffer then (r, c, none) else (next, consume taken c, error)

  -- `put`: the state, the number of bytes taken and the error.
  unfoldable pub put : Reading → Text → Reading × ℕ × Option E
  unfolding put_decoded write_coded
  put (r, none) bytes = let (next, taken, error) = proxy.put r bytes in ((next, none), taken, error)
  put (r, some c) bytes =
      let (next, left, error) = put_decoded r (write_coded c bytes true) in
      ((next, some left), length bytes, error)

  -- `finish`: an error of its `put` is cleared by that of the reader behind it.
  unfoldable pub finish : Reading → proxy.State × Option E
  unfolding put_decoded finish_coded
  finish (r, none) = (r, proxy.finish r)
  finish (r, some c) =
      let (next, left, error) = put_decoded r (finish_coded c) in (next, proxy.finish next)

-- A writer behind the body: what `get` returns, where a Boolean says whether there is more.
record ProxyWriter (E : Type 0) : Type 1 where
  pub State : Type 0
  pub get : State → State × Option (Text × Bool) × Option E

module _ {E : Type 0} {F : Filter} (proxy : ProxyWriter E) where
  -- The loop of `get`, on fuel: it ends with bytes, without any, or with an error. `none` means that
  -- the fuel ran out.
  unfoldable get_coded :
      ℕ
      → proxy.State
      → Compressor F
      → Option (proxy.State × Compressor F × Option (Text × Bool) × Option E)
  unfolding write_coded
  get_coded zero w c = none
  get_coded (suc fuel) w c =
      let (next, got, error) = proxy.get w in
      elim got [
        | none ↦ some (next, c, none, error)
        | some (bytes, more) ↦ elim error [
          | some e ↦ some (next, c, some (bytes, more), some e)
          | none ↦
              let written = write_coded c bytes more in
              let rest = get_coded fuel next written in
              if null written.buffer
              then rest
              else some (next, written, some (written.buffer, more), none)
        ]
      ]

  unfoldable get :
      ℕ
      → proxy.State
      → Option (Compressor F)
      → Option (proxy.State × Option (Compressor F) × Option (Text × Bool) × Option E)
  unfolding get_coded consume_all
  get fuel w none = let (next, got, error) = proxy.get w in some (next, none, got, error)
  get fuel w (some c) = elim (get_coded fuel w (consume_all c)) [
    | none ↦ none
    | some (next, d, got, error) ↦ some (next, some d, got, error)
  ]
