-- ===== src/Util/Url/Reference.antt =====
-- A reference for URL decoding, by one pass over the text.
use Prim.Native.Nat.{bit_or}
use httplib.Base.{ℕ, ◌*◌, ◌%◌, Option, none, some, [], ◌∷◌, ◌==◌, if◌then◌else◌, ◌>>=◌, Text}
use httplib.Util.Url.{hex2dec}

abbrev pub unescape : ℕ → ℕ → ℕ
unescape high low = bit_or (hex2dec high * 16 % 256) (hex2dec low)

-- A `%` before one byte takes the terminating null for its second digit; before none it reads out
-- of bounds.
unfoldable pub decoded : Text → Option Text
decoded [] = some []
decoded (c ∷ []) = if c == b'%' then none else some (c ∷ [])
decoded (c ∷ h ∷ []) =
    let rest = decoded (h ∷ []) in
    if c == b'%' then some (unescape h 0 ∷ []) else (rest >>= λ t. some (c ∷ t))
decoded (c ∷ h ∷ l ∷ s) =
    let rest = decoded (h ∷ l ∷ s) in
    let behind = decoded s in
    if c == b'%' then (behind >>= λ t. some (unescape h l ∷ t)) else (rest >>= λ t. some (c ∷ t))
