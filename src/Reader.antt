-- ===== src/Reader.antt =====
-- `std::io::Read` as the stream code uses it: the bytes arrive in pieces of any size, an empty piece
-- is read as the end of the file, and a read may fail.
pub mod Laws
use lvau.Base.{
  ℕ, suc, ◌+◌, ◌-◌, ◌<◌, Bool, List, [], ◌∷◌, ◌++◌, length, take, drop, is_empty, leb, ◌==◌,
  if◌then◌else◌,
}
use lvau.Base.Bytes.{Bytes}
use lvau.Error.{Result, ok, err, ◌>>=◌, IoErrorKind, CryptoError, io}

pub data Event : Type 0 where
  piece : Bytes → Event
  fault : IoErrorKind → Event

abbrev pub Reader : Type 0
Reader = List Event

-- All that the pieces hold.
unfoldable pub content : Reader → Bytes
content [] = []
content (piece p ∷ r) = p ++ content r
content (fault e ∷ r) = content r

abbrev prepend : Bytes → Result (Bytes × Reader) CryptoError → Result (Bytes × Reader) CryptoError
prepend p rest = rest >>= λ f. ok (p ++ f.0, f.1)

-- `while chunk_len < size { let n = reader.read(&mut chunk[chunk_len..])?; if n == 0 { break } … }`
-- A read takes the next piece, or as much of it as there is room for.
unfoldable pub fill : ℕ → Reader → Result (Bytes × Reader) CryptoError
fill room [] = ok ([], [])
fill room (fault e ∷ r) = if room == 0 then ok ([], fault e ∷ r) else err (io e)
fill room (piece p ∷ r) =
    if room == 0
    then ok ([], piece p ∷ r)
    else if is_empty p
    then ok ([], r)
    else if leb (length p) room
    then prepend p (fill (room - length p) r)
    else ok (take room p, piece (drop room p) ∷ r)

-- No read fails, and none returns nothing before the end.
abbrev pub IsSteady : Reader → Type 0
IsSteady [] = Unit
IsSteady (piece p ∷ r) = (0 < length p) × IsSteady r
IsSteady (fault e ∷ r) = ⊥
