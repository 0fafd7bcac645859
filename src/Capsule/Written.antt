-- ===== src/Capsule/Written.antt =====
-- How the reader of a capsule takes apart what its writer put together: the length, the envelope, the payload.
use lvau.Base.{
  take_front, drop_front, ◌^◌, ◌<◌, ◌≡◌, refl, sym, ap, ◌∙◌, true, false, [], ◌∷◌, ◌++◌, length,
  take, is_empty, leb, ◌==◌, ==_iff, arith,
}
use lvau.Base.Bytes.{
  Bytes, to_le_bytes, from_le_bytes, from_le_bytes-to_le_bytes, length-to_le_bytes, bytes_eq_iff,
}
use lvau.Error.{ok}
use lvau.Envelope.{Envelope, validate}
use lvau.Reader.{Reader, content, IsSteady}
use lvau.Reader.Laws.{fill_lem}
use lvau.Capsule.{
  Backend, max_envelope_size, validate_envelope_resources, verify_aad_hash, compute_aad_hash,
  decode_any, decode_envelope_bytes, read_exact, read_envelope,
}

-- What a read of the first of two parts leaves.
pub record Split (xs ys : Bytes) (r : Reader) : Type 0 where
  pub left : Reader
  pub returned : read_exact (length xs) r ≡ ok (xs, left)
  pub rest : content left ≡ ys
  pub steady : IsSteady left

read_part : (xs ys : Bytes) (r : Reader) → IsSteady r → content r ≡ xs ++ ys → Split xs ys r
unfolding read_exact
read_part xs ys r st same =
    let f = fill_lem (length xs) r st in
    let first : take (length xs) (content r) ≡ xs = rw same (take_front xs ys) in
    record {
      left = f.left;
      returned = rw (f.returned, first, (==_iff (length xs) (length xs)).1 refl);
      rest = f.rest ∙ rw same (drop_front xs ys);
      steady = f.steady;
    }

-- An envelope's decoding, from its parts.
pub decode_from :
    (b : Backend) (bytes : Bytes) (e : Envelope) (hash : Bytes)
    → b.take_envelope bytes ≡ ok (e, [])
    → validate e ≡ ok tt
    → validate_envelope_resources e ≡ ok tt
    → compute_aad_hash b e ≡ ok hash
    → hash ≡ e.aad_hash
    → decode_envelope_bytes b bytes ≡ ok e
unfolding decode_envelope_bytes decode_any verify_aad_hash
decode_from b bytes e hash taken valid resources computed same =
    rw (taken, valid, resources, computed, (bytes_eq_iff hash e.aad_hash).1 same)

-- What reading an envelope gives.
pub record Opened (b : Backend) (e : Envelope) (rest : Bytes) (r : Reader) : Type 0 where
  pub left : Reader
  pub returned : read_envelope b r ≡ ok (e, left)
  pub rest_eq : content left ≡ rest
  pub steady : IsSteady left

pub read_written :
    (b : Backend) (e : Envelope) (encoded rest : Bytes) (r : Reader)
    → decode_envelope_bytes b encoded ≡ ok e
    → is_empty encoded ≡ false
    → leb (length encoded) max_envelope_size ≡ true
    → length encoded < 2 ^ 32
    → IsSteady r
    → content r ≡ to_le_bytes 4 (length encoded) ++ (encoded ++ rest)
    → Opened b e rest r
unfolding read_envelope
read_written b e encoded rest r decoded nonempty fits small st same =
    let four : length (to_le_bytes 4 (length encoded)) ≡ 4 =
      length-to_le_bytes 4 (length encoded) in
    let s = read_part (to_le_bytes 4 (length encoded)) (encoded ++ rest) r st same in
    let t = read_part encoded rest s.left s.steady s.rest in
    let start : read_exact 4 r ≡ ok (to_le_bytes 4 (length encoded), s.left) =
      ap (λ n. read_exact n r) (sym four) ∙ s.returned in
    let value : from_le_bytes (to_le_bytes 4 (length encoded)) ≡ length encoded =
      from_le_bytes-to_le_bytes 4 (length encoded) (omega arith) in
    let positive : (length encoded == 0) ≡ false = nonempty_length encoded nonempty in
    record {
      left = t.left;
      returned = rw (start, value, positive, fits, t.returned, decoded);
      rest_eq = t.rest;
      steady = t.steady;
    }
  where
    nonempty_length : (xs : Bytes) → is_empty xs ≡ false → (length xs == 0) ≡ false
    nonempty_length [] h = absurd (cc)
    nonempty_length (x ∷ xs) h = ground arith
