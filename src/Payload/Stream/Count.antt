-- ===== src/Payload/Stream/Count.antt =====
-- A payload that is decrypted has the length that the envelope promised.
use lvau.Base.{
  ℕ, zero, suc, ◌+◌, ◌^◌, ◌≡◌, sym, ap, ◌∙◌, Bool, ltb, true, false, Option, [], ◌++◌, length,
  length-append, is_empty, ◌==◌, ==_iff, if◌then◌else◌, arith,
}
use lvau.Base.Bytes.{Bytes}
use lvau.Error.{
  Result, ok, stuck, require, >>=-eq-ok, require-eq-ok, CryptoError, decryption_failed,
}
use lvau.Envelope.{AlgorithmId}
use lvau.Primitives.{Primitives, Hkdf}
use lvau.Framing.{checked_add}
use lvau.Reader.{Reader, content, fill}
use lvau.Payload.{batch_chunks, get_encrypted_chunk_size, overflow, derive_keys, decrypt_chunk}
use lvau.Payload.Stream.{
  flatten, each_chunk, add_u64, Frames, read_frames, decrypt_loop, stream_decrypt_payload,
}

abbrev Counts : ℕ → Result (Bytes × ℕ × Reader) CryptoError → Type 0
Counts total run =
    (out : Bytes) (n : ℕ) (left : Reader) → run ≡ ok (out, n, left) → n ≡ total + length out

stopped : (total : ℕ) (r : Reader) → Counts total (ok ([], total, r))
stopped total r out n left h =
    let none_left : [] ≡ out = cc in
    let same : total ≡ n = cc in omega (arith, ap length none_left, same)

add_u64-eq-ok : (a b c : ℕ) → add_u64 a b ≡ ok c → c ≡ a + b
add_u64-eq-ok a b c h = branch (ltb (a + b) (2 ^ 64)) (a + b) h
  where
    branch :
        (fits : Bool) (sum : ℕ)
        → ◌≡◌ {A = Result ℕ CryptoError} (if fits then ok sum else stuck) (ok c)
        → c ≡ sum
    branch true sum k = cc
    branch false sum k = absurd (cc)

either-Counts :
    (total : ℕ) (b : Bool) (x y : Result (Bytes × ℕ × Reader) CryptoError)
    → Counts total x
    → Counts total y
    → Counts total (if b then x else y)
either-Counts total true x y hx hy = hx
either-Counts total false x y hx hy = hy

joined :
    (total n n' : ℕ) (a b out : Bytes) (r r' : Reader)
    → n' ≡ total + length a + length b
    → ◌≡◌ {A = Result (Bytes × ℕ × Reader) CryptoError} (ok (a ++ b, n', r')) (ok (out, n, r))
    → n ≡ total + length out
joined total n n' a b out r r' h e =
    let whole : a ++ b ≡ out = cc in
    let same : n' ≡ n = cc in
    let size : length out ≡ length a + length b = ap length (sym whole) ∙ length-append {0} a b in
    omega (arith, size, same, h)

decrypt_loop-Counts :
    (f : ℕ → Bytes → Result Bytes CryptoError) (s : Frames) (fuel : ℕ) (eof : Bool)
    (total index : ℕ) (r : Reader)
    → Counts total (decrypt_loop f s fuel eof total index r)
unfolding decrypt_loop
decrypt_loop-Counts f s zero eof total index r out n left h = absurd (cc)
decrypt_loop-Counts f s (suc fuel) true total index r out n left h = stopped total r out n left h
decrypt_loop-Counts f s (suc fuel) false total index r out n left h =
    let ((batch, eof, r'), read, h1) = >>=-eq-ok (read_frames s batch_chunks total index 0 r) _ h in
    either-Counts total (is_empty batch) _ _ (stopped total r')
      (λ out' n' left' h2.
        let (outs, each, h3) = >>=-eq-ok (each_chunk f index batch) _ h2 in
        let (total', added, h3') = >>=-eq-ok (add_u64 total (length (flatten outs))) _ h3 in
        let (next, checked, h4) = >>=-eq-ok (checked_add index (length batch) overflow) _ h3' in
        let ((b, n'', r''), more, h5) = >>=-eq-ok (decrypt_loop f s fuel eof total' next r') _ h4 in
        let later = decrypt_loop-Counts f s fuel eof total' next r' b n'' r'' more in
        joined total n' n'' (flatten outs) b out' left' r''
          (later
            ∙ ap (λ t. t + length b) (add_u64-eq-ok total (length (flatten outs)) total' added))
          h5)
      out n left h1

-- A payload that the decryption stream accepts has as many bytes as the envelope's plaintext length,
-- whatever the algorithm, the keys and the input are.
pub stream_decrypt_payload-length :
    (p : Primitives) (a : AlgorithmId) (version : ℕ) (hk : Hkdf) (base : Bytes)
    (second : Option Bytes) (hash : Bytes) (n : ℕ) (r : Reader) (out : Bytes)
    → stream_decrypt_payload p a version hk base second hash n r ≡ ok out
    → n ≡ length out
unfolding stream_decrypt_payload
stream_decrypt_payload-length p a version hk base second hash n r out h =
    let (keys, derived, h1) = >>=-eq-ok (derive_keys p a hk) _ h in
    let s : Frames = record {
      version = version;
      plaintext_len = n;
      encrypted_size = get_encrypted_chunk_size a;
    } in
    let ((got, total, r'), loop, h2) =
      >>=-eq-ok
        (decrypt_loop (decrypt_chunk p a keys base second hash) s (length (content r) + 2) false 0 0
          r)
        _ h1 in
    let (_, counted, h3) = >>=-eq-ok (require (total == n) decryption_failed) _ h2 in
    let ((trailing, r''), last, h4) = >>=-eq-ok (fill 1 r') _ h3 in
    let (_, ended, h5) = >>=-eq-ok (require (is_empty trailing) decryption_failed) _ h4 in
    let same : got ≡ out = cc in
    let count =
      decrypt_loop-Counts (decrypt_chunk p a keys base second hash) s (length (content r) + 2) false
        0 0 r got total r' loop in
    omega (arith, count, ap length same, (==_iff total n).0 (require-eq-ok _ _ counted))
