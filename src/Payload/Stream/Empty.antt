-- ===== src/Payload/Stream/Empty.antt =====
-- A v2 capsule of an empty file: one frame, which holds no bytes but the tags.
use lvau.Base.{
  ℕ, suc, ◌+◌, ◌-◌, ◌<◌, ◌≡◌, refl, sym, ap, ◌∙◌, true, false, ==_iff, leb, [], ◌∷◌, length,
  is_empty, append-nil, arith,
}
use lvau.Base.Bytes.{Bytes}
use lvau.Error.{Result, ok, CryptoError}
use lvau.Envelope.{current_version}
use lvau.Reader.{Reader, content, fill, IsSteady}
use lvau.Payload.{chunk_size, batch_chunks}
use lvau.Payload.Stream.{
  flatten, read_batch, each_chunk, Frames, read_frames, encrypt_loop, decrypt_loop, is_empty_frame,
}
use lvau.Payload.Stream.Frame.{fill_exact}
use lvau.Payload.Stream.Loop.{LoopRead}

not_empty : (e : Bytes) → 0 < length e → is_empty e ≡ false
not_empty [] h = absurd (omega arith)
not_empty (x ∷ e) h = refl

module _ (f g : ℕ → Bytes → Result Bytes CryptoError) (tag : ℕ) where
  pub encrypt_empty :
      (version fuel : ℕ) (r r' : Reader) (e : Bytes)
      → read_batch batch_chunks r ≡ ok ([], r')
      → leb current_version version ≡ true
      → f 0 [] ≡ ok e
      → encrypt_loop f version (suc fuel) 0 0 r ≡ ok (e, 0)
  unfolding encrypt_loop each_chunk flatten
  encrypt_empty version fuel r r' e read v2 enc =
      rw (read, v2, enc) (ap (λ o. ok (o, 0)) (append-nil e))

  one_frame :
      (s : Frames) (k : ℕ) (r : Reader) (e : Bytes) (left : Reader)
      → 0 < length e
      → leb current_version s.version ≡ true
      → s.plaintext_len ≡ 0
      → s.encrypted_size - chunk_size ≡ length e
      → fill (length e) r ≡ ok (e, left)
      → read_frames s (suc k) 0 0 0 r ≡ ok (e ∷ [], true, left)
  unfolding read_frames
  one_frame s k r e left pos v2 none size read =
      let empty : is_empty_frame s 0 0 ≡ true = ground arith in
      rw (empty, size, read, not_empty e pos, (==_iff (length e) (length e)).1 refl) (ground arith)

  pub decrypt_empty :
      (s : Frames) (fuel : ℕ) (r : Reader) (e : Bytes)
      → 0 < tag
      → s.encrypted_size ≡ chunk_size + tag
      → IsSteady r
      → content r ≡ e
      → length e ≡ tag
      → leb current_version s.version ≡ true
      → s.plaintext_len ≡ 0
      → g 0 e ≡ ok []
      → LoopRead f g tag s (suc (suc fuel)) false 0 0 r []
  unfolding decrypt_loop each_chunk flatten
  decrypt_empty s fuel r e pos size st same len v2 none dec =
      let t = fill_exact e [] r (length e) st (same ∙ sym (append-nil e)) refl in
      record {
        left = t.left;
        returned =
            rw (one_frame s 31 r e t.left (omega arith) v2 none (omega arith) t.returned, dec) refl;
        rest = t.rest;
        steady = t.steady;
      }
