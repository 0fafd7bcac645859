-- ===== src/Payload/Stream/Frame.antt =====
-- Reading back the frames of a batch.
use lvau.Base.{
  ℕ, zero, suc, ◌+◌, ◌-◌, ◌*◌, ◌^◌, ◌≤◌, ◌<◌, ◌≡◌, refl, ap, ◌∙◌, Bool, true, false, ltb, lt→ltb,
  List, [], ◌∷◌, ◌++◌, length, take, drop, arith, length-take, length-drop, append_assoc,
}
use lvau.Base.Bytes.{Bytes}
use lvau.Error.{Result, ok, CryptoError}
use lvau.Reader.{Reader, content, fill, IsSteady}
use lvau.Reader.Laws.{fill_lem}
use lvau.Payload.{chunk_size}
use lvau.Payload.Stream.{flatten, Frames, read_frames, is_empty_frame, expected_read_size}
use lvau.Payload.Stream.Read.{chunks, chunks_full, chunks_short, chunks_none, chunks_zero, Framed}
use native.Mathlib.Decide.{dec_lt}

-- Reading exactly the first part of the content.
pub record Taken (e : Bytes) (tail : Bytes) (r : Reader) (size : ℕ) : Type 0 where
  pub left : Reader
  pub returned : fill size r ≡ ok (e, left)
  pub rest : content left ≡ tail
  pub steady : IsSteady left

take_all : (e tail : Bytes) → take (length e) (e ++ tail) ≡ e
take_all [] tail = refl
take_all (x ∷ e) tail = ap (λ t. x ∷ t) (take_all e tail)

drop_all : (e tail : Bytes) → drop (length e) (e ++ tail) ≡ tail
drop_all [] tail = refl
drop_all (x ∷ e) tail = drop_all e tail

pub fill_exact :
    (e tail : Bytes) (r : Reader) (size : ℕ)
    → IsSteady r
    → content r ≡ e ++ tail
    → size ≡ length e
    → Taken e tail r size
fill_exact e tail r size st same len =
    let f = fill_lem size r st in
    record {
      left = f.left;
      returned = f.returned ∙ ap (λ t. ok (t, f.left)) (rw (same, len) (take_all e tail));
      rest = f.rest ∙ rw (same, len) (drop_all e tail);
      steady = f.steady;
    }

-- What `read_frames` gives: the frames, the flag, and a reader at what follows them.
pub record FramesRead (s : Frames) (k total index count : ℕ) (r : Reader) (es : List Bytes)
    (last : Bool) (tail : Bytes) : Type 0 where
  pub left : Reader
  pub returned : read_frames s k total index count r ≡ ok (es, last, left)
  pub rest : content left ≡ tail
  pub steady : IsSteady left

not_first : (s : Frames) (index count : ℕ) → is_empty_frame s index (count + 1) ≡ false
not_first s index count = ground arith

flag_shift :
    (n d k : ℕ)
    → chunk_size ≤ n
    → d ≡ n - chunk_size
    → ltb n (suc k * chunk_size) ≡ ltb d (k * chunk_size)
flag_shift n d k above e = ground arith

module _ (f g : ℕ → Bytes → Result Bytes CryptoError) (tag : ℕ) (s : Frames) (positive : 0 < tag)
    (size : s.encrypted_size ≡ chunk_size + tag) (bound : s.plaintext_len < 2 ^ 64) where
  -- The three kinds of round: nothing is left, the last chunk is short, the chunk is full.
  frames_none :
      (k total index count : ℕ) (r : Reader) (tail : Bytes)
      → IsSteady r
      → content r ≡ tail
      → total + count * chunk_size ≡ s.plaintext_len
      → is_empty_frame s index count ≡ false
      → FramesRead s (suc k) total index count r [] true tail
  unfolding read_frames
  frames_none k total index count r tail st same len first =
      let fits : ltb (total + count * chunk_size) (2 ^ 64) ≡ true = lt→ltb _ _ (omega arith) in
      let none_left : s.plaintext_len - (total + count * chunk_size) ≡ 0 = omega arith in
      record { left = r; returned = rw (fits, none_left, first); rest = same; steady = st }

  frames_short :
      (k total index count n : ℕ) (r : Reader) (e tail : Bytes)
      → IsSteady r
      → content r ≡ e ++ tail
      → 0 < n
      → n < chunk_size
      → length e ≡ n + tag
      → total + count * chunk_size + n ≡ s.plaintext_len
      → is_empty_frame s index count ≡ false
      → FramesRead s (suc k) total index count r (e ∷ []) true tail
  unfolding read_frames
  frames_short k total index count n r e tail st same pos small len sum first =
      let fits : ltb (total + count * chunk_size) (2 ^ 64) ≡ true = lt→ltb _ _ (omega arith) in
      let some_left : s.plaintext_len - (total + count * chunk_size) ≡ n = omega arith in
      let t = fill_exact e tail r (expected_read_size s false n) st same (ground arith) in
      record {
        left = t.left;
        returned = rw (fits, some_left, first) (ground (arith, t.returned));
        rest = t.rest;
        steady = t.steady;
      }

  frames_full :
      (k total index count n : ℕ) (r : Reader) (e tail : Bytes) (es : List Bytes) (last : Bool)
      (later : Bytes)
      → IsSteady r
      → content r ≡ e ++ tail
      → chunk_size ≤ n
      → length e ≡ chunk_size + tag
      → total + count * chunk_size + n ≡ s.plaintext_len
      → is_empty_frame s index count ≡ false
      → ((r' : Reader)
          → IsSteady r'
          → content r' ≡ tail
          → FramesRead s k total index (count + 1) r' es last later)
      → FramesRead s (suc k) total index count r (e ∷ es) last later
  unfolding read_frames
  frames_full k total index count n r e tail es last later st same big len sum first next =
      let fits : ltb (total + count * chunk_size) (2 ^ 64) ≡ true = lt→ltb _ _ (omega arith) in
      let some_left : s.plaintext_len - (total + count * chunk_size) ≡ n = omega arith in
      let t = fill_exact e tail r (expected_read_size s false n) st same (ground arith) in
      let m = next t.left t.steady t.rest in
      record {
        left = m.left;
        returned = rw (fits, some_left, first) (ground (arith, t.returned, m.returned));
        rest = m.rest;
        steady = m.steady;
      }

  -- `read_frames` reads back the frames of the next `k` chunks of `xs`.
  abbrev Reads : ℕ → Bytes → Type 0
  Reads k xs =
      (es : List Bytes) (total index count at_index : ℕ) (r : Reader) (tail : Bytes)
      → IsSteady r
      → content r ≡ flatten es ++ tail
      → Framed f g tag at_index (chunks k xs) es
      → total + count * chunk_size + length xs ≡ s.plaintext_len
      → is_empty_frame s index count ≡ false
      → FramesRead s k total index count r es (ltb (length xs) (k * chunk_size)) tail

  Reads-short : (k : ℕ) (x : ℕ) (xs : Bytes) → length (x ∷ xs) < chunk_size → Reads (suc k) (x ∷ xs)
  unfolding flatten
  Reads-short k x xs below [] total index count at_index r tail st same h sum first =
      absurd (rw (chunks_short k x xs below) at h)
  Reads-short k x xs below (e ∷ []) total index count at_index r tail st same h sum first =
      let framed : Framed f g tag at_index ((x ∷ xs) ∷ []) (e ∷ []) =
        rw (chunks_short k x xs below) at h in
      let flag : ltb (suc (length xs)) (suc k * chunk_size) ≡ true = ground arith in
      rw flag (
        frames_short k total index count (length (x ∷ xs)) r e tail st
          (same ∙ append_assoc e [] tail) (omega arith) below (framed.0).3 sum first)
  Reads-short k x xs below (e ∷ e' ∷ es) total index count at_index r tail st same h sum first =
      let framed : Framed f g tag at_index ((x ∷ xs) ∷ []) (e ∷ e' ∷ es) =
        rw (chunks_short k x xs below) at h in
      absurd framed.1

  Reads-full :
      (k : ℕ) (xs : Bytes)
      → chunk_size ≤ length xs
      → Reads k (drop chunk_size xs)
      → Reads (suc k) xs
  unfolding flatten
  Reads-full k xs above later [] total index count at_index r tail st same h sum first =
      absurd (rw (chunks_full k xs above) at h)
  Reads-full k xs above later (e ∷ es) total index count at_index r tail st same h sum first =
      let framed : Framed f g tag at_index (take chunk_size xs ∷ chunks k (drop chunk_size xs))
          (e ∷ es) =
        rw (chunks_full k xs above) at h in
      let flag : ltb (length xs) (suc k * chunk_size)
          ≡ ltb (length (drop chunk_size xs)) (k * chunk_size) =
        flag_shift (length xs) (length (drop chunk_size xs)) k above (length-drop chunk_size xs) in
      rw flag (
        frames_full k total index count (length xs) r e (flatten es ++ tail) es
          (ltb (length (drop chunk_size xs)) (k * chunk_size)) tail st
          (same ∙ append_assoc e (flatten es) tail) above
          (omega (arith, (framed.0).3, length-take {0} chunk_size xs)) sum first
          (λ r' st' same'.
            later es total index (count + 1) (at_index + 1) r' tail st' same' framed.1
              (omega (arith, length-drop {0} chunk_size xs)) (not_first s index count)))

  -- A batch of frames is read back whole, and the flag says whether a round found less than a chunk.
  pub frames_lem : (k : ℕ) (xs : Bytes) → Reads k xs
  unfolding flatten
  frames_lem zero xs [] total index count at_index r tail st same h sum first =
      let flag : ltb (length xs) (0 * chunk_size) ≡ false = ground arith in
      rw flag (record { left = r; returned = unfold read_frames in refl; rest = same; steady = st })
  frames_lem zero xs (e ∷ es) total index count at_index r tail st same h sum first =
      absurd (rw chunks_zero at h)
  frames_lem (suc k) [] [] total index count at_index r tail st same h sum first =
      let flag : ltb 0 (suc k * chunk_size) ≡ true = ground arith in
      rw flag (frames_none k total index count r tail st same (omega arith) first)
  frames_lem (suc k) [] (e ∷ es) total index count at_index r tail st same h sum first =
      absurd (rw chunks_none at h)
  frames_lem (suc k) (x ∷ xs) es total index count at_index r tail st same h sum first =
      elim (dec_lt (length (x ∷ xs)) chunk_size) [
        | yes below ↦
            Reads-short k x xs below es total index count at_index r tail st same h sum first
        | no above ↦
            Reads-full k (x ∷ xs) (omega arith) (frames_lem k (drop chunk_size (x ∷ xs))) es total
              index count at_index r tail st same h sum first
      ]
