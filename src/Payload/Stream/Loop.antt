-- ===== src/Payload/Stream/Loop.antt =====
-- The loops over batches: the framing of a plaintext as a relation, which the encryption loop writes
-- and the decryption loop reads back.
use lvau.Base.{
  ℕ, zero, suc, ◌+◌, ◌-◌, ◌*◌, ◌^◌, ◌≤◌, ◌<◌, ◌≡◌, refl, sym, ap, ◌∙◌, Bool, true, false, ◌&&◌, ltb,
  leb, ◌==◌, if◌then◌else◌, List, [], ◌∷◌, ◌++◌, length, drop, is_empty, arith, min, length-take,
  length-drop, drop_of_length_le, lt→ltb, append-nil, take-append-drop,
}
use lvau.Base.Bytes.{Bytes}
use lvau.Error.{Result, ok, ◌>>=◌, CryptoError}
use lvau.Envelope.{current_version}
use lvau.Reader.{Reader, content, IsSteady}
use lvau.Payload.{chunk_size, batch_chunks}
use lvau.Payload.Stream.{
  flatten, read_batch, read_frames, each_chunk, Frames, is_empty_frame, encrypt_loop, decrypt_loop,
}
use lvau.Payload.Stream.Read.{
  chunks, chunks_none, chunks_zero, chunks_full, chunks_ne_nil, flatten-chunks, length-chunks,
  read_batch_lem, Framed, each_chunk_encrypts, each_chunk_decrypts,
}
use lvau.Payload.Stream.Frame.{frames_lem}
use mathlib.Core.Path.{ap₂}

flatten_none : [] ≡ flatten [] ++ []
unfolding flatten
flatten_none = refl

not_ltb : (a b : ℕ) → b ≤ a → ltb a b ≡ false
not_ltb a b h = ground arith

not_zero : (e v : Bool) (index : ℕ) → (e && (v && index + batch_chunks == 0)) ≡ false
not_zero e v index = ground arith

not_first_batch : (s : Frames) (index : ℕ) → is_empty_frame s (index + batch_chunks) 0 ≡ false
not_first_batch s index = ground arith

abbrev pub batch_bytes : ℕ
batch_bytes = batch_chunks * chunk_size

moved :
    (total n d : ℕ) → d ≡ n - batch_bytes → batch_bytes ≤ n → total + (n - d) ≡ total + batch_bytes
moved total n d e h = omega arith

module _ (f g : ℕ → Bytes → Result Bytes CryptoError) (tag : ℕ) where
  -- `out` is the framing of a plaintext, batch by batch, from a chunk index on.
  pub data Framing : ℕ → Bytes → Bytes → Type 0 where
    done : {index : ℕ} → Framing index [] []
    last :
        {index : ℕ} {xs : Bytes} (es : List Bytes)
        → 0 < length xs
        → length xs < batch_bytes
        → Framed f g tag index (chunks batch_chunks xs) es
        → Framing index xs (flatten es)
    full :
        {index : ℕ} {xs : Bytes} (es : List Bytes) (more : Bytes)
        → batch_bytes ≤ length xs
        → Framed f g tag index (chunks batch_chunks xs) es
        → Framing (index + batch_chunks) (drop batch_bytes xs) more
        → Framing index xs (flatten es ++ more)

  -- One round of the encryption loop on a batch that is not empty.
  encrypt_step :
      (version fuel total index : ℕ) (r r' : Reader) (cs es : List Bytes)
      → read_batch batch_chunks r ≡ ok (cs, r')
      → is_empty cs ≡ false
      → each_chunk f index cs ≡ ok es
      → total + length (flatten cs) < 2 ^ 64
      → index + length cs < 2 ^ 64
      → encrypt_loop f version (suc fuel) total index r ≡ (
          if ltb (length (flatten cs)) batch_bytes
          then ok (flatten es, total + length (flatten cs))
          else (encrypt_loop f version fuel (total + length (flatten cs)) (index + length cs) r'
              >>= λ more. ok (flatten es ++ more.0, more.1)))
  unfolding encrypt_loop
  encrypt_step version fuel total index r r' [] es read nonempty enc fits bound = cc
  encrypt_step version fuel total index r r' (c ∷ cs) es read nonempty enc fits bound = rw (
    read,
    enc,
    lt→ltb (total + length (flatten (c ∷ cs))) (2 ^ 64) fits,
    lt→ltb (index + length (c ∷ cs)) (2 ^ 64) bound,
  )

  -- One round of the decryption loop on a batch that is not empty.
  decrypt_step :
      (s : Frames) (fuel total index : ℕ) (r r' : Reader) (eof : Bool) (cs es : List Bytes)
      → read_frames s batch_chunks total index 0 r ≡ ok (es, eof, r')
      → is_empty es ≡ false
      → each_chunk g index es ≡ ok cs
      → total + length (flatten cs) < 2 ^ 64
      → index + length es < 2 ^ 64
      → decrypt_loop g s (suc fuel) false total index r ≡ (
          decrypt_loop g s fuel eof (total + length (flatten cs)) (index + length es) r' >>= λ more.
          ok (flatten cs ++ more.0, more.1, more.2))
  unfolding decrypt_loop
  decrypt_step s fuel total index r r' eof cs [] read nonempty dec fits bound = cc
  decrypt_step s fuel total index r r' eof cs (e ∷ es) read nonempty dec fits bound = rw (
    read,
    dec,
    lt→ltb (total + length (flatten cs)) (2 ^ 64) fits,
    lt→ltb (index + length (e ∷ es)) (2 ^ 64) bound,
  )

  Framed-length :
      (index : ℕ) (cs es : List Bytes) → Framed f g tag index cs es → length es ≡ length cs
  Framed-length index [] [] h = refl
  Framed-length index [] (e ∷ es) h = absurd h
  Framed-length index (c ∷ cs) [] h = absurd h
  Framed-length index (c ∷ cs) (e ∷ es) h = ap suc (Framed-length (index + 1) cs es h.1)

  Framed-is_empty :
      (index : ℕ) (cs es : List Bytes) → Framed f g tag index cs es → is_empty es ≡ is_empty cs
  Framed-is_empty index [] [] h = refl
  Framed-is_empty index [] (e ∷ es) h = absurd h
  Framed-is_empty index (c ∷ cs) [] h = absurd h
  Framed-is_empty index (c ∷ cs) (e ∷ es) h = refl

  -- The number of chunks in a full batch.
  length-chunks_full : (k : ℕ) (xs : Bytes) → k * chunk_size ≤ length xs → length (chunks k xs) ≡ k
  length-chunks_full zero xs h = rw chunks_zero refl
  length-chunks_full (suc k) xs h = rw (chunks_full k xs (omega arith)) (
      ap suc
        (length-chunks_full k (drop chunk_size xs) (omega (arith, length-drop {0} chunk_size xs))))

  length_batch :
      (xs : Bytes) → length (flatten (chunks batch_chunks xs)) ≡ min batch_bytes (length xs)
  length_batch xs = rw flatten-chunks (length-take batch_bytes xs)

  encrypt_stop :
      (version fuel total index : ℕ) (r r' : Reader)
      → read_batch batch_chunks r ≡ ok ([], r')
      → (leb current_version version && index == 0) ≡ false
      → encrypt_loop f version (suc fuel) total index r ≡ ok ([], total)
  unfolding encrypt_loop
  encrypt_stop version fuel total index r r' read quiet = rw (read, quiet)

  -- The encryption loop writes the framing of what it reads, and counts the plaintext.
  pub encrypt_loop_lem :
      (version fuel total : ℕ) {index : ℕ} {xs out : Bytes} (r : Reader)
      → Framing index xs out
      → IsSteady r
      → content r ≡ xs
      → (is_empty xs && (leb current_version version && index == 0)) ≡ false
      → length xs < fuel
      → total + length xs < 2 ^ 64
      → index * chunk_size + length xs < 2 ^ 64
      → encrypt_loop f version fuel total index r ≡ ok (out, total + length xs)
  encrypt_loop_lem version zero total r fr st same quiet enough sum room = absurd (omega arith)
  encrypt_loop_lem version (suc fuel) total {index} r done st same quiet enough sum room =
      let b = read_batch_lem batch_chunks r st in
      encrypt_stop version fuel total index r b.left
        (b.returned ∙ rw (same, chunks_none batch_chunks)) quiet
      ∙ ap (λ n. ok ([], n)) {x = total} {y = total + 0} (omega arith)
  encrypt_loop_lem version (suc fuel) total {index} {xs} r (last es pos small h) st same quiet
        enough sum room =
      let b = read_batch_lem batch_chunks r st in
      let stop : ltb (length (flatten (chunks batch_chunks xs))) batch_bytes ≡ true =
        lt→ltb _ _ (omega (arith, length_batch xs)) in
      encrypt_step version fuel total index r b.left (chunks batch_chunks xs) es
        (b.returned ∙ rw same) (chunks_ne_nil 31 xs pos) (each_chunk_encrypts f g tag index _ _ h)
        (omega (arith, length_batch xs)) (omega (arith, length-chunks batch_chunks xs))
      ∙ rw stop (ap (λ n. ok (flatten es, n)) (omega (arith, length_batch xs)))
  encrypt_loop_lem version (suc fuel) total {index} {xs} r (full es more big h next) st same quiet
        enough sum room =
      let b = read_batch_lem batch_chunks r st in
      let n = length_batch xs in
      let go_on : ltb (length (flatten (chunks batch_chunks xs))) batch_bytes ≡ false =
        not_ltb _ _ (omega (arith, n)) in
      let total' : total + length (flatten (chunks batch_chunks xs)) ≡ total + batch_bytes =
        omega (arith, n) in
      let count = length-chunks_full batch_chunks xs big in
      let len = length-drop batch_bytes xs in
      let later =
        encrypt_loop_lem version fuel (total + batch_bytes) b.left next b.steady (b.rest ∙ rw same)
          (not_zero (is_empty (drop batch_bytes xs)) (leb current_version version) index)
          (omega (arith, len)) (omega (arith, len)) (omega (arith, len)) in
      encrypt_step version fuel total index r b.left (chunks batch_chunks xs) es
        (b.returned ∙ rw same) (chunks_ne_nil 31 xs (omega arith))
        (each_chunk_encrypts f g tag index _ _ h) (omega (arith, n)) (omega (arith, count))
      ∙ rw (go_on, total', count, later) (ap (λ m. ok (flatten es ++ more, m)) (omega (arith, len)))

  few_frames :
      (index : ℕ) (xs : Bytes) (es : List Bytes)
      → Framed f g tag index (chunks batch_chunks xs) es
      → length es ≤ batch_chunks
  few_frames index xs es h =
      omega
        (arith, Framed-length index (chunks batch_chunks xs) es h, length-chunks batch_chunks xs)

  -- What the decryption loop gives on a framing of `xs`.
  pub record LoopRead (s : Frames) (fuel : ℕ) (eof : Bool) (total index : ℕ) (r : Reader)
      (xs : Bytes) : Type 0 where
    pub left : Reader
    pub returned : decrypt_loop g s fuel eof total index r ≡ ok (xs, total + length xs, left)
    pub rest : content left ≡ []
    pub steady : IsSteady left

  module _ (s : Frames) (positive : 0 < tag) (size : s.encrypted_size ≡ chunk_size + tag)
      (limit : s.plaintext_len < 2 ^ 64) where
    decrypt_end :
        (fuel total index : ℕ) (r : Reader)
        → IsSteady r
        → content r ≡ []
        → LoopRead s (suc fuel) true total index r []
    unfolding decrypt_loop
    decrypt_end fuel total index r st same = record {
      left = r;
      returned = ap (λ n. ok ([], n, r)) {x = total} {y = total + 0} (omega arith);
      rest = same;
      steady = st;
    }

    decrypt_stop :
        (fuel total index : ℕ) (r r' : Reader) (eof : Bool)
        → read_frames s batch_chunks total index 0 r ≡ ok ([], eof, r')
        → decrypt_loop g s (suc fuel) false total index r ≡ ok ([], total, r')
    unfolding decrypt_loop
    decrypt_stop fuel total index r r' eof read = rw read

    -- A round on the frames of `xs`, from what the rest of the loop gives.
    join_round :
        (fuel total index : ℕ) (r r' : Reader) (eof : Bool) (xs rest : Bytes) (es : List Bytes)
        → read_frames s batch_chunks total index 0 r ≡ ok (es, eof, r')
        → Framed f g tag index (chunks batch_chunks xs) es
        → 0 < length xs
        → rest ≡ drop batch_bytes xs
        → total + length xs < 2 ^ 64
        → index + length es < 2 ^ 64
        → LoopRead s fuel eof (total + (length xs - length rest)) (index + length es) r' rest
        → LoopRead s (suc fuel) false total index r xs
    join_round fuel total index r r' eof xs rest es read h pos behind sum bound later =
        let n = length_batch xs in
        let len = ap length behind ∙ length-drop batch_bytes xs in
        let total' : total + length (flatten (chunks batch_chunks xs))
            ≡ total + (length xs - length rest) =
          omega (arith, n, len) in
        let whole : flatten (chunks batch_chunks xs) ++ rest ≡ xs =
          rw (flatten-chunks, behind) (take-append-drop batch_bytes xs) in
        record {
          left = later.left;
          returned =
              decrypt_step s fuel total index r r' eof (chunks batch_chunks xs) es read
                (Framed-is_empty index _ es h ∙ chunks_ne_nil 31 xs pos)
                (each_chunk_decrypts f g tag index _ _ h) (omega (arith, n)) bound
              ∙ rw (total', later.returned)
                  (ap₂ (λ o m. ok (o, m, later.left)) whole (omega (arith, len)));
          rest = later.rest;
          steady = later.steady;
        }

    -- The decryption loop reads the framing of a plaintext back, and stops behind it.
    pub decrypt_loop_lem :
        (fuel total : ℕ) {index : ℕ} {xs out : Bytes} (r : Reader)
        → Framing index xs out
        → IsSteady r
        → content r ≡ out
        → is_empty_frame s index 0 ≡ false
        → length xs + 1 < fuel
        → total + length xs ≡ s.plaintext_len
        → index * chunk_size + length xs < 2 ^ 64
        → LoopRead s fuel false total index r xs
    decrypt_loop_lem zero total r fr st same first enough sum room = absurd (omega arith)
    decrypt_loop_lem (suc zero) total r fr st same first enough sum room = absurd (omega arith)
    decrypt_loop_lem (suc (suc fuel)) total {index} r done st same first enough sum room =
        let none_framed : Framed f g tag index (chunks batch_chunks []) [] =
          rw (chunks_none batch_chunks) tt in
        let b =
          frames_lem f g tag s positive size limit batch_chunks [] [] total index 0 index r [] st
            (same ∙ flatten_none) none_framed (omega arith) first in
        record {
          left = b.left;
          returned =
              decrypt_stop (suc fuel) total index r b.left _ b.returned
              ∙ ap (λ n. ok ([], n, b.left)) {x = total} {y = total + 0} (omega arith);
          rest = b.rest;
          steady = b.steady;
        }
    decrypt_loop_lem (suc (suc fuel)) total {index} {xs} r (last es pos small h) st same first
          enough sum room =
        let b =
          frames_lem f g tag s positive size limit batch_chunks xs es total index 0 index r [] st
            (same ∙ sym (append-nil (flatten es))) h (omega arith) first in
        let stop : ltb (length xs) batch_bytes ≡ true = lt→ltb _ _ small in
        let few = few_frames index xs es h in
        join_round (suc fuel) total index r b.left true xs [] es (b.returned ∙ rw stop) h pos
          (sym (drop_of_length_le batch_bytes xs (omega arith))) (omega arith) (omega (arith, few))
          (decrypt_end fuel (total + (length xs - 0)) (index + length es) b.left b.steady b.rest)
    decrypt_loop_lem (suc (suc fuel)) total {index} {xs} r (full es more big h next) st same first
          enough sum room =
        let b =
          frames_lem f g tag s positive size limit batch_chunks xs es total index 0 index r more st
            same h (omega arith) first in
        let go_on : ltb (length xs) batch_bytes ≡ false = not_ltb _ _ big in
        let count : length es ≡ batch_chunks =
          Framed-length index (chunks batch_chunks xs) es h
          ∙ length-chunks_full batch_chunks xs big in
        let len = length-drop batch_bytes xs in
        let later =
          decrypt_loop_lem (suc fuel) (total + batch_bytes) b.left next b.steady b.rest
            (not_first_batch s index) (omega (arith, len)) (omega (arith, len))
            (omega (arith, len)) in
        join_round (suc fuel) total index r b.left false xs (drop batch_bytes xs) es
          (b.returned ∙ rw go_on) h (omega arith) refl (omega arith) (omega (arith, count))
          (rw (count, moved total (length xs) _ len big) later)
