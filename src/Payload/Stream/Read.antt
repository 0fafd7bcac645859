-- ===== src/Payload/Stream/Read.antt =====
-- Reading one batch: of plaintext chunks, and of the frames that were written for them.
use lvau.Base.{
  ℕ, zero, suc, ◌+◌, ◌*◌, ◌^◌, ◌≤◌, ◌<◌, ◌≡◌, ◌≢◌, refl, sym, ap, ◌∙◌, false, Bool-cases, inl, inr,
  ◌==◌, ==_iff, if◌then◌else◌, List, [], ◌∷◌, ◌++◌, length, take, drop, is_empty, All, arith,
  length-take, take_of_length_le, drop-drop, drop_eq, drop_of_length_le, All-take, All-drop, lt→ltb,
  take-take-drop, take_eq, take-nil, append-nil,
}
use native.Mathlib.Decide.{dec_lt}
use lvau.Base.Bytes.{Bytes, IsByte}
use lvau.Error.{Result, ok, CryptoError}
use lvau.Reader.{Reader, content, IsSteady}
use lvau.Reader.Laws.{fill_lem}
use lvau.Payload.{chunk_size}
use lvau.Payload.Stream.{flatten, read_batch, each_chunk}

-- The next `k` chunks of a plaintext, the last of which may be short.
pub chunks : ℕ → Bytes → List Bytes
chunks zero xs = []
chunks (suc k) xs =
    if length (take chunk_size xs) == chunk_size
    then take chunk_size xs ∷ chunks k (drop chunk_size xs)
    else if is_empty (take chunk_size xs)
    then []
    else take chunk_size xs ∷ []

unequal : (a b : ℕ) → a ≢ b → (a == b) ≡ false
unequal a b h = ground arith

-- A full chunk, a short one, or none.
pub chunks_full :
    (k : ℕ) (xs : Bytes)
    → chunk_size ≤ length xs
    → chunks (suc k) xs ≡ take chunk_size xs ∷ chunks k (drop chunk_size xs)
unfolding chunks
chunks_full k xs h =
    let full : length (take chunk_size xs) ≡ chunk_size =
      omega (arith, length-take {0} chunk_size xs) in
    rw ((==_iff _ _).1 full)

pub chunks_short :
    (k : ℕ) (x : ℕ) (xs : Bytes)
    → length (x ∷ xs) < chunk_size
    → chunks (suc k) (x ∷ xs) ≡ (x ∷ xs) ∷ []
unfolding chunks
chunks_short k x xs h =
    let whole : take chunk_size (x ∷ xs) ≡ x ∷ xs =
      take_of_length_le chunk_size (x ∷ xs) (omega arith) in
    let short : (length (take chunk_size (x ∷ xs)) == chunk_size) ≡ false =
      unequal _ _ (omega (arith, length-take {0} chunk_size (x ∷ xs))) in
    rw short (ap (λ c. c ∷ []) whole)

pub chunks_zero : (xs : Bytes) → chunks 0 xs ≡ []
unfolding chunks
chunks_zero xs = refl

pub chunks_none : (k : ℕ) → chunks k [] ≡ []
unfolding chunks
chunks_none zero = refl
chunks_none (suc k) = refl

pub record BatchRead (k : ℕ) (r : Reader) : Type 0 where
  pub left : Reader
  pub returned : read_batch k r ≡ ok (chunks k (content r), left)
  pub rest : content left ≡ drop (k * chunk_size) (content r)
  pub steady : IsSteady left

pub read_batch_lem : (k : ℕ) (r : Reader) → IsSteady r → BatchRead k r
unfolding read_batch chunks
read_batch_lem zero r h = record {
  left = r;
  returned = refl;
  rest = drop_eq 0 (0 * chunk_size) (content r) (omega arith);
  steady = h;
}
read_batch_lem (suc k) r h =
    let f = fill_lem chunk_size r h in
    elim (Bool-cases (length (take chunk_size (content r)) == chunk_size)) [
      | inl full ↦
          let later = read_batch_lem k f.left f.steady in
          record {
            left = later.left;
            returned = rw (f.returned, full, later.returned, f.rest);
            rest =
                later.rest
                ∙ rw (f.rest, drop-drop) (drop_eq _ (suc k * chunk_size) (content r) (omega arith));
            steady = later.steady;
          }
      | inr short ↦
          let below : length (content r) < chunk_size =
            ground (arith, length-take {0} chunk_size (content r)) in
          record {
            left = f.left;
            returned = rw (f.returned, short);
            rest =
                f.rest
                ∙ drop_of_length_le chunk_size (content r) (omega arith)
                ∙ sym (drop_of_length_le (suc k * chunk_size) (content r) (omega arith));
            steady = f.steady;
          }
    ]

pub chunks_ne_nil : (k : ℕ) (xs : Bytes) → 0 < length xs → is_empty (chunks (suc k) xs) ≡ false
chunks_ne_nil k [] h = absurd (omega arith)
chunks_ne_nil k (x ∷ xs) h = elim (dec_lt (length (x ∷ xs)) chunk_size) [
  | yes below ↦ rw (chunks_short k x xs below) refl
  | no above ↦ rw (chunks_full k (x ∷ xs) (omega arith)) refl
]

-- What a batch holds.
pub flatten-chunks : (k : ℕ) (xs : Bytes) → flatten (chunks k xs) ≡ take (k * chunk_size) xs
unfolding flatten
flatten-chunks zero xs = unfold chunks in take_eq 0 (0 * chunk_size) xs (omega arith)
flatten-chunks (suc k) [] = rw (chunks_none, take-nil)
flatten-chunks (suc k) (x ∷ xs) = elim (dec_lt (length (x ∷ xs)) chunk_size) [
  | yes below ↦
      rw (chunks_short k x xs below, append-nil)
        (sym (take_of_length_le (suc k * chunk_size) (x ∷ xs) (omega arith)))
  | no above ↦ rw (chunks_full k (x ∷ xs) (omega arith)) (
      ap (λ t. take chunk_size (x ∷ xs) ++ t) (flatten-chunks k (drop chunk_size (x ∷ xs)))
      ∙ take-take-drop chunk_size (k * chunk_size) (x ∷ xs)
      ∙ take_eq (chunk_size + k * chunk_size) (suc k * chunk_size) (x ∷ xs) (omega arith))
]

pub length-chunks : (k : ℕ) (xs : Bytes) → length (chunks k xs) ≤ k
length-chunks zero xs = unfold chunks in omega arith
length-chunks (suc k) [] = rw chunks_none (omega arith)
length-chunks (suc k) (x ∷ xs) = elim (dec_lt (length (x ∷ xs)) chunk_size) [
  | yes below ↦ rw (chunks_short k x xs below) (omega arith)
  | no above ↦
      rw (chunks_full k (x ∷ xs) (omega arith))
        (omega (arith, length-chunks k (drop chunk_size (x ∷ xs))))
]

-- A chunk of bytes that is not too long.
abbrev pub IsChunk : Bytes → Type 0
IsChunk c = All IsByte c × (length c ≤ chunk_size)

pub chunks-IsChunk : (k : ℕ) (xs : Bytes) → All IsByte xs → All IsChunk (chunks k xs)
chunks-IsChunk zero xs h = unfold chunks in tt
chunks-IsChunk (suc k) [] h = rw chunks_none tt
chunks-IsChunk (suc k) (x ∷ xs) h = elim (dec_lt (length (x ∷ xs)) chunk_size) [
  | yes below ↦ rw (chunks_short k x xs below) ((h, omega arith), tt)
  | no above ↦ rw (chunks_full k (x ∷ xs) (omega arith)) (
    (All-take IsByte chunk_size (x ∷ xs) h, omega (arith, length-take {0} chunk_size (x ∷ xs))),
    chunks-IsChunk k (drop chunk_size (x ∷ xs)) (All-drop IsByte chunk_size (x ∷ xs) h),
  )
]

-- The conditions of one chunk and its frame, at each index from `index` on: `f` encrypts, `g` decrypts, and
-- `tag` is what encryption adds.
module _ (f g : ℕ → Bytes → Result Bytes CryptoError) (tag : ℕ) where
  abbrev pub Frame : ℕ → Bytes → Bytes → Type 0
  Frame index c e =
      (index < 2 ^ 64) × (f index c ≡ ok e) × (g index e ≡ ok c) × (length e ≡ length c + tag)

  abbrev pub Framed : ℕ → List Bytes → List Bytes → Type 0
  Framed index [] [] = Unit
  Framed index [] (e ∷ es) = ⊥
  Framed index (c ∷ cs) [] = ⊥
  Framed index (c ∷ cs) (e ∷ es) = Frame index c e × Framed (index + 1) cs es

  pub each_chunk_encrypts :
      (index : ℕ) (cs es : List Bytes) → Framed index cs es → each_chunk f index cs ≡ ok es
  unfolding each_chunk
  each_chunk_encrypts index [] [] h = refl
  each_chunk_encrypts index [] (e ∷ es) h = absurd h
  each_chunk_encrypts index (c ∷ cs) [] h = absurd h
  each_chunk_encrypts index (c ∷ cs) (e ∷ es) (h, hs) =
      rw (lt→ltb _ _ h.0, h.1, each_chunk_encrypts (index + 1) cs es hs)

  pub each_chunk_decrypts :
      (index : ℕ) (cs es : List Bytes) → Framed index cs es → each_chunk g index es ≡ ok cs
  unfolding each_chunk
  each_chunk_decrypts index [] [] h = refl
  each_chunk_decrypts index [] (e ∷ es) h = absurd h
  each_chunk_decrypts index (c ∷ cs) [] h = absurd h
  each_chunk_decrypts index (c ∷ cs) (e ∷ es) (h, hs) =
      rw (lt→ltb _ _ h.0, h.2, each_chunk_decrypts (index + 1) cs es hs)

  module _
      (law : (index : ℕ) (c : Bytes)
        → All IsByte c
        → length c ≤ chunk_size
        → (e : Bytes) × (f index c ≡ ok e) × (g index e ≡ ok c) × (length e ≡ length c + tag)) where
    -- Every batch of small chunks can be framed, while the indices stay below 2^64.
    pub frames_exist :
        (index : ℕ) (cs : List Bytes)
        → All IsChunk cs
        → index + length cs ≤ 2 ^ 64
        → (es : List Bytes) × Framed index cs es
    frames_exist index [] h b = ([], tt)
    frames_exist index (c ∷ cs) ((bytes, small), h) b =
        let (e, enc, dec, len) = law index c bytes small in
        let (es, hs) = frames_exist (index + 1) cs h (omega arith) in
        (e ∷ es, ((omega arith, enc, dec, len), hs))
