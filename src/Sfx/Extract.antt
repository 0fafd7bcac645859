-- ===== src/Sfx/Extract.antt =====
-- The payload that a self-extracting file gives is the one that was put into it.
use lvau.Base.{
  take_first, drop_first, ℕ, ◌+◌, ◌-◌, ◌*◌, ◌/◌, ◌%◌, ◌^◌, ◌≤◌, ◌<◌, ◌≡◌, ◌↔◌, refl, sym, ap, subst,
  ◌∙◌, true, Bool-cases, inl, inr, Option, none, some, append_assoc, append-nil, [], ◌∷◌, ◌++◌,
  String, length, take, drop, leb, leb→le, ◌==◌, ==_iff, arith, All, All-take, All-drop,
  length-append, length-take, length-drop, take-append-drop, drop-drop, take_of_length_le,
}
use lvau.Base.Bytes.{
  Bytes, IsByte, bytes_eq, bytes_eq_iff, to_le_bytes, from_le_bytes, length-to_le_bytes,
  from_le_bytes-to_le_bytes,
}
use lvau.Error.{ok_injective, ok, require, ok_or, >>=-eq-ok, require-eq-ok, ok_or-eq-ok}
use lvau.Sfx.{
  sfx_magic, copy_exact_len, create_sfx, checked_sub, read_at, extract_payload_from_reader,
}

to_le_bytes-from_le_bytes :
    (bs : Bytes) → All IsByte bs → to_le_bytes (length bs) (from_le_bytes bs) ≡ bs
unfolding to_le_bytes from_le_bytes
to_le_bytes-from_le_bytes [] h = refl
to_le_bytes-from_le_bytes (b ∷ bs) (hb, hbs) =
    let low : (b + 256 * from_le_bytes bs) % 256 ≡ b = omega arith in
    let high : (b + 256 * from_le_bytes bs) / 256 ≡ from_le_bytes bs = omega arith in
    rw (low, high, to_le_bytes-from_le_bytes bs hbs) refl

checked_sub_lem : (a b : ℕ) → b ≤ a → checked_sub a b ≡ some (a - b)
unfolding checked_sub
checked_sub_lem a b h = let le : leb b a ≡ true = ground arith in rw le refl

checked_sub-eq-some : (a b v : ℕ) → checked_sub a b ≡ some v → (b ≤ a) × (v ≡ a - b)
unfolding checked_sub
checked_sub-eq-some a b v h = elim (Bool-cases (leb b a)) [
  | inl le ↦
      let same : some (a - b) ≡ some v = rw le at h in (leb→le b a le, some_injective (sym same))
  | inr gt ↦ let same : none ≡ some v = rw gt at h in absurd (cc)
]
  where
    some_injective : {x y : ℕ} → some x ≡ some y → x ≡ y
    some_injective h = cc

read_at_lem :
    (front part after : Bytes) (start n : ℕ) (message : String)
    → length front ≡ start
    → length part ≡ n
    → read_at (front ++ (part ++ after)) start n message ≡ ok part
unfolding read_at
read_at_lem front part after start n message h k =
    let got : take n (drop start (front ++ (part ++ after))) ≡ part =
      ap (take n) (drop_first front (part ++ after) start h) ∙ take_first part after n k in
    rw (got, (==_iff (length part) n).1 k) refl

-- A file with a payload, in the layout that the stub looks for.
abbrev pub sfx_of : Bytes → Bytes → Bytes
sfx_of front payload = front ++ (payload ++ (to_le_bytes 8 (length payload) ++ sfx_magic))

extract-sfx_of :
    (front payload : Bytes)
    → length payload < 2 ^ 64
    → extract_payload_from_reader (sfx_of front payload) (length (sfx_of front payload))
      ≡ ok payload
unfolding extract_payload_from_reader
extract-sfx_of front payload small =
    let n = length payload in
    let field = to_le_bytes 8 n in
    let eight : length field ≡ 8 = length-to_le_bytes 8 n in
    let trailer = field ++ sfx_magic in
    let sixteen : length trailer ≡ 16 = length-append field sfx_magic ∙ omega (arith, eight) in
    let file_len : length (sfx_of front payload) ≡ length front + n + 16 =
      length-append front (payload ++ trailer)
      ∙ omega (arith, length-append {0} payload trailer, sixteen) in
    let file_eq : sfx_of front payload ≡ (front ++ payload) ++ (trailer ++ []) =
      sym (append_assoc front payload trailer)
      ∙ ap (λ z. (front ++ payload) ++ z) (sym (append-nil trailer)) in
    let both : length (front ++ payload) ≡ length front + n = length-append front payload in
    let s1 : checked_sub (length (sfx_of front payload)) 16 ≡ some (length front + n) =
      checked_sub_lem (length (sfx_of front payload)) 16 (omega (arith, file_len))
      ∙ ap some (omega (arith, file_len)) in
    let s2 : read_at (sfx_of front payload) (length front + n) 16 "Failed to read trailer."
        ≡ ok trailer =
      ap (λ f. read_at f (length front + n) 16 "Failed to read trailer.") file_eq
      ∙ read_at_lem (front ++ payload) trailer [] (length front + n) 16 "Failed to read trailer."
          both sixteen in
    let magic : take 8 (drop 8 trailer) ≡ sfx_magic =
      ap (take 8) (drop_first field sfx_magic 8 eight) in
    let s3 : bytes_eq (take 8 (drop 8 trailer)) sfx_magic ≡ true =
      (bytes_eq_iff (take 8 (drop 8 trailer)) sfx_magic).1 magic in
    let s4 : from_le_bytes (take 8 trailer) ≡ n =
      ap from_le_bytes (take_first field sfx_magic 8 eight)
      ∙ from_le_bytes-to_le_bytes 8 n (omega (arith, small)) in
    let s5 : checked_sub (length front + n) n ≡ some (length front) =
      checked_sub_lem (length front + n) n (omega arith) ∙ ap some (omega arith) in
    let s6 : read_at (sfx_of front payload) (length front) n "Failed to read payload bytes."
        ≡ ok payload =
      read_at_lem front payload trailer (length front) n "Failed to read payload bytes." refl
        refl in
    rw (s1, s2, s3, s4, s5, s6) refl

read_at-eq-ok :
    (file : Bytes) (start n : ℕ) (message : String) (part : Bytes)
    → read_at file start n message ≡ ok part
    → (length part ≡ n) × (part ≡ take n (drop start file))
unfolding read_at
read_at-eq-ok file start n message part h =
    let (_, c, h1) = >>=-eq-ok (require (length (take n (drop start file)) == n) message) _ h in
    let same : part ≡ take n (drop start file) = ok_injective (ok part) refl (sym h1) in
    (ap length same ∙ (==_iff (length (take n (drop start file))) n).0 (require-eq-ok _ _ c), same)

-- A list cut at two places.
three_parts :
    (file : Bytes) (a n : ℕ) → take a file ++ (take n (drop a file) ++ drop (a + n) file) ≡ file
three_parts file a n =
    ap (λ z. take a file ++ (take n (drop a file) ++ z)) (sym (drop-drop n a file))
    ∙ ap (λ z. take a file ++ z) (take-append-drop n (drop a file))
    ∙ take-append-drop a file

-- Sixteen bytes that end in the magic are the length field of the number that they hold, and the magic.
trailer_lem :
    (trailer : Bytes)
    → All IsByte trailer
    → length trailer ≡ 16
    → take 8 (drop 8 trailer) ≡ sfx_magic
    → to_le_bytes 8 (from_le_bytes (take 8 trailer)) ++ sfx_magic ≡ trailer
trailer_lem trailer bytes sixteen magic =
    let eight : length (take 8 trailer) ≡ 8 = omega (arith, length-take 8 trailer, sixteen) in
    let field : to_le_bytes 8 (from_le_bytes (take 8 trailer)) ≡ take 8 trailer =
      ap (λ n. to_le_bytes n (from_le_bytes (take 8 trailer))) (sym eight)
      ∙ to_le_bytes-from_le_bytes (take 8 trailer) (All-take IsByte 8 trailer bytes) in
    let last : sfx_magic ≡ drop 8 trailer =
      sym magic
      ∙ take_of_length_le 8 (drop 8 trailer) (omega (arith, length-drop 8 trailer, sixteen)) in
    ap (λ z. z ++ sfx_magic) field ∙ ap (λ z. take 8 trailer ++ z) last ∙ take-append-drop 8 trailer

-- The stub finds a payload in a file exactly where the file ends in that payload, its length in eight bytes and the
-- magic, whatever stands before. The file is made of bytes and shorter than 2^64.
pub extract_payload_iff :
    (file payload : Bytes)
    → All IsByte file
    → length file < 2 ^ 64
    → (extract_payload_from_reader file (length file) ≡ ok payload)
      ↔ ((front : Bytes) × (file ≡ sfx_of front payload))
unfolding extract_payload_from_reader
extract_payload_iff file payload bytes small = (there, back)
  where
    there :
        extract_payload_from_reader file (length file) ≡ ok payload
        → (front : Bytes) × (file ≡ sfx_of front payload)
    there h =
        let (ts, c1, h1) =
          >>=-eq-ok (ok_or (checked_sub (length file) 16) "File too small to be an SFX.") _ h in
        let (trailer, c2, h2) = >>=-eq-ok (read_at file ts 16 "Failed to read trailer.") _ h1 in
        let (_, c3, h3) =
          >>=-eq-ok
            (require (bytes_eq (take 8 (drop 8 trailer)) sfx_magic)
              "This executable does not contain a valid Lvau SFX payload.")
            _ h2 in
        let n = from_le_bytes (take 8 trailer) in
        let (start, c4, h4) =
          >>=-eq-ok (ok_or (checked_sub ts n) "SFX payload length exceeds the executable size.") _
            h3 in
        let (room, ts_eq) = checked_sub-eq-some (length file) 16 ts (ok_or-eq-ok _ _ c1) in
        let (below, start_eq) = checked_sub-eq-some ts n start (ok_or-eq-ok _ _ c4) in
        let (sixteen, trailer_eq) = read_at-eq-ok file ts 16 "Failed to read trailer." trailer c2 in
        let (payload_len, payload_eq) =
          read_at-eq-ok file start n "Failed to read payload bytes." payload h4 in
        let magic = (bytes_eq_iff (take 8 (drop 8 trailer)) sfx_magic).0 (require-eq-ok _ _ c3) in
        let end_eq : trailer ≡ drop ts file =
          trailer_eq
          ∙ take_of_length_le 16 (drop ts file) (omega (arith, length-drop ts file, room, ts_eq)) in
        let trailer_bytes : All IsByte trailer =
          subst (All IsByte) (sym end_eq) (All-drop IsByte ts file bytes) in
        let last = trailer_lem trailer trailer_bytes sixteen magic in
        let tail_eq : drop (start + n) file ≡ to_le_bytes 8 (length payload) ++ sfx_magic =
          ap (λ k. drop k file) {x = start + n} {y = ts} (omega (arith, below, start_eq))
          ∙ sym end_eq
          ∙ sym last
          ∙ ap (λ k. to_le_bytes 8 k ++ sfx_magic) (sym payload_len) in
        (
          take start file,
          sym (three_parts file start n)
              ∙ ap (λ z. take start file ++ (z ++ drop (start + n) file)) (sym payload_eq)
              ∙ ap (λ z. take start file ++ (payload ++ z)) tail_eq,
        )

    back :
        (front : Bytes) × (file ≡ sfx_of front payload)
        → extract_payload_from_reader file (length file) ≡ ok payload
    back (front, same) =
        let len : length file
            ≡ length front
              + (length payload + length (to_le_bytes 8 (length payload) ++ sfx_magic)) =
          ap length same
          ∙ omega (
            arith,
            length-append {0} front (payload ++ (to_le_bytes 8 (length payload) ++ sfx_magic)),
            length-append {0} payload (to_le_bytes 8 (length payload) ++ sfx_magic),
          ) in
        ap (λ f. extract_payload_from_reader f (length f)) same
        ∙ extract-sfx_of front payload (omega (arith, len, small))

-- A file that `create_sfx` makes gives its payload back, and starts with the stub, unchanged. The payload is shorter
-- than 2^64 bytes.
pub extract_payload-create_sfx :
    (no_stub changed : String) (stub : Option Bytes) (payload file : Bytes) (payload_len : ℕ)
    → payload_len < 2 ^ 64
    → create_sfx no_stub changed stub payload payload_len ≡ ok file
    → (extract_payload_from_reader file (length file) ≡ ok payload)
      × (stub ≡ some (take (length file - (payload_len + 16)) file))
unfolding create_sfx copy_exact_len
extract_payload-create_sfx no_stub changed stub payload file payload_len small h =
    let (stub_bytes, c1, h1) = >>=-eq-ok (ok_or stub no_stub) _ h in
    let (copied, c2, h2) = >>=-eq-ok (copy_exact_len payload payload_len changed) _ h1 in
    let (_, c3, h3) = >>=-eq-ok (require (length payload == payload_len) changed) _ c2 in
    let sized = (==_iff (length payload) payload_len).0 (require-eq-ok _ _ c3) in
    let same : payload ≡ copied = ok_injective (ok payload) refl h3 in
    let whole : file ≡ sfx_of stub_bytes payload =
      ok_injective (ok file) refl (sym h2)
      ∙ ap (λ z. stub_bytes ++ (z ++ (to_le_bytes 8 payload_len ++ sfx_magic))) (sym same)
      ∙ ap (λ k. stub_bytes ++ (payload ++ (to_le_bytes 8 k ++ sfx_magic))) (sym sized) in
    let trailer = to_le_bytes 8 (length payload) ++ sfx_magic in
    let len : length file - (payload_len + 16) ≡ length stub_bytes = omega (
      arith,
      ap length whole,
      sized,
      length-append {0} stub_bytes (payload ++ trailer),
      length-append {0} payload trailer,
      length-append {0} (to_le_bytes 8 (length payload)) sfx_magic,
      length-to_le_bytes 8 (length payload),
    ) in
    let front : take (length file - (payload_len + 16)) file ≡ stub_bytes =
      ap (take (length file - (payload_len + 16))) whole
      ∙ take_first stub_bytes (payload ++ trailer) (length file - (payload_len + 16)) (sym len) in
    (
      ap (λ f. extract_payload_from_reader f (length f)) whole
          ∙ extract-sfx_of stub_bytes payload (omega (arith, sized, small)),
      ok_or-eq-ok stub no_stub c1 ∙ ap some (sym front),
    )
