-- ===== src/Tests/Sfx.antt =====
-- A self-extracting file with a stub of two bytes.
use lvau.Base.{
  ◌+◌, ◌-◌, ◌≡◌, ◌↔◌, refl, true, some, [], ◌∷◌, ◌++◌, length, take, all, All, ltb, arith,
}
use lvau.Base.Bytes.{Bytes, IsByte, codes, to_le_bytes}
use lvau.Error.{ok}
use lvau.Sfx.{copy_exact_len, create_sfx, extract_payload_from_reader}
use lvau.Sfx.Extract.{sfx_of, extract_payload_iff, extract_payload-create_sfx}

abbrev stub : Bytes
stub = 1 ∷ 2 ∷ []

abbrev payload : Bytes
payload = 3 ∷ 4 ∷ 5 ∷ []

abbrev whole : Bytes
whole = stub ++ (payload ++ (3 ∷ 0 ∷ 0 ∷ 0 ∷ 0 ∷ 0 ∷ 0 ∷ 0 ∷ codes "LVAUSFX1"))

makes : create_sfx "no stub" "changed" (some stub) payload 3 ≡ ok whole
unfolding create_sfx copy_exact_len to_le_bytes
makes = refl

extract_payload-create_sfx_example :
    (extract_payload_from_reader whole (length whole) ≡ ok payload)
    × (some stub ≡ some (take (length whole - (3 + 16)) whole))
extract_payload-create_sfx_example =
    extract_payload-create_sfx "no stub" "changed" (some stub) payload whole 3 (omega arith) makes

bytes-All : (xs : Bytes) → all (λ x. ltb x 256) xs ≡ true → All IsByte xs
bytes-All [] h = tt
bytes-All (x ∷ xs) h = (ground arith, bytes-All xs (ground arith))

extract_payload_iff_example :
    (extract_payload_from_reader whole (length whole) ≡ ok payload)
    ↔ ((front : Bytes) × (whole ≡ sfx_of front payload))
extract_payload_iff_example = extract_payload_iff whole payload (bytes-All whole refl) (omega arith)
