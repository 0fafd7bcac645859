-- ===== src/Bundle/Reads.antt =====
-- Every entry of a packed plaintext is read as the file that it was made from.
use lvau.Base.{
  take_first, drop_first, ℕ, ◌+◌, ◌<◌, ◌≡◌, refl, sym, ap, ◌∙◌, List, [], ◌∷◌, ◌++◌, append_assoc,
  String, length, take, drop, ==_iff, arith, All, ◌^◌, length-append, drop-drop,
}
use lvau.Base.Bytes.{Bytes, bytes_eq_iff}
use lvau.Error.{ok}
use lvau.Bundle.Manifest.{
  BundleBackend, SourceFile, entry_bytes, verify_entry, verify_entries, copy_entry, copy_entries,
}
use lvau.Bundle.Laid.{entry_of, entries_from, contents_of, IsCollected, checked_sum_lem}
use Prim.Native.String

-- One entry's bytes, where the plaintext has them from its offset on.
entry_lem :
    (file after : Bytes) (data_start offset : ℕ) (s : SourceFile) (message : String)
    → length s.bytes ≡ s.size
    → data_start + offset < 2 ^ 64
    → drop (data_start + offset) file ≡ s.bytes ++ after
    → entry_bytes file data_start (entry_of offset s) message ≡ ok s.bytes
unfolding entry_bytes
entry_lem file after data_start offset s message sized small at =
    let part : take s.size (drop (data_start + offset) file) ≡ s.bytes =
      ap (take s.size) at ∙ take_first s.bytes after s.size sized in
    rw
      (
        checked_sum_lem data_start offset "File offset overflow" small,
        part,
        (==_iff (length s.bytes) s.size).1 sized,
      )
      refl

next_lem :
    (file after : Bytes) (data_start offset : ℕ) (s : SourceFile)
    → length s.bytes ≡ s.size
    → drop (data_start + offset) file ≡ s.bytes ++ after
    → drop (data_start + (offset + s.size)) file ≡ after
next_lem file after data_start offset s sized at =
    ap (λ n. drop n file) {x = data_start + (offset + s.size)} {y = data_start + offset + s.size}
      (omega arith)
    ∙ sym (drop-drop s.size (data_start + offset) file)
    ∙ ap (drop s.size) at
    ∙ drop_first s.bytes after s.size sized

abbrev pub files_of : List SourceFile → List (String × Bytes)
files_of [] = []
files_of (s ∷ ss) = (s.relative_path, s.bytes) ∷ files_of ss

pub reads_lem :
    (b : BundleBackend) (file padding : Bytes) (data_start offset : ℕ) (sources : List SourceFile)
    → All (IsCollected b) sources
    → data_start + offset + length (contents_of sources) < 2 ^ 64
    → drop (data_start + offset) file ≡ contents_of sources ++ padding
    → (verify_entries b file data_start (entries_from offset sources) ≡ ok tt)
      × (copy_entries file data_start (entries_from offset sources) ≡ ok (files_of sources))
unfolding verify_entries verify_entry copy_entries copy_entry
reads_lem b file padding data_start offset [] collected small at = (refl, refl)
reads_lem b file padding data_start offset (s ∷ ss) ((sized, hashed), collecteds) small at =
    let after = contents_of ss ++ padding in
    let len = length-append s.bytes (contents_of ss) in
    let here : drop (data_start + offset) file ≡ s.bytes ++ after =
      at ∙ append_assoc s.bytes (contents_of ss) padding in
    let (verified, copied) =
      reads_lem b file padding data_start (offset + s.size) ss collecteds
        (omega (arith, small, len, sized)) (next_lem file after data_start offset s sized here) in
    let bound : data_start + offset < 2 ^ 64 = omega (arith, small) in
    (
      rw
          (
            entry_lem file after data_start offset s "Bundle file data is truncated" sized bound
                here,
            (bytes_eq_iff (b.blake3 s.bytes) s.blake3_hash).1 hashed,
            verified,
          )
          refl,
      rw
          (
            entry_lem file after data_start offset s
                (String.◌++◌ "File data truncated for: " s.relative_path) sized bound here,
            copied,
          )
          refl,
    )
