-- ===== src/Bundle/RoundTrip.antt =====
-- What is packed is extracted again.
use lvau.Base.{
  take_front, drop_front, take_first, drop_first, ℕ, ◌+◌, ◌-◌, ◌≤◌, ◌<◌, ◌≡◌, ◌≢◌, refl, sym, ap,
  ◌∙◌, true, false, not, ◌&&◌, Option, List, [], ◌∷◌, ◌++◌, append_assoc, String, length, take,
  drop, replicate, is_empty, any, leb, ltb, ltb→lt, ◌==◌, arith, All, ◌^◌, length-append, drop-drop,
}
use lvau.Base.Bytes.{
  Bytes, bytes_eq, to_le_bytes, from_le_bytes, length-to_le_bytes, from_le_bytes-to_le_bytes,
}
use lvau.Error.{ok_injective, ok, require, map_err, >>=-eq-ok, map_err-eq-ok, require-eq-ok}
use lvau.Envelope.{BundleManifest}
use lvau.Bundle.{serialization, manifest_error, PaddingProfile}
use lvau.Bundle.Manifest.{
  BundleBackend, SourceFile, max_bundle_manifest_size, build_entries, build_manifest, copy_sources,
  padding_target, pack_sources, decode_manifest, validate_layout, DecryptedBundle, open_plaintext,
  verify_entries, verify_all, copy_entries, extract_plaintext,
}
use lvau.Bundle.Disjoint.{Pairwise}
use lvau.Bundle.Laid.{
  entries_from, contents_of, IsCollected, build_entries-eq-ok, copy_sources-eq-ok, key_of_source,
  IsAccepted, checks_lem, windows_from,
}
use lvau.Bundle.Reads.{files_of, reads_lem}

-- The serialiser of manifests reads this one back.
abbrev pub DecodesManifest : BundleBackend → BundleManifest → Type 0
DecodesManifest b m =
    (bytes : Bytes) → b.encode_manifest m ≡ ok bytes → b.take_manifest bytes ≡ ok (m, [])

-- What `pack_sources` has written.
record Packed (b : BundleBackend) (sources : List SourceFile) (manifest : BundleManifest)
    (file : Bytes) : Type 0 where
  pub bytes : Bytes
  pub padding : Bytes
  pub entries_eq : manifest.entries ≡ entries_from 0 sources
  pub encodes : b.encode_manifest manifest ≡ ok bytes
  pub sized : (not (is_empty bytes) && leb (length bytes) max_bundle_manifest_size) ≡ true
  pub small : length bytes < 2 ^ 32
  pub collected : All (IsCollected b) sources
  pub whole : file ≡ to_le_bytes 4 (length bytes) ++ (bytes ++ (contents_of sources ++ padding))

manifest_entries :
    (created_at tool_version : Option String) (sources : List SourceFile)
    (manifest : BundleManifest)
    → build_manifest created_at tool_version sources ≡ ok manifest
    → manifest.entries ≡ entries_from 0 sources
unfolding build_manifest
manifest_entries created_at tool_version sources manifest h =
    let (entries, c, h1) = >>=-eq-ok (build_entries 0 sources) _ h in
    ap (λ m. m.entries) (ok_injective (ok manifest) refl (sym h1))
    ∙ build_entries-eq-ok 0 sources entries c

append_twice : (f m c p : Bytes) → (f ++ (m ++ c)) ++ p ≡ f ++ (m ++ (c ++ p))
append_twice f m c p = append_assoc f (m ++ c) p ∙ ap (λ t. f ++ t) (append_assoc m c p)

pack_sources-Packed :
    (b : BundleBackend) (profile : PaddingProfile) (created_at tool_version : Option String)
    (sources : List SourceFile) (manifest : BundleManifest) (file : Bytes)
    → pack_sources b profile created_at tool_version sources ≡ ok (manifest, file)
    → Packed b sources manifest file
unfolding pack_sources
pack_sources-Packed b profile created_at tool_version sources manifest file h =
    let (m, c1, h1) = >>=-eq-ok (build_manifest created_at tool_version sources) _ h in
    let (bytes, c2, h2) = >>=-eq-ok (map_err serialization (b.encode_manifest m)) _ h1 in
    let (_, c3, h3) =
      >>=-eq-ok
        (require (not (is_empty bytes) && leb (length bytes) max_bundle_manifest_size)
          (manifest_error "Bundle manifest exceeds the supported limit"))
        _ h2 in
    let (_, c4, h4) =
      >>=-eq-ok (require (ltb (length bytes) (2 ^ 32)) (manifest_error "Manifest size overflow")) _
        h3 in
    let (contents, c5, h5) = >>=-eq-ok (copy_sources b sources) _ h4 in
    let plaintext = to_le_bytes 4 (length bytes) ++ (bytes ++ contents) in
    let (target, c6, h6) = >>=-eq-ok (padding_target (length plaintext) profile) _ h5 in
    let padding = replicate (target - length plaintext) 0 in
    let both = ok_injective (ok (manifest, file)) refl (sym h6) in
    let same : manifest ≡ m = ap (λ p. p.0) both in
    let (contents_eq, collected) = copy_sources-eq-ok b sources contents c5 in
    record {
      bytes = bytes;
      padding = padding;
      entries_eq = ap (λ x. x.entries) same ∙ manifest_entries created_at tool_version sources m c1;
      encodes = ap b.encode_manifest same ∙ map_err-eq-ok serialization (b.encode_manifest m) c2;
      sized = require-eq-ok _ _ c3;
      small = ltb→lt (length bytes) (2 ^ 32) (require-eq-ok _ _ c4);
      collected = collected;
      whole =
          ap (λ p. p.1) both
          ∙ append_twice (to_le_bytes 4 (length bytes)) bytes contents padding
          ∙ ap (λ t. to_le_bytes 4 (length bytes) ++ (bytes ++ (t ++ padding))) contents_eq;
    }

nonempty :
    (xs : Bytes)
    → (not (is_empty xs) && leb (length xs) max_bundle_manifest_size) ≡ true
    → (not (length xs == 0) && leb (length xs) max_bundle_manifest_size) ≡ true
nonempty [] k = absurd (cc)
nonempty (x ∷ xs) k = ground arith

All-fresh :
    (b : BundleBackend) (sources : List SourceFile)
    → All (λ s. any (bytes_eq (key_of_source b s)) [] ≡ false) sources
All-fresh b [] = tt
All-fresh b (s ∷ ss) = (refl, All-fresh b ss)

-- The layout of what was packed is accepted.
layout_lem :
    (b : BundleBackend) (sources : List SourceFile) (manifest : BundleManifest)
    (data_start payload_len : ℕ)
    → All IsAccepted sources
    → Pairwise (λ s t. key_of_source b s ≢ key_of_source b t) sources
    → All (IsCollected b) sources
    → manifest.entries ≡ entries_from 0 sources
    → data_start + 0 + length (contents_of sources) ≤ payload_len
    → payload_len < 2 ^ 64
    → validate_layout b manifest data_start payload_len ≡ ok tt
unfolding validate_layout
layout_lem b sources manifest data_start payload_len accepted distinct collected entries fits
      small =
    rw
      (
        entries,
        checks_lem b data_start payload_len 0 [] sources accepted collected (All-fresh b sources)
            distinct fits small,
      )
      (windows_from data_start 0 sources)

-- What opening the packed plaintext gives.
record Opened (b : BundleBackend) (sources : List SourceFile) (manifest : BundleManifest)
    (file : Bytes) : Type 0 where
  pub bundle : DecryptedBundle
  pub opens : open_plaintext b file ≡ ok bundle
  pub file_eq : bundle.file ≡ file
  pub manifest_eq : bundle.manifest ≡ manifest
  pub layout : validate_layout b manifest bundle.data_start bundle.payload_len ≡ ok tt
  pub reads :
      (verify_entries b file bundle.data_start (entries_from 0 sources) ≡ ok tt)
      × (copy_entries file bundle.data_start (entries_from 0 sources) ≡ ok (files_of sources))

open_lem :
    (b : BundleBackend) (sources : List SourceFile) (manifest : BundleManifest) (file : Bytes)
    → All IsAccepted sources
    → Pairwise (λ s t. key_of_source b s ≢ key_of_source b t) sources
    → DecodesManifest b manifest
    → length file < 2 ^ 64
    → Packed b sources manifest file
    → Opened b sources manifest file
unfolding open_plaintext decode_manifest
open_lem b sources manifest file accepted distinct codec bound p =
    let n = length p.bytes in
    let field = to_le_bytes 4 n in
    let rest = contents_of sources ++ p.padding in
    let four : length field ≡ 4 = length-to_le_bytes 4 n in
    let first : take 4 file ≡ field =
      ap (take 4) p.whole ∙ take_first field (p.bytes ++ rest) 4 four in
    let behind : drop 4 file ≡ p.bytes ++ rest =
      ap (drop 4) p.whole ∙ drop_first field (p.bytes ++ rest) 4 four in
    let second : take n (drop 4 file) ≡ p.bytes = ap (take n) behind ∙ take_front p.bytes rest in
    let value : from_le_bytes field ≡ n = from_le_bytes-to_le_bytes 4 n (omega (arith, p.small)) in
    let total : length file ≡ 4 + n + length (contents_of sources) + length p.padding =
      ap length p.whole
      ∙ omega (
        arith,
        four,
        length-append {0} field (p.bytes ++ rest),
        length-append {0} p.bytes rest,
        length-append {0} (contents_of sources) p.padding,
      ) in
    let large : ltb (length file) 4 ≡ false = ground (arith, total) in
    let room : leb (4 + n) (length file) ≡ true = ground (arith, total) in
    let layout =
      layout_lem b sources manifest (4 + n) (length file) accepted distinct p.collected p.entries_eq
        (omega (arith, total)) bound in
    let at : drop (4 + n + 0) file ≡ rest =
      ap (λ k. drop k file) {x = 4 + n + 0} {y = 4 + n} (omega arith)
      ∙ sym (drop-drop n 4 file)
      ∙ ap (drop n) behind
      ∙ drop_front p.bytes rest in
    record {
      bundle = record {
        file = file;
        manifest = manifest;
        data_start = 4 + n;
        payload_len = length file;
      };
      opens =
          rw
            (
              large,
              first,
              value,
              nonempty p.bytes p.sized,
              room,
              second,
              codec p.bytes p.encodes,
              layout,
            )
            refl;
      file_eq = refl;
      manifest_eq = refl;
      layout = layout;
      reads =
          reads_lem b file p.padding (4 + n) 0 sources p.collected (omega (arith, total, bound)) at;
    }

-- A plaintext that `pack_directory` makes from collected files, under any padding, is extracted to the manifest
-- that was packed and to the same files with the same bytes, in order; all checks of the layout and of the hashes
-- pass on the way. The files' paths are accepted ones, no two of them alike in lower case; the plaintext is shorter
-- than 2^64 bytes; and the serialiser reads this manifest back.
pub extract_plaintext-pack_sources :
    (b : BundleBackend) (profile : PaddingProfile) (created_at tool_version : Option String)
    (sources : List SourceFile) (manifest : BundleManifest) (file : Bytes)
    → All IsAccepted sources
    → Pairwise (λ s t. key_of_source b s ≢ key_of_source b t) sources
    → DecodesManifest b manifest
    → length file < 2 ^ 64
    → pack_sources b profile created_at tool_version sources ≡ ok (manifest, file)
    → extract_plaintext b file ≡ ok (manifest, files_of sources)
unfolding extract_plaintext verify_all
extract_plaintext-pack_sources b profile created_at tool_version sources manifest file accepted
      distinct codec bound packed =
    let p = pack_sources-Packed b profile created_at tool_version sources manifest file packed in
    let o = open_lem b sources manifest file accepted distinct codec bound p in
    let (verified, copied) = o.reads in
    rw (o.opens, o.file_eq, o.manifest_eq, o.layout, p.entries_eq, verified, copied) refl
