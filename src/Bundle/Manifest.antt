-- ===== src/Bundle/Manifest.antt =====
-- crates/lvau-core/src/bundle_stream.rs: the manifest of a bundle, the plaintext that it heads, and how that is
-- opened again. The plaintext is a list of bytes: its copies through a buffer are one step here. BLAKE3, the
-- lower case of a path and the serialiser of manifests are the fields of `BundleBackend`.
use lvau.Base.{
  ℕ, zero, suc, ◌+◌, ◌-◌, ◌*◌, ◌^◌, max, not, ◌&&◌, Option, none, some, List, [], ◌∷◌, ◌++◌, String,
  length, take, drop, replicate, is_empty, any, leb, ltb, ◌==◌, if◌then◌else◌,
}
use Prim.Native.String
use lvau.Base.Bytes.{Bytes, codes, bytes_eq, to_le_bytes, from_le_bytes}
use lvau.Error.{Result, ok, ◌>>=◌, ◌>>◌, require, ok_or, map_err}
use lvau.Envelope.{BundleEntry, BundleManifest}
use lvau.Bundle.{
  BundleError, serialization, manifest_error, PaddingProfile, unpadded, bucket, fixed,
  validate_relative_path,
}

pub record BundleBackend : Type 0 where
  pub blake3 : Bytes → Bytes
  -- `str::to_lowercase`
  pub lower : String → String
  -- postcard: the encoding of a manifest, and its decoding with the bytes that follow
  pub encode_manifest : BundleManifest → Result Bytes String
  pub take_manifest : Bytes → Result (BundleManifest × Bytes) String

abbrev pub max_bundle_manifest_size : ℕ
max_bundle_manifest_size = 16 * 1024 * 1024

-- A file that was collected, with the bytes that stand at its absolute path.
pub record SourceFile : Type 0 where
  pub relative_path : String
  pub absolute_path : String
  pub bytes : Bytes
  pub size : ℕ
  pub blake3_hash : Bytes

-- `a.checked_add(b).ok_or_else(…)` on 64 bits
unfoldable pub checked_sum : ℕ → ℕ → String → Result ℕ BundleError
checked_sum a b message = do require (ltb (a + b) (2 ^ 64)) (manifest_error message); ok (a + b)

-- The loop of `build_manifest`, from the offset reached.
unfoldable pub build_entries : ℕ → List SourceFile → Result (List BundleEntry) BundleError
build_entries offset [] = ok []
build_entries offset (source ∷ rest) = do
  next ← checked_sum offset source.size "Bundle size overflow"
  entries ← build_entries next rest
  ok (
      record {
        relative_path = source.relative_path;
        size = source.size;
        blake3_hash = source.blake3_hash;
        offset = offset;
      }
      ∷ entries)

-- The time and the version of the tool are arguments.
unfoldable pub build_manifest :
    Option String → Option String → List SourceFile → Result BundleManifest BundleError
build_manifest created_at tool_version sources = do
  entries ← build_entries 0 sources
  ok (record { entries = entries; created_at = created_at; tool_version = tool_version })

-- The checks of `copy_source_checked` against the bytes that the file has by then, here those collected.
unfoldable pub copy_source_checked : BundleBackend → SourceFile → Result Bytes BundleError
copy_source_checked b source = do
  require (length source.bytes == source.size)
      (manifest_error (String.◌++◌ "Input size changed during packing: " source.absolute_path))
  require (bytes_eq (b.blake3 source.bytes) source.blake3_hash)
      (manifest_error (String.◌++◌ "Input changed during packing: " source.absolute_path))
  ok source.bytes

unfoldable pub copy_sources : BundleBackend → List SourceFile → Result Bytes BundleError
copy_sources b [] = ok []
copy_sources b (source ∷ rest) = do
  bytes ← copy_source_checked b source
  others ← copy_sources b rest
  ok (bytes ++ others)

-- `checked_next_power_of_two` on 64 bits, by trying the powers in turn from `power` on.
unfoldable pub power_from : ℕ → ℕ → ℕ → Option ℕ
power_from zero power n = none
power_from (suc count) power n =
    let rest = power_from count (2 * power) n in if leb n power then some power else rest

unfoldable pub checked_next_power_of_two : ℕ → Option ℕ
checked_next_power_of_two n = power_from 64 1 n

unfoldable pub padding_target : ℕ → PaddingProfile → Result ℕ BundleError
padding_target current_len unpadded = ok current_len
padding_target current_len bucket =
    ok_or (checked_next_power_of_two current_len) (manifest_error "Padding size overflow")
padding_target current_len (fixed size) = ok (max current_len size)

-- `pack_directory` from the collected sources to the plaintext that it encrypts.
unfoldable pub pack_sources :
    BundleBackend
    → PaddingProfile
    → Option String
    → Option String
    → List SourceFile
    → Result (BundleManifest × Bytes) BundleError
pack_sources b padding created_at tool_version sources = do
  manifest ← build_manifest created_at tool_version sources
  manifest_bytes ← map_err serialization (b.encode_manifest manifest)
  require (not (is_empty manifest_bytes) && leb (length manifest_bytes) max_bundle_manifest_size)
      (manifest_error "Bundle manifest exceeds the supported limit")
  require (ltb (length manifest_bytes) (2 ^ 32)) (manifest_error "Manifest size overflow")
  contents ← copy_sources b sources
  let plaintext = to_le_bytes 4 (length manifest_bytes) ++ (manifest_bytes ++ contents)
  target_len ← padding_target (length plaintext) padding
  ok (manifest, plaintext ++ replicate (target_len - length plaintext) 0)

unfoldable pub decode_manifest : BundleBackend → Bytes → Result BundleManifest BundleError
decode_manifest b bytes = do
  (manifest, remaining) ← map_err serialization (b.take_manifest bytes)
  require (is_empty remaining) (manifest_error "Manifest contains trailing non-canonical bytes")
  ok manifest

-- A range of the plaintext that a file takes, with the file's path.
pub record Range : Type 0 where
  pub start : ℕ
  pub end_ : ℕ
  pub path : String

-- The loop of `validate_layout` over the entries: the lower-case paths seen so far come with it.
unfoldable pub check_entries :
    BundleBackend → ℕ → ℕ → List Bytes → List BundleEntry → Result (List Range) BundleError
check_entries b data_start payload_len seen [] = ok []
check_entries b data_start payload_len seen (entry ∷ rest) = do
  _ ← validate_relative_path entry.relative_path
  let key = codes (b.lower entry.relative_path)
  require (not (any (bytes_eq key) seen)) (
      manifest_error
        (String.◌++◌ "Duplicate or cross-platform-colliding path: " entry.relative_path))
  start ← checked_sum data_start entry.offset "File offset overflow"
  end_ ← checked_sum start entry.size "File size overflow"
  require (leb end_ payload_len)
      (manifest_error (String.◌++◌ "File data truncated for: " entry.relative_path))
  ranges ← check_entries b data_start payload_len (key ∷ seen) rest
  ok (
      if start == end_
      then ranges
      else record { start = start; end_ = end_; path = entry.relative_path } ∷ ranges)

-- `sort_unstable_by_key`: ranges with one start overlap in either order.
unfoldable pub insert_range : Range → List Range → List Range
insert_range r [] = r ∷ []
insert_range r (s ∷ ss) =
    let rest = insert_range r ss in if leb r.start s.start then r ∷ s ∷ ss else s ∷ rest

unfoldable pub sort_ranges : List Range → List Range
sort_ranges [] = []
sort_ranges (r ∷ rs) = insert_range r (sort_ranges rs)

-- The loop over `windows(2)`.
unfoldable pub check_windows : List Range → Result (Unit {0}) BundleError
check_windows [] = ok tt
check_windows (r ∷ []) = ok tt
check_windows (r ∷ s ∷ rest) = do
  require (leb r.end_ s.start) (
      manifest_error
        (String.◌++◌ "Overlapping file ranges: " (String.◌++◌ r.path (String.◌++◌ " and " s.path))))
  check_windows (s ∷ rest)

unfoldable pub validate_layout :
    BundleBackend → BundleManifest → ℕ → ℕ → Result (Unit {0}) BundleError
validate_layout b manifest data_start payload_len = do
  ranges ← check_entries b data_start payload_len [] manifest.entries
  check_windows (sort_ranges ranges)

pub record DecryptedBundle : Type 0 where
  pub file : Bytes
  pub manifest : BundleManifest
  pub data_start : ℕ
  pub payload_len : ℕ

-- `decrypt_and_open`, from the decrypted plaintext on.
unfoldable pub open_plaintext : BundleBackend → Bytes → Result DecryptedBundle BundleError
open_plaintext b file = do
  let payload_len = length file
  require (not (ltb payload_len 4)) (manifest_error "Bundle payload is too small")
  let manifest_len = from_le_bytes (take 4 file)
  require (not (manifest_len == 0) && leb manifest_len max_bundle_manifest_size)
      (manifest_error "Bundle manifest size is invalid")
  let data_start = 4 + manifest_len
  require (leb data_start payload_len)
      (manifest_error "Bundle payload is truncated before the manifest ends")
  manifest ← decode_manifest b (take manifest_len (drop 4 file))
  validate_layout b manifest data_start payload_len
  ok (record {
    file = file;
    manifest = manifest;
    data_start = data_start;
    payload_len = payload_len;
  })

-- `hash_reader` and `copy_entry` read as many bytes as the entry has, from where it starts.
unfoldable pub entry_bytes : Bytes → ℕ → BundleEntry → String → Result Bytes BundleError
entry_bytes file data_start entry truncated = do
  start ← checked_sum data_start entry.offset "File offset overflow"
  let bytes = take entry.size (drop start file)
  require (length bytes == entry.size) (manifest_error truncated)
  ok bytes

unfoldable pub verify_entry :
    BundleBackend → Bytes → ℕ → BundleEntry → Result (Unit {0}) BundleError
verify_entry b file data_start entry = do
  bytes ← entry_bytes file data_start entry "Bundle file data is truncated"
  require (bytes_eq (b.blake3 bytes) entry.blake3_hash)
      (manifest_error (String.◌++◌ "BLAKE3 hash mismatch for: " entry.relative_path))

unfoldable pub verify_entries :
    BundleBackend → Bytes → ℕ → List BundleEntry → Result (Unit {0}) BundleError
verify_entries b file data_start [] = ok tt
verify_entries b file data_start (entry ∷ rest) = do
  verify_entry b file data_start entry
  verify_entries b file data_start rest

unfoldable pub verify_all : BundleBackend → DecryptedBundle → Result (Unit {0}) BundleError
verify_all b bundle = do
  validate_layout b bundle.manifest bundle.data_start bundle.payload_len
  verify_entries b bundle.file bundle.data_start bundle.manifest.entries

unfoldable pub copy_entry : Bytes → ℕ → BundleEntry → Result Bytes BundleError
copy_entry file data_start entry =
    entry_bytes file data_start entry (String.◌++◌ "File data truncated for: " entry.relative_path)

unfoldable pub copy_entries :
    Bytes → ℕ → List BundleEntry → Result (List (String × Bytes)) BundleError
copy_entries file data_start [] = ok []
copy_entries file data_start (entry ∷ rest) = do
  bytes ← copy_entry file data_start entry
  others ← copy_entries file data_start rest
  ok ((entry.relative_path, bytes) ∷ others)

-- `extract_bundle`, `list_bundle` and `verify_bundle` from the plaintext on: the first with the files that it
-- would write, each with its path.
unfoldable pub extract_plaintext :
    BundleBackend → Bytes → Result (BundleManifest × List (String × Bytes)) BundleError
extract_plaintext b file = do
  bundle ← open_plaintext b file
  verify_all b bundle
  files ← copy_entries bundle.file bundle.data_start bundle.manifest.entries
  ok (bundle.manifest, files)

unfoldable pub list_plaintext : BundleBackend → Bytes → Result BundleManifest BundleError
list_plaintext b file = do bundle ← open_plaintext b file; verify_all b bundle; ok bundle.manifest
