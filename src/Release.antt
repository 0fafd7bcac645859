-- ===== src/Release.antt =====
-- crates/lvau-core/src/release.rs: the metadata that is attached to a finished capsule. A file stands for its
-- bytes; the functions return the bytes that they write.
pub mod Attach
use lvau.Base.{Option, none, some, drop, String}
use lvau.Base.Bytes.{Bytes}
use lvau.Error.{Result, ok, ◌>>=◌, IoErrorKind}
use lvau.Envelope.{Envelope, ReleaseMetadata}
use lvau.Capsule.{Backend}
use lvau.Artifact.{decode_capsule_envelope, encode_capsule}

pub data ReleaseError : Type 0 where
  io : IoErrorKind → ReleaseError
  serialization : String → ReleaseError
  envelope_error : ReleaseError

abbrev pub with_release : Envelope → ReleaseMetadata → Envelope
with_release e metadata = record e { release_metadata = some metadata }

unfoldable pub attach_release_metadata :
    Backend
    → Option String
    → Option String
    → Option String
    → Option String
    → Bytes
    → Result Bytes ReleaseError
attach_release_metadata b project_name version git_commit build_timestamp file = do
  let metadata : ReleaseMetadata = record {
    project_name = project_name;
    version = version;
    git_commit = git_commit;
    build_timestamp = build_timestamp;
  }
  (e, envelope_end) ← decode_capsule_envelope b envelope_error file
  encode_capsule b serialization envelope_error (with_release e metadata) (drop envelope_end file)

abbrev pub with_recovery : Envelope → Bytes → Envelope
with_recovery e recovery = record e { recovery_metadata = some recovery }

unfoldable pub attach_recovery_metadata : Backend → Bytes → Bytes → Result Bytes ReleaseError
attach_recovery_metadata b recovery file = do
  (e, envelope_end) ← decode_capsule_envelope b envelope_error file
  encode_capsule b serialization envelope_error (with_recovery e recovery) (drop envelope_end file)
