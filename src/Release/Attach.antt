-- ===== src/Release/Attach.antt =====
-- Attached metadata is there afterwards, and changes nothing else.
use lvau.Base.{ℕ, ◌≡◌, refl, drop, take}
use lvau.Base.Bytes.{Bytes}
use lvau.Error.{ok}
use lvau.Envelope.{Envelope, ReleaseMetadata}
use lvau.Capsule.{Backend}
use lvau.Capsule.RoundTrip.{Decodes}
use lvau.Artifact.{decode_capsule_envelope, encode_capsule}
use lvau.Artifact.Cursor.{decode_capsule_envelope-Parts}
use lvau.Artifact.Repack.{Keeps, decode-Keeps, decode-encode_capsule, OpensAlike, Keeps-OpensAlike}
use lvau.Release.{
  serialization, envelope_error, with_release, with_recovery, attach_release_metadata,
  attach_recovery_metadata,
}

-- A capsule whose envelope was replaced by another: the other is read from it, before the same payload.
pub record Attached (b : Backend) (file file' : Bytes) (e' : Envelope) (rest : Bytes) : Type 0 where
  pub end_ : ℕ
  pub decodes : decode_capsule_envelope b envelope_error file' ≡ ok (e', end_)
  pub payload : drop end_ file' ≡ rest
  pub opens : OpensAlike b file file'

attach_lem :
    (b : Backend) (file file' : Bytes) (e e' : Envelope) (end_ : ℕ)
    → decode_capsule_envelope b envelope_error file ≡ ok (e, end_)
    → Keeps e e'
    → Decodes b e'
    → encode_capsule b serialization envelope_error e' (drop end_ file) ≡ ok file'
    → Attached b file file' e' (drop end_ file)
attach_lem b file file' e e' end_ decoded same codec written =
    let p = decode_capsule_envelope-Parts b envelope_error file e end_ decoded in
    let (end', at, rest) =
      decode-encode_capsule b serialization envelope_error envelope_error e' (drop end_ file) file'
        written
        (λ bytes encodes.
          decode-Keeps b (take p.envelope_len (drop 4 file)) bytes e e' p.decoded same
            (codec bytes encodes)) in
    record {
      end_ = end';
      decodes = at;
      payload = rest;
      opens = Keeps-OpensAlike b envelope_error file file' e e' end_ end' decoded at same rest;
    }

-- A capsule with release metadata attached is accepted again, its envelope is the one before with that metadata,
-- the payload's bytes are unchanged, and it decrypts like the capsule before for every password and every private
-- key. The codec has to read back the envelope with the metadata.
pub attach_release_metadata_lem :
    (b : Backend) (file file' : Bytes) (e : Envelope) (end_ : ℕ) (m : ReleaseMetadata)
    → Decodes b (with_release e m)
    → decode_capsule_envelope b envelope_error file ≡ ok (e, end_)
    → attach_release_metadata b m.project_name m.version m.git_commit m.build_timestamp file
      ≡ ok file'
    → Attached b file file' (with_release e m) (drop end_ file)
unfolding attach_release_metadata
attach_release_metadata_lem b file file' e end_ m codec decoded done =
    attach_lem b file file' e (with_release e m) end_ decoded refl codec (rw decoded at done)

-- A capsule with recovery metadata attached is accepted again, its envelope is the one before with that metadata,
-- the payload's bytes are unchanged, and it decrypts like the capsule before for every password and every private
-- key. The codec has to read back the envelope with the metadata.
pub attach_recovery_metadata_lem :
    (b : Backend) (file file' recovery : Bytes) (e : Envelope) (end_ : ℕ)
    → Decodes b (with_recovery e recovery)
    → decode_capsule_envelope b envelope_error file ≡ ok (e, end_)
    → attach_recovery_metadata b recovery file ≡ ok file'
    → Attached b file file' (with_recovery e recovery) (drop end_ file)
unfolding attach_recovery_metadata
attach_recovery_metadata_lem b file file' recovery e end_ codec decoded done =
    attach_lem b file file' e (with_recovery e recovery) end_ decoded refl codec
      (rw decoded at done)
