-- ===== src/Bundle.antt =====
-- crates/lvau-core/src/bundle.rs: errors, profiles and the check of a relative path, with the components of a path
-- as the standard library gives them on Unix. The children model crates/lvau-core/src/bundle_stream.rs.
pub mod Path
pub mod Manifest
pub mod Round
pub mod Layout
pub mod Disjoint
pub mod Laid
pub mod Reads
pub mod RoundTrip
pub mod Padding
use lvau.Base.{
  ℕ, Bool, true, false, not, ◌&&◌, ◌||◌, Option, none, some, List, [], ◌∷◌, String, is_empty, all,
  any, ltb, ◌==◌, if◌then◌else◌,
}
use Prim.Native.String
use lvau.Base.Bytes.{Bytes, codes, bytes_eq}
use lvau.Error.{Result, ok, ◌>>=◌, ◌>>◌, require, IoErrorKind, CryptoError}

pub data BundleError : Type 0 where
  io : IoErrorKind → BundleError
  crypto : CryptoError → BundleError
  serialization : String → BundleError
  path_traversal symlink_rejected hardlink_rejected special_file_rejected : String → BundleError
  output_exists manifest_error walk_error input_dir_not_found : String → BundleError

pub data PaddingProfile : Type 0 where
  unpadded bucket : PaddingProfile
  fixed : ℕ → PaddingProfile

-- `std::path::Component`; there is no `Prefix` on Unix.
pub data Component : Type 0 where
  root_dir cur_dir parent_dir : Component
  normal : Bytes → Component

-- `/`, `\` and `:`
abbrev pub slash : ℕ
slash = 47

abbrev pub backslash : ℕ
backslash = 92

abbrev colon : ℕ
colon = 58

abbrev push : ℕ → List Bytes → List Bytes
push c [] = (c ∷ []) ∷ []
push c (s ∷ ss) = (c ∷ s) ∷ ss

-- The segments between separators, empty ones too.
unfoldable pub split_on : ℕ → Bytes → List Bytes
split_on separator [] = [] ∷ []
split_on separator (c ∷ cs) =
    let rest = split_on separator cs in if c == separator then [] ∷ rest else push c rest

unfoldable pub component_of : Bytes → Option Component
component_of segment =
    if is_empty segment || bytes_eq segment (codes ".")
    then none
    else if bytes_eq segment (codes "..")
    then some parent_dir
    else some (normal segment)

-- At the beginning of a path that is not empty, an empty segment is the root and a dot is kept.
unfoldable pub first_component : Bytes → Option Component
first_component segment =
    if is_empty segment
    then some root_dir
    else if bytes_eq segment (codes ".")
    then some cur_dir
    else component_of segment

abbrev pub cons_some : Option Component → List Component → List Component
cons_some none cs = cs
cons_some (some c) cs = c ∷ cs

unfoldable pub later_components : List Bytes → List Component
later_components [] = []
later_components (s ∷ ss) = cons_some (component_of s) (later_components ss)

unfoldable pub components_of : List Bytes → List Component
components_of [] = []
components_of (s ∷ ss) = cons_some (first_component s) (later_components ss)

-- `Path::components`
unfoldable pub components : Bytes → List Component
components path = if is_empty path then [] else components_of (split_on slash path)

abbrev pub is_normal : Component → Bool
is_normal (normal s) = true
is_normal _ = false

-- `path.starts_with('/')`; on Unix it is `is_absolute` too.
unfoldable pub starts_with : ℕ → Bytes → Bool
starts_with c [] = false
starts_with c (d ∷ ds) = d == c

-- `path.len() >= 2 && path.as_bytes()[1] == b':'`: a colon is the second byte where the first character is ASCII.
unfoldable pub is_drive : Bytes → Bool
is_drive (a ∷ b ∷ rest) = ltb a 128 && b == colon
is_drive _ = false

unfoldable pub validate_relative_path : String → Result Bytes BundleError
validate_relative_path path = do
  let cs = codes path
  require (not (is_empty cs || any (λ c. c == backslash) cs))
      (path_traversal (String.◌++◌ "Empty or non-canonical path rejected: " path))
  require (not (starts_with slash cs || starts_with backslash cs))
      (path_traversal (String.◌++◌ "Absolute or leading-separator path rejected: " path))
  require (not (is_drive cs)) (path_traversal (String.◌++◌ "Windows drive path rejected: " path))
  require (all is_normal (components cs))
      (path_traversal (String.◌++◌ "Non-canonical path component rejected: " path))
  ok cs
