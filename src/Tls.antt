-- ===== src/Tls.antt =====
-- The paths of the TLS files, of authzoo-server/src/tls.rs. A `Path` of the standard library is, on
-- Unix, whether it has a root, and its components, by which std compares paths.
pub mod Located
pub mod Loading
use authzoo.Common.{
  ℕ, Bool, true, false, not, ◌&&◌, ◌||◌, Option, none, some, List, [], ◌∷◌, ◌++◌, Text, text,
  text_beq, is_empty, keep, split, starts_with, trim, if◌then◌else◌, Result, ok, err,
}

pub record FilePath : Type 0 where
  pub has_root : Bool
  pub components : List Text

abbrev pub is_named : Text → Bool
is_named component = not (is_empty component || text_beq component (text "."))

-- A leading `.` is a component, any other is not.
unfoldable pub relative_components : List Text → List Text
relative_components [] = []
relative_components (c ∷ cs) =
    if text_beq c (text ".") then c ∷ keep is_named cs else keep is_named (c ∷ cs)

-- `Path::new`.
unfoldable pub path : Text → FilePath
path s =
    if starts_with (text "/") s
    then record { has_root = true; components = keep is_named (split 47 s) }
    else record { has_root = false; components = relative_components (split 47 s) }

unfoldable pub without_last : List Text → Option (List Text)
without_last [] = none
without_last (c ∷ cs) = elim (without_last cs) [ none ↦ some [] | some init ↦ some (c ∷ init) ]

abbrev pub with_components : Bool → Option (List Text) → Option FilePath
with_components root none = none
with_components root (some cs) = some (record { has_root = root; components = cs })

-- `Path::parent`.
unfoldable pub parent : FilePath → Option FilePath
parent p = with_components p.has_root (without_last p.components)

-- What a relative path's components become behind a path that is not empty.
abbrev pub behind : List Text → List Text
behind [] = []
behind (c ∷ cs) = if text_beq c (text ".") then cs else c ∷ cs

-- `Path::join`.
unfoldable pub join : FilePath → FilePath → FilePath
join p q = if q.has_root then q else record {
  has_root = p.has_root;
  components =
      if p.has_root || not (is_empty p.components)
      then p.components ++ behind q.components
      else q.components;
}

-- The error of `file_paths`.
pub data TlsError : Type 0 where
  incomplete : TlsError

abbrev pub unwrap_or_current : Option FilePath → FilePath
unwrap_or_current none = path (text ".")
unwrap_or_current (some directory) = directory

unfoldable pub both_paths : Text → Text → FilePath → Result TlsError (Option (FilePath × FilePath))
both_paths cert key config_path =
    if not (is_empty (trim cert)) && not (is_empty (trim key))
    then (let directory = unwrap_or_current (parent config_path) in
        ok (some (join directory (path cert), join directory (path key))))
    else err incomplete

unfoldable pub file_paths :
    Option Text → Option Text → FilePath → Result TlsError (Option (FilePath × FilePath))
file_paths none none config_path = ok none
file_paths (some cert) (some key) config_path = both_paths cert key config_path
file_paths _ _ config_path = err incomplete
