-- ===== src/Tls/Located.antt =====
-- Where authzoo-server/src/tls.rs looks for the TLS files.
use authzoo.Common.{
  is_empty_iff, filled_iff, Bool, true, false, ◌≡◌, ◌≢◌, ◌⊎◌, inl, inr, refl, Option, none, some,
  List, [], ◌∷◌, ◌++◌, Text, is_empty, trim, Bool-cases, Result, ok, err,
}
use authzoo.Tls.{
  FilePath, path, without_last, parent, behind, join, TlsError, incomplete, both_paths, file_paths,
}

-- The file that a configured text names: an absolute path is itself, another is in the directory of
-- the configuration file.
pub data Located (directory : FilePath) (file : Text) : FilePath → Type 0 where
  absolute : (path file).has_root ≡ true → Located directory file (path file)
  beside :
      {components : List Text}
      → (path file).has_root ≡ false
      → components ≡ behind (path file).components
      → (directory.has_root ≡ true) ⊎ (directory.components ≢ [])
      → Located directory file (record {
        has_root = directory.has_root;
        components = directory.components ++ components;
      })
  here :
      (path file).has_root ≡ false
      → directory.has_root ≡ false
      → directory.components ≡ []
      → Located directory file
          (record { has_root = directory.has_root; components = (path file).components })

-- Settings that name only one file, or a blank one.
pub data Incomplete : Option Text → Option Text → Type 0 where
  no_key : {cert : Text} → Incomplete (some cert) none
  no_certificate : {key : Text} → Incomplete none (some key)
  blank_certificate : {cert key : Text} → trim cert ≡ [] → Incomplete (some cert) (some key)
  blank_key : {cert key : Text} → trim key ≡ [] → Incomplete (some cert) (some key)

-- What comes of the settings, in a directory.
pub data Resolved (directory : FilePath)
    : Option Text → Option Text → Result TlsError (Option (FilePath × FilePath)) → Type 0 where
  disabled : Resolved directory none none (ok none)
  enabled :
      {cert key : Text} {cert_path key_path : FilePath}
      → trim cert ≢ []
      → trim key ≢ []
      → Located directory cert cert_path
      → Located directory key key_path
      → Resolved directory (some cert) (some key) (ok (some (cert_path, key_path)))
  refused :
      {cert key : Option Text} → Incomplete cert key → Resolved directory cert key (err incomplete)

without_last-append : (dir : List Text) (name : Text) → without_last (dir ++ name ∷ []) ≡ some dir
unfolding without_last
without_last-append [] name = refl
without_last-append (c ∷ dir) name = rw (without_last-append dir name) refl

join-relative :
    (root : Bool) (dir : List Text) (file : Text)
    → (path file).has_root ≡ false
    → Located
        (record { has_root = root; components = dir })
        file
        (join (record { has_root = root; components = dir }) (path file))
unfolding join
join-relative true dir file relative = simp relative (beside relative refl (inl refl))
join-relative false [] file relative = simp relative (here relative refl refl)
join-relative false (c ∷ dir) file relative =
    simp relative (beside relative refl (inr ((filled_iff (c ∷ dir)).0 refl)))

join-Located :
    (directory : FilePath) (file : Text) → Located directory file (join directory (path file))
unfolding join
join-Located directory file = elim (Bool-cases (path file).has_root) [
  | inl rooted ↦ simp rooted (absolute rooted)
  | inr relative ↦ join-relative directory.has_root directory.components file relative
]

both_paths-Resolved :
    (cert key : Text) (config_path directory : FilePath)
    → parent config_path ≡ some directory
    → Resolved directory (some cert) (some key) (both_paths cert key config_path)
unfolding both_paths
both_paths-Resolved cert key config_path directory placed =
    elim (Bool-cases (is_empty (trim cert))) [
      | inl e ↦ rw e (refused (blank_certificate ((is_empty_iff (trim cert)).0 e)))
      | inr e ↦ elim (Bool-cases (is_empty (trim key))) [
        | inl f ↦ rw (e, f) (refused (blank_key ((is_empty_iff (trim key)).0 f)))
        | inr f ↦
            rw (e, f, placed)
              (enabled ((filled_iff (trim cert)).0 e) ((filled_iff (trim key)).0 f)
                (join-Located directory cert) (join-Located directory key))
      ]
    ]

parent-eq :
    (config_path : FilePath) (dir : List Text) (name : Text)
    → config_path.components ≡ dir ++ name ∷ []
    → parent config_path ≡ some (record { has_root = config_path.has_root; components = dir })
unfolding parent
parent-eq config_path dir name e = rw (e, without_last-append dir name) refl

-- `file_paths`, for a configuration file `name` in a directory: without settings, TLS is disabled;
-- with both, neither blank, the certificate's and the key's paths are the absolute ones given, or are
-- in the directory of the configuration file; any other settings are refused.
pub file_paths-Resolved :
    (certificate private_key : Option Text) (config_path : FilePath) (dir : List Text) (name : Text)
    → config_path.components ≡ dir ++ name ∷ []
    → Resolved
        (record { has_root = config_path.has_root; components = dir })
        certificate
        private_key
        (file_paths certificate private_key config_path)
unfolding file_paths
file_paths-Resolved none none config_path dir name e = disabled
file_paths-Resolved none (some key) config_path dir name e = refused no_certificate
file_paths-Resolved (some cert) none config_path dir name e = refused no_key
file_paths-Resolved (some cert) (some key) config_path dir name e =
    both_paths-Resolved cert key config_path _ (parent-eq config_path dir name e)
