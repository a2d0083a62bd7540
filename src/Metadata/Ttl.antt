-- ===== src/Metadata/Ttl.antt =====
-- How long a metadata document may be kept: `cache_ttl` of authzoo-oauth/src/client_metadata.rs.
use authzoo.Common.{
  ℕ, Bool, ◌||◌, Option, none, some, List, [], ◌∷◌, Text, text, text_beq, any, map, text_eq, leb,
  nat_beq, trim, split, trim_matches, to_ascii_lowercase, strip_prefix, parse_u64, if◌then◌else◌,
}

abbrev pub is_uncached : Text → Bool
is_uncached d =
    text_beq (to_ascii_lowercase d) (text "no-store")
    || text_beq (to_ascii_lowercase d) (text "no-cache")

-- `find_map` over the directives.
unfoldable pub max_age : List Text → Option ℕ
max_age [] = none
max_age (d ∷ ds) = elim (strip_prefix (text "max-age=") (to_ascii_lowercase d)) [
  | none ↦ max_age ds
  | some n ↦ elim (parse_u64 (trim_matches (λ c. nat_beq c 34) n)) [
    | some seconds ↦ some seconds
    | none ↦ max_age ds
  ]
]

abbrev pub seconds_or_default : Option ℕ → ℕ
seconds_or_default none = 300
seconds_or_default (some n) = if leb n 300 then n else 300

-- `cache_ttl`, in seconds.
unfoldable pub cache_ttl : Text → ℕ
cache_ttl header =
    let directives = map trim (split 44 header) in
    if any is_uncached directives then 0 else seconds_or_default (max_age directives)
