-- ===== src/Metadata/Lifetime.antt =====
-- How long authzoo-oauth/src/client_metadata.rs keeps a document.
use authzoo.Common.{◌≤◌, ◌≡◌, ◌⊎◌, false, Text, any, map, trim, split, arith}
use authzoo.Metadata.{is_uncached, cache_ttl}

-- No document is kept for more than 300 seconds, and none with a directive against it is kept at all.
pub cache_ttl-bounded :
    (header : Text)
    → (cache_ttl header ≤ 300)
      × ((any is_uncached (map trim (split 44 header)) ≡ false) ⊎ (cache_ttl header ≡ 0))
unfolding cache_ttl
cache_ttl-bounded header = ground arith
