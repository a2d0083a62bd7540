-- ===== src/Metadata/Logs.antt =====
-- What the log lines of authzoo-oauth/src/client_metadata.rs show of a client's identifier.
use authzoo.Common.{
  Bool, true, ◌&&◌, ◌≡◌, ◌≤◌, inl, inr, Bool-cases, Option-cases, Option, none, some, [], Text,
  text, is_empty, is_empty_iff, leb, leb→le, len, if◌then◌else◌, arith,
}
use authzoo.Url.{Url, Urls, is_none, is_none_iff}

-- The filter of `log_client_id`.
unfoldable pub is_loggable : Text → Url → Bool
is_loggable id url =
    leb (len id) 2048
    && is_empty url.username
    && is_none url.password
    && is_none url.query
    && is_none url.fragment

abbrev pub invalid_client_url : Text
invalid_client_url = text "<invalid client URL>"

unfoldable pub shown : Urls → Text → Option Url → Text
shown urls id none = invalid_client_url
shown urls id (some url) = if is_loggable id url then urls.to_string url else invalid_client_url

-- `log_client_id`.
unfoldable pub log_client_id : Urls → Text → Text
log_client_id urls id = shown urls id (urls.parse id)

-- A URL without the parts that can hold secrets, from an identifier of bounded length.
pub record IsLoggable (id : Text) (url : Url) : Type 0 where
  pub bounded : len id ≤ 2048
  pub username : url.username ≡ []
  pub password : url.password ≡ none
  pub query : url.query ≡ none
  pub fragment : url.fragment ≡ none

-- The text that is logged for an identifier.
pub data Logged (urls : Urls) (id : Text) : Text → Type 0 where
  hidden : Logged urls id invalid_client_url
  clean :
      {url : Url}
      → urls.parse id ≡ some url
      → IsLoggable id url
      → Logged urls id (urls.to_string url)

is_loggable-IsLoggable : (id : Text) (url : Url) → is_loggable id url ≡ true → IsLoggable id url
unfolding is_loggable
is_loggable-IsLoggable id url h = record {
  bounded = leb→le (len id) 2048 (ground arith);
  username = (is_empty_iff url.username).0 (ground arith);
  password = (is_none_iff url.password).0 (ground arith);
  query = (is_none_iff url.query).0 (ground arith);
  fragment = (is_none_iff url.fragment).0 (ground arith);
}

-- `log_client_id` shows a fixed text, or the URL that the identifier, of at most 2048 bytes, parses
-- as, when that URL has no user name, password, query or fragment.
pub log_client_id-Logged : (urls : Urls) (id : Text) → Logged urls id (log_client_id urls id)
unfolding log_client_id shown
log_client_id-Logged urls id = elim (Option-cases (urls.parse id)) [
  | inl malformed ↦ rw malformed hidden
  | inr (url, parsed) ↦ elim (Bool-cases (is_loggable id url)) [
    | inl loggable ↦ rw (parsed, loggable) (clean parsed (is_loggable-IsLoggable id url loggable))
    | inr secret ↦ rw (parsed, secret) hidden
  ]
]
