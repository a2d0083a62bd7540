-- ===== src/Client.antt =====
-- Clients and their redirect URIs, of authzoo-oauth/src/client_metadata.rs. `Url::parse` is a
-- parameter. A slice at a found place is the part before or from the first such character.
pub mod Ports
pub mod Redirects
use authzoo.Common.{
  ℕ, Bool, true, false, not, ◌&&◌, ◌||◌, Option, none, some, List, Text, text, text_beq, any, all,
  is_empty, nat_beq, bytes, strip_prefix, starts_with, before_first, from_first, split_after,
  is_ascii_digit, if◌then◌else◌, ◌++◌,
}
use authzoo.Url.{Url, Urls, is_some, is_none, is_loopback_host}

pub data ApplicationType : Type 0 where
  web native : ApplicationType

pub record Client : Type 0 where
  pub client_id : Text
  pub name : Text
  pub redirect_uris : List Text
  pub cimd : Bool
  pub application_type : ApplicationType

-- `['/', '?', '#']`.
abbrev pub ends_authority : ℕ → Bool
ends_authority c = nat_beq c 47 || nat_beq c 63 || nat_beq c 35

abbrev pub is_colon : ℕ → Bool
is_colon c = nat_beq c 58

abbrev pub is_closing : ℕ → Bool
is_closing c = nat_beq c 93

-- `&authority[..host_end]` and `&authority[host_end..]`.
unfoldable pub split_host : Text → Option (Text × Text)
split_host authority =
    if starts_with (text "[") authority
    then split_after is_closing authority
    else some (before_first is_colon authority, from_first is_colon authority)

abbrev pub is_number : Text → Bool
is_number number = not (is_empty number) && all is_ascii_digit (bytes number)

-- The check of `port`: nothing, or a colon and digits.
unfoldable pub is_port : Text → Bool
is_port port =
    is_empty port
    || elim (strip_prefix (text ":") port) [ none ↦ false | some number ↦ is_number number ]

-- The result, from the host, the port and the rest.
abbrev pub rejoin : Text → Option (Text × Text) → Option Text
rejoin rest none = none
rejoin rest (some (host, port)) =
    if is_port port then some (text "http://" ++ host ++ rest) else none

abbrev pub without_port : Option Text → Option Text
without_port none = none
without_port (some remainder) =
    rejoin (from_first ends_authority remainder)
      (split_host (before_first ends_authority remainder))

module _ (urls : Urls) where
  abbrev pub is_redirect : Text → Url → Bool
  is_redirect uri url =
      not (any (λ c. nat_beq c 42) uri)
      && is_some url.host_str
      && is_none url.fragment
      && is_empty url.username
      && is_none url.password
      && (text_beq url.scheme (text "https")
          || (text_beq url.scheme (text "http") && is_loopback_host url.host))

  -- `valid_redirect`.
  unfoldable pub valid_redirect : Text → Bool
  valid_redirect uri = elim (urls.parse uri) [ none ↦ false | some url ↦ is_redirect uri url ]

  -- The part of `loopback_without_port` that parses the URI again.
  abbrev pub is_loopback_url : Option Url → Bool
  is_loopback_url none = false
  is_loopback_url (some url) = is_loopback_host url.host

  -- `loopback_without_port`.
  unfoldable pub loopback_without_port : Text → Option Text
  loopback_without_port uri =
      if valid_redirect uri && is_loopback_url (urls.parse uri)
      then without_port (strip_prefix (text "http://") uri)
      else none

  abbrev pub are_same : Option Text → Option Text → Bool
  are_same (some registered) (some requested) = text_beq registered requested
  are_same _ _ = false

  -- The closure of `allows_redirect`.
  unfoldable pub allows_registered : ApplicationType → Text → Text → Bool
  allows_registered web requested registered = text_beq registered requested
  allows_registered native requested registered =
      text_beq registered requested
      || are_same (loopback_without_port registered) (loopback_without_port requested)

  -- `Client::allows_redirect`.
  unfoldable pub allows_redirect : Client → Text → Bool
  allows_redirect client requested =
      any (allows_registered client.application_type requested) client.redirect_uris
