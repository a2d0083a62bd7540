-- ===== src/Url.antt =====
-- What authzoo-oauth/src uses of `std::net` and of the crate url. An address is its octets or its
-- segments. A `Url` is the results of its accessors; the functions are a parameter, `Urls`.
use authzoo.Common.{
  ◌≡◌, ◌↔◌, refl, arith, ℕ, Bool, ◌&&◌, ◌||◌, not, nat_beq, leb, Option, none, some, List, Text,
  false, true, text, text_beq,
}

pub record Ipv4Addr : Type 0 where
  pub a : ℕ
  pub b : ℕ
  pub c : ℕ
  pub d : ℕ

pub record Ipv6Addr : Type 0 where
  pub s0 : ℕ
  pub s1 : ℕ
  pub s2 : ℕ
  pub s3 : ℕ
  pub s4 : ℕ
  pub s5 : ℕ
  pub s6 : ℕ
  pub s7 : ℕ

pub data IpAddr : Type 0 where
  v4 : Ipv4Addr → IpAddr
  v6 : Ipv6Addr → IpAddr

-- The tests of `std::net::Ipv4Addr`.
abbrev pub is_unspecified : Ipv4Addr → Bool
is_unspecified ip = nat_beq ip.a 0 && nat_beq ip.b 0 && nat_beq ip.c 0 && nat_beq ip.d 0

abbrev pub is_loopback : Ipv4Addr → Bool
is_loopback ip = nat_beq ip.a 127

abbrev pub is_private : Ipv4Addr → Bool
is_private ip =
    nat_beq ip.a 10
    || (nat_beq ip.a 172 && leb 16 ip.b && leb ip.b 31)
    || (nat_beq ip.a 192 && nat_beq ip.b 168)

abbrev pub is_link_local : Ipv4Addr → Bool
is_link_local ip = nat_beq ip.a 169 && nat_beq ip.b 254

abbrev pub is_multicast : Ipv4Addr → Bool
is_multicast ip = leb 224 ip.a && leb ip.a 239

abbrev pub is_broadcast : Ipv4Addr → Bool
is_broadcast ip = nat_beq ip.a 255 && nat_beq ip.b 255 && nat_beq ip.c 255 && nat_beq ip.d 255

abbrev pub is_documentation : Ipv4Addr → Bool
is_documentation ip =
    (nat_beq ip.a 192 && nat_beq ip.b 0 && nat_beq ip.c 2)
    || (nat_beq ip.a 198 && nat_beq ip.b 51 && nat_beq ip.c 100)
    || (nat_beq ip.a 203 && nat_beq ip.b 0 && nat_beq ip.c 113)

-- `Ipv6Addr::is_loopback`: `::1`.
abbrev pub is_loopback_v6 : Ipv6Addr → Bool
is_loopback_v6 ip =
    nat_beq ip.s0 0
    && nat_beq ip.s1 0
    && nat_beq ip.s2 0
    && nat_beq ip.s3 0
    && nat_beq ip.s4 0
    && nat_beq ip.s5 0
    && nat_beq ip.s6 0
    && nat_beq ip.s7 1

pub data Host : Type 0 where
  domain : Text → Host
  ipv4 : Ipv4Addr → Host
  ipv6 : Ipv6Addr → Host

pub record Url : Type 0 where
  pub scheme : Text
  pub username : Text
  pub password : Option Text
  pub host : Option Host
  pub host_str : Option Text
  pub port_or_known_default : Option ℕ
  pub path : Text
  pub query : Option Text
  pub fragment : Option Text

pub record Urls : Type 0 where
  -- `Url::parse`, and the `Display` of its error.
  pub parse : Text → Option Url
  pub parse_error : Text → Text
  pub to_string : Url → Text
  -- `query_pairs_mut`, an `append_pair` for each pair, and its drop.
  pub append_pairs : Url → List (Text × Text) → Url

abbrev pub is_some {ℓ} : {A : Type ℓ} → Option A → Bool
is_some none = false
is_some (some a) = true

abbrev pub is_none {ℓ} : {A : Type ℓ} → Option A → Bool
is_none o = not (is_some o)

-- The source's `match` on a host: `localhost` or a loopback address.
abbrev pub is_loopback_host : Option Host → Bool
is_loopback_host none = false
is_loopback_host (some (domain d)) = text_beq d (text "localhost")
is_loopback_host (some (ipv4 ip)) = is_loopback ip
is_loopback_host (some (ipv6 ip)) = is_loopback_v6 ip

pub is_none_iff {ℓ} : {A : Type ℓ} (o : Option A) → (is_none o ≡ true) ↔ (o ≡ none)
is_none_iff none = ground arith
is_none_iff (some a) = ground arith

pub is_some_iff {ℓ} : {A : Type ℓ} (o : Option A) → (is_some o ≡ true) ↔ ((a : A) × (o ≡ some a))
is_some_iff none = ((λ h. cc), λ (a, e). cc)
is_some_iff (some a) = ((λ _. (a, refl)), λ _. refl)
