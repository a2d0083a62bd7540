-- ===== src/Metadata/Ip.antt =====
-- Which addresses are public: `public_ip` of authzoo-oauth/src/client_metadata.rs.
use authzoo.Common.{ℕ, ◌*◌, ◌/◌, ◌%◌, Bool, not, ◌&&◌, ◌||◌, text_eq, leb, ltb, nat_beq}
use authzoo.Url.{
  Ipv4Addr, Ipv6Addr, IpAddr, v4, v6, is_unspecified, is_loopback, is_private, is_link_local,
  is_multicast, is_broadcast, is_documentation,
}

-- `public_ip`.
abbrev pub is_public_v4 : Ipv4Addr → Bool
is_public_v4 ip =
    not (is_private ip)
    && not (is_loopback ip)
    && not (is_link_local ip)
    && not (is_multicast ip)
    && not (is_broadcast ip)
    && not (is_documentation ip)
    && not (is_unspecified ip)
    && not (nat_beq ip.a 0)
    && ltb ip.a 224
    && not (nat_beq ip.a 100 && leb 64 ip.b && leb ip.b 127)
    && not (nat_beq ip.a 198 && (nat_beq ip.b 18 || nat_beq ip.b 19))
    && not (nat_beq ip.a 192 && nat_beq ip.b 0)

-- `s & 0xe000` keeps the three high bits of sixteen.
abbrev pub high_bits : ℕ → ℕ
high_bits s = ((s % 0x10000) / 0x2000) * 0x2000

abbrev pub is_public_v6 : Ipv6Addr → Bool
is_public_v6 ip =
    nat_beq (high_bits ip.s0) 0x2000
    && not (nat_beq ip.s0 0x2001 && (ltb ip.s1 0x200 || nat_beq ip.s1 0xdb8))
    && not (nat_beq ip.s0 0x2002)
    && not (nat_beq ip.s0 0x3fff && ltb ip.s1 0x1000)

unfoldable pub public_ip : IpAddr → Bool
public_ip (v4 ip) = is_public_v4 ip
public_ip (v6 ip) = is_public_v6 ip
