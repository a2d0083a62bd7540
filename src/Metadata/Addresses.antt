-- ===== src/Metadata/Addresses.antt =====
-- `public_ip` of authzoo-oauth/src/client_metadata.rs against the address blocks that are not public.
use authzoo.Common.{
  ℕ, ◌+◌, ◌*◌, ◌<◌, ◌≡◌, ◌↔◌, ◌⊎◌, Bool, true, false, not, ◌&&◌, ◌||◌, List, [], ◌∷◌, All, leb, ltb,
  nat_beq, arith,
}
use authzoo.Url.{is_multicast, is_broadcast, is_unspecified, Ipv4Addr, Ipv6Addr, IpAddr, v4, v6}
use authzoo.Metadata.{is_public_v4, is_public_v6, public_ip}

-- The first three octets, or the first two segments, as one number.
abbrev pub prefix_v4 : Ipv4Addr → ℕ
prefix_v4 ip = (ip.a * 256 + ip.b) * 256 + ip.c

abbrev pub prefix_v6 : Ipv6Addr → ℕ
prefix_v6 ip = ip.s0 * 65536 + ip.s1

abbrev pub AreOctets : Ipv4Addr → Type 0
AreOctets ip = (ip.a < 256) × (ip.b < 256) × (ip.c < 256) × (ip.d < 256)

abbrev pub AreSegments : Ipv6Addr → Type 0
AreSegments ip = (ip.s0 < 65536) × (ip.s1 < 65536)

abbrev pub IsAddress : IpAddr → Type 0
IsAddress (v4 ip) = AreOctets ip
IsAddress (v6 ip) = AreSegments ip

-- The prefixes of a block, first and last.
abbrev pub Misses : ℕ → ℕ × ℕ → Type 0
Misses n (first, last) = (n < first) ⊎ (last < n)

-- 0.0.0.0/8, 10.0.0.0/8, 100.64.0.0/10, 127.0.0.0/8, 169.254.0.0/16, 172.16.0.0/12, 192.0.0.0/16,
-- 192.168.0.0/16, 198.18.0.0/15, 198.51.100.0/24, 203.0.113.0/24, and 224.0.0.0/3.
abbrev pub reserved_v4 : List (ℕ × ℕ)
reserved_v4 =
    (0x000000, 0x00ffff)
    ∷ (0x0a0000, 0x0affff)
    ∷ (0x644000, 0x647fff)
    ∷ (0x7f0000, 0x7fffff)
    ∷ (0xa9fe00, 0xa9feff)
    ∷ (0xac1000, 0xac1fff)
    ∷ (0xc00000, 0xc000ff)
    ∷ (0xc0a800, 0xc0a8ff)
    ∷ (0xc61200, 0xc613ff)
    ∷ (0xc63364, 0xc63364)
    ∷ (0xcb0071, 0xcb0071)
    ∷ (0xe00000, 0xffffff)
    ∷ []

-- All but 2000::/3, and in it 2001::/23, 2001:db8::/32, 2002::/16 and 3fff::/20.
abbrev pub reserved_v6 : List (ℕ × ℕ)
reserved_v6 =
    (0x00000000, 0x1fffffff)
    ∷ (0x20010000, 0x200101ff)
    ∷ (0x20010db8, 0x20010db8)
    ∷ (0x20020000, 0x2002ffff)
    ∷ (0x3fff0000, 0x3fff0fff)
    ∷ (0x40000000, 0xffffffff)
    ∷ []

abbrev pub IsPublic : IpAddr → Type 0
IsPublic (v4 ip) = All (Misses (prefix_v4 ip)) reserved_v4
IsPublic (v6 ip) = All (Misses (prefix_v6 ip)) reserved_v6

is_public_v6_iff :
    (ip : Ipv6Addr)
    → AreSegments ip
    → (is_public_v6 ip ≡ true) ↔ All (Misses (prefix_v6 ip)) reserved_v6
is_public_v6_iff ip h = ground arith

module _ (a b c : ℕ) (ha : a < 256) (hb : b < 256) (hc : c < 256) where
  abbrev n : ℕ
  n = (a * 256 + b) * 256 + c

  block_0 : (nat_beq a 0 ≡ false) ↔ Misses n (0x000000, 0x00ffff)
  block_0 = ground arith

  block_10 : (nat_beq a 10 ≡ false) ↔ Misses n (0x0a0000, 0x0affff)
  block_10 = ground arith

  block_100 : ((nat_beq a 100 && leb 64 b && leb b 127) ≡ false) ↔ Misses n (0x644000, 0x647fff)
  block_100 = ground arith

  block_127 : (nat_beq a 127 ≡ false) ↔ Misses n (0x7f0000, 0x7fffff)
  block_127 = ground arith

  block_169 : ((nat_beq a 169 && nat_beq b 254) ≡ false) ↔ Misses n (0xa9fe00, 0xa9feff)
  block_169 = ground arith

  block_172 : ((nat_beq a 172 && leb 16 b && leb b 31) ≡ false) ↔ Misses n (0xac1000, 0xac1fff)
  block_172 = ground arith

  block_192_0 : ((nat_beq a 192 && nat_beq b 0) ≡ false) ↔ Misses n (0xc00000, 0xc000ff)
  block_192_0 = ground arith

  block_192_168 : ((nat_beq a 192 && nat_beq b 168) ≡ false) ↔ Misses n (0xc0a800, 0xc0a8ff)
  block_192_168 = ground arith

  block_198_18 :
      ((nat_beq a 198 && (nat_beq b 18 || nat_beq b 19)) ≡ false) ↔ Misses n (0xc61200, 0xc613ff)
  block_198_18 = ground arith

  block_198_51 :
      ((nat_beq a 198 && nat_beq b 51 && nat_beq c 100) ≡ false) ↔ Misses n (0xc63364, 0xc63364)
  block_198_51 = ground arith

  block_203 :
      ((nat_beq a 203 && nat_beq b 0 && nat_beq c 113) ≡ false) ↔ Misses n (0xcb0071, 0xcb0071)
  block_203 = ground arith

  block_224 : (ltb a 224 ≡ true) ↔ Misses n (0xe00000, 0xffffff)
  block_224 = ground arith

separate :
    (x0 x10 x100 x127 x169 x172 x192_0 x192_168 x198_18 x198_51 x203 x224 multicast broadcast d192
      unspecified : Bool)
    → (multicast ≡ true → x224 ≡ false)
    → (broadcast ≡ true → x224 ≡ false)
    → (d192 ≡ true → x192_0 ≡ true)
    → (unspecified ≡ true → x0 ≡ true)
    → ((not (x10 || x172 || x192_168)
          && not x127
          && not x169
          && not multicast
          && not broadcast
          && not (d192 || x198_51 || x203)
          && not unspecified
          && not x0
          && x224
          && not x100
          && not x198_18
          && not x192_0)
        ≡ true)
      ↔ ((x0 ≡ false)
          × (x10 ≡ false)
          × (x100 ≡ false)
          × (x127 ≡ false)
          × (x169 ≡ false)
          × (x172 ≡ false)
          × (x192_0 ≡ false)
          × (x192_168 ≡ false)
          × (x198_18 ≡ false)
          × (x198_51 ≡ false)
          × (x203 ≡ false)
          × (x224 ≡ true))
separate x0 x10 x100 x127 x169 x172 x192_0 x192_168 x198_18 x198_51 x203 x224 m b d u hm hb hd hu =
    ground arith

is_public_v4_iff :
    (ip : Ipv4Addr)
    → AreOctets ip
    → (is_public_v4 ip ≡ true) ↔ All (Misses (prefix_v4 ip)) reserved_v4
is_public_v4_iff ip (ha, hb, hc, hd) =
    let a = ip.a in
    let b = ip.b in
    let c = ip.c in
    let (to, of) =
      separate (nat_beq ip.a 0) (nat_beq ip.a 10) (nat_beq ip.a 100 && leb 64 ip.b && leb ip.b 127)
        (nat_beq ip.a 127) (nat_beq ip.a 169 && nat_beq ip.b 254)
        (nat_beq ip.a 172 && leb 16 ip.b && leb ip.b 31) (nat_beq ip.a 192 && nat_beq ip.b 0)
        (nat_beq ip.a 192 && nat_beq ip.b 168)
        (nat_beq ip.a 198 && (nat_beq ip.b 18 || nat_beq ip.b 19))
        (nat_beq ip.a 198 && nat_beq ip.b 51 && nat_beq ip.c 100)
        (nat_beq ip.a 203 && nat_beq ip.b 0 && nat_beq ip.c 113) (ltb ip.a 224) (is_multicast ip)
        (is_broadcast ip) (nat_beq a 192 && nat_beq b 0 && nat_beq c 2) (is_unspecified ip)
        (ground arith) (ground arith) (ground arith) (ground arith) in
    (
      λ h.
          let (x0, x10, x100, x127, x169, x172, x192_0, x192_168, x198_18, x198_51, x203, x224) =
            to h in
          (
            (block_0 a b c ha hb hc).0 x0,
            (
              (block_10 a b c ha hb hc).0 x10,
              (
                (block_100 a b c ha hb hc).0 x100,
                (
                  (block_127 a b c ha hb hc).0 x127,
                  (
                    (block_169 a b c ha hb hc).0 x169,
                    (
                      (block_172 a b c ha hb hc).0 x172,
                      (
                        (block_192_0 a b c ha hb hc).0 x192_0,
                        (
                          (block_192_168 a b c ha hb hc).0 x192_168,
                          (
                            (block_198_18 a b c ha hb hc).0 x198_18,
                            (
                              (block_198_51 a b c ha hb hc).0 x198_51,
                              (
                                (block_203 a b c ha hb hc).0 x203,
                                ((block_224 a b c ha hb hc).0 x224, tt),
                              ),
                            ),
                          ),
                        ),
                      ),
                    ),
                  ),
                ),
              ),
            ),
          ),
      λ (
        x0,
        (
          x10,
          (
            x100,
            (x127, (x169, (x172, (x192_0, (x192_168, (x198_18, (x198_51, (x203, (x224, _))))))))),
          ),
        ),
      ).
          of (
            (block_0 a b c ha hb hc).1 x0,
            (block_10 a b c ha hb hc).1 x10,
            (block_100 a b c ha hb hc).1 x100,
            (block_127 a b c ha hb hc).1 x127,
            (block_169 a b c ha hb hc).1 x169,
            (block_172 a b c ha hb hc).1 x172,
            (block_192_0 a b c ha hb hc).1 x192_0,
            (block_192_168 a b c ha hb hc).1 x192_168,
            (block_198_18 a b c ha hb hc).1 x198_18,
            (block_198_51 a b c ha hb hc).1 x198_51,
            (block_203 a b c ha hb hc).1 x203,
            (block_224 a b c ha hb hc).1 x224,
          ),
    )

-- `public_ip` accepts exactly the addresses outside the reserved blocks.
pub public_ip_iff : (ip : IpAddr) → IsAddress ip → (public_ip ip ≡ true) ↔ IsPublic ip
unfolding public_ip
public_ip_iff (v4 ip) h = is_public_v4_iff ip h
public_ip_iff (v6 ip) h = is_public_v6_iff ip h
