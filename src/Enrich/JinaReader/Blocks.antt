-- ===== src/Enrich/JinaReader/Blocks.antt =====
-- The refused addresses are those of a list of blocks, and an IPv4 address that is written as an
-- IPv6 address is not refused.
use sage_wiki_bridge_wxo.Base.{
  ℕ, ◌+◌, ◌-◌, ◌*◌, ◌/◌, ◌^◌, ◌<◌, ◌≡◌, refl, Bool, true, false, ◌&&◌, ◌||◌, leb, List, [], ◌∷◌,
  arith, ◌==◌, any_of,
}
use sage_wiki_bridge_wxo.Url.{v4, v6}
use sage_wiki_bridge_wxo.Enrich.JinaReader.{is_private, is_documentation, is_rejected}

-- The block `base/bits` of addresses of `width` bits.
pub record Block : Type 0 where
  pub base : ℕ
  pub bits : ℕ

pub in_block : ℕ → ℕ → Block → Bool
in_block width value block =
    value / 2 ^ (width - block.bits) == block.base / 2 ^ (width - block.bits)

abbrev pub ipv4_value : ℕ → ℕ → ℕ → ℕ → ℕ
ipv4_value a b c d = a * 2 ^ 24 + b * 2 ^ 16 + c * 2 ^ 8 + d

abbrev block : ℕ → ℕ → ℕ → ℕ → ℕ → Block
block a b c d bits = record { base = ipv4_value a b c d; bits = bits }

-- RFC 1918, this host and network, loopback, link-local, documentation, and broadcast.
abbrev pub ipv4_blocks : List Block
ipv4_blocks =
    block 10 0 0 0 8
    ∷ block 172 16 0 0 12
    ∷ block 192 168 0 0 16
    ∷ block 127 0 0 0 8
    ∷ block 169 254 0 0 16
    ∷ block 255 255 255 255 32
    ∷ block 192 0 2 0 24
    ∷ block 198 51 100 0 24
    ∷ block 203 0 113 0 24
    ∷ block 0 0 0 0 8
    ∷ []

-- The same tests, one by one.
reorder :
    (p₁ p₂ p₃ loop link all d₁ d₂ d₃ zero : Bool)
    → ((p₁ || p₂ || p₃) || loop || link || all || (d₁ || d₂ || d₃) || zero || link)
      ≡ (p₁ || (p₂ || (p₃ || (loop || (link || (all || (d₁ || (d₂ || (d₃ || (zero || false))))))))))
reorder true p₂ p₃ loop link all d₁ d₂ d₃ zero = refl
reorder false true p₃ loop link all d₁ d₂ d₃ zero = refl
reorder false false true loop link all d₁ d₂ d₃ zero = refl
reorder false false false true link all d₁ d₂ d₃ zero = refl
reorder false false false false true all d₁ d₂ d₃ zero = refl
reorder false false false false false true d₁ d₂ d₃ zero = refl
reorder false false false false false false true d₂ d₃ zero = refl
reorder false false false false false false false true d₃ zero = refl
reorder false false false false false false false false true zero = refl
reorder false false false false false false false false false true = refl
reorder false false false false false false false false false false = refl

module _ (a b c d : ℕ) (hb : b < 256) (hc : c < 256) (hd : d < 256) where
  abbrev value : ℕ
  value = ipv4_value a b c d

  top_octet : value / 2 ^ 24 ≡ a
  top_octet = omega arith

  top_two : value / 2 ^ 16 ≡ a * 256 + b
  top_two = omega arith

  top_three : value / 2 ^ 8 ≡ (a * 256 + b) * 256 + c
  top_three = omega arith

  top_twelve : value / 2 ^ 20 ≡ a * 16 + b / 16
  top_twelve = omega arith

  whole : value / 1 ≡ value
  whole = omega arith

  two_octets : (x y : ℕ) → y < 256 → (a * 256 + b == x * 256 + y) ≡ (a == x && b == y)
  two_octets x y h = ground arith

  three_octets :
      (x y z : ℕ)
      → y < 256
      → z < 256
      → ((a * 256 + b) * 256 + c == (x * 256 + y) * 256 + z) ≡ (a == x && b == y && c == z)
  three_octets x y z h k = ground arith

  four_octets :
      (value == ipv4_value 255 255 255 255) ≡ (a == 255 && b == 255 && c == 255 && d == 255)
  four_octets = ground arith

  twelve_bits : (a * 16 + b / 16 == 172 * 16 + 1) ≡ (a == 172 && leb 16 b && leb b 31)
  twelve_bits = ground arith

  -- An IPv4 address is refused exactly if it lies in one of these blocks.
  pub is_rejected-v4 : is_rejected (v4 a b c d) ≡ any_of (in_block 32 value) ipv4_blocks
  unfolding is_rejected in_block
  is_rejected-v4 =
      rw
        (
          top_octet,
          top_two,
          top_three,
          top_twelve,
          whole,
          twelve_bits,
          two_octets 192 168 (omega arith),
          two_octets 169 254 (omega arith),
          three_octets 192 0 2 (omega arith) (omega arith),
          three_octets 198 51 100 (omega arith) (omega arith),
          three_octets 203 0 113 (omega arith) (omega arith),
          four_octets,
          is_private,
          is_documentation,
        )
        (reorder (a == 10) (a == 172 && leb 16 b && leb b 31) (a == 192 && b == 168) (a == 127)
          (a == 169 && b == 254) (a == 255 && b == 255 && c == 255 && d == 255)
          (a == 192 && b == 0 && c == 2) (a == 198 && b == 51 && c == 100)
          (a == 203 && b == 0 && c == 113) (a == 0))

-- An IPv4 address in the form `::ffff:a.b.c.d` is never refused, whatever the IPv4 address is.
pub is_rejected_mapped :
    (a b c d : ℕ) → is_rejected (v6 0 0 0 0 0 0xffff (a * 256 + b) (c * 256 + d)) ≡ false
unfolding is_rejected
is_rejected_mapped a b c d = refl
