-- ===== src/Webhooks/Addresses.antt =====
-- The addresses that a webhook is pinned to.
use cowchat4win.Base.{
  ℕ, ◌+◌, ◌*◌, ◌<◌, ◌≡◌, Bool, not, ◌&&◌, List, [], ◌∷◌, arith, any, leb, ltb, eqb,
}
use cowchat4win.Webhooks.{is_public_v4}

-- A block of addresses: its first one, by its octets, and its size.
abbrev Block : Type 0
Block = ℕ × ℕ

abbrev pub address : ℕ → ℕ → ℕ → ℕ → ℕ
address a b c d = a * 16777216 + b * 65536 + c * 256 + d

abbrev pub in_block : ℕ → Block → Bool
in_block n (first, size) = leb first n && ltb n (first + size)

-- The blocks of RFC 6890 and 5771 that a server of the internet does not have, in CIDR notation:
-- 0.0.0.0/8, 10.0.0.0/8, 100.64.0.0/10, 127.0.0.0/8, 169.254.0.0/16, 172.16.0.0/12, 192.168.0.0/16,
-- 198.18.0.0/15, 224.0.0.0/4 and 255.255.255.255/32.
abbrev pub inner_blocks : List Block
inner_blocks =
    (address 0 0 0 0, 16777216)
    ∷ (address 10 0 0 0, 16777216)
    ∷ (address 100 64 0 0, 4194304)
    ∷ (address 127 0 0 0, 16777216)
    ∷ (address 169 254 0 0, 65536)
    ∷ (address 172 16 0 0, 1048576)
    ∷ (address 192 168 0 0, 65536)
    ∷ (address 198 18 0 0, 131072)
    ∷ (address 224 0 0 0, 268435456)
    ∷ (address 255 255 255 255, 1)
    ∷ []

module _ (a b c d : ℕ) (ha : a < 256) (hb : b < 256) (hc : c < 256) (hd : d < 256) where
  slash_8 : (p : ℕ) → in_block (address a b c d) (address p 0 0 0, 16777216) ≡ eqb a p
  slash_8 p = ground arith

  slash_16 :
      (p q : ℕ)
      → q < 256
      → in_block (address a b c d) (address p q 0 0, 65536) ≡ (eqb a p && eqb b q)
  slash_16 p q h = ground arith

  rows :
      (p q n : ℕ)
      → q + n < 257
      → in_block (address a b c d) (address p q 0 0, n * 65536)
        ≡ (eqb a p && leb q b && ltb b (q + n))
  rows p q n h = ground arith

  nets :
      (p n : ℕ)
      → in_block (address a b c d) (address p 0 0 0, n * 16777216) ≡ (leb p a && ltb a (p + n))
  nets p n = ground arith

  last_one :
      in_block (address a b c d) (address 255 255 255 255, 1)
      ≡ (eqb a 255 && eqb b 255 && eqb c 255 && eqb d 255)
  last_one = ground arith

  tests :
      is_public_v4 a b c d
      ≡ not (
          any
            (λ x. x)
            (eqb a 0
              ∷ eqb a 10
              ∷ (eqb a 100 && leb 64 b && ltb b (64 + 64))
              ∷ eqb a 127
              ∷ (eqb a 169 && eqb b 254)
              ∷ (eqb a 172 && leb 16 b && ltb b (16 + 16))
              ∷ (eqb a 192 && eqb b 168)
              ∷ (eqb a 198 && leb 18 b && ltb b (18 + 2))
              ∷ (leb 224 a && ltb a (224 + 16))
              ∷ (eqb a 255 && eqb b 255 && eqb c 255 && eqb d 255)
              ∷ []))
  unfolding is_public_v4
  tests = ground arith

  pub public-inner_blocks :
      is_public_v4 a b c d ≡ not (any (in_block (address a b c d)) inner_blocks)
  public-inner_blocks =
      rw
        (
          slash_8 0,
          slash_8 10,
          rows 100 64 64 (omega arith),
          slash_8 127,
          slash_16 169 254 (omega arith),
          rows 172 16 16 (omega arith),
          slash_16 192 168 (omega arith),
          rows 198 18 2 (omega arith),
          nets 224 16,
          last_one,
        )
        tests
