-- ===== src/Encap/RoundTrip.antt =====
-- The header that generate_header writes, and what the constructor reads back from it.
use pppcpd.Common.{ℕ, ◌+◌, ◌*◌, ◌%◌, ◌/◌, ◌<◌, ◌^◌, ◌≡◌, ◌≢◌, [], ◌++◌, arith, ◌==◌}
use pppcpd.Common.{if◌then◌else◌, inl, inr, Bool-cases, ==_iff}
use pppcpd.Common.Bytes.{Bytes, bswap16, be16}
use pppcpd.Common.Outcome.{ok}
use pppcpd.Encap.{Mac, mac_bytes, Encap, parse_encap, generate_header, eth_vlan}

-- The two stored bytes of a swapped number are its bytes in network order.
swapped_low : (v : ℕ) → bswap16 v % 256 ≡ v / 256 % 256
unfolding bswap16
swapped_low v = omega arith

swapped_high : (v : ℕ) → bswap16 v / 256 % 256 ≡ v % 256
unfolding bswap16
swapped_high v = omega arith

-- The tags that an encapsulation asks for.
abbrev tags : Encap → Bytes
tags e =
    if e.outer_vlan == 0
    then []
    else be16 eth_vlan
      ++ (be16 e.outer_vlan
          ++ (if e.inner_vlan == 0 then [] else be16 eth_vlan ++ be16 e.inner_vlan))

-- Where an inner tag comes with an outer tag, the header is the peer's address, our address,
-- the tags and the ethertype.
pub generate_header_lem :
    (e : Encap) (mac : Mac) (ethertype : ℕ)
    → (e.outer_vlan ≡ 0 → e.inner_vlan ≡ 0)
    → generate_header e mac ethertype
      ≡ mac_bytes e.source_mac ++ (mac_bytes mac ++ (tags e ++ be16 ethertype))
unfolding generate_header
generate_header_lem e mac ethertype h = elim (Bool-cases (e.outer_vlan == 0)) [
  | inl o ↦ rw (o, h ((==_iff _ _).0 o), swapped_low, swapped_high)
  | inr o ↦ elim (Bool-cases (e.inner_vlan == 0)) [
    | inl i ↦ rw o (rw i (simp (swapped_low, swapped_high)))
    | inr i ↦ rw o (rw i (simp (swapped_low, swapped_high)))
  ]
]

-- A field written in network order and loaded on the host.
loaded : (v : ℕ) → v < 2 ^ 16 → bswap16 (v / 256 % 256 + v % 256 * 256) ≡ v
unfolding bswap16
loaded v h = omega arith

-- A VLAN id of twelve bits comes through the mask.
loaded_id : (v : ℕ) → v < 4096 → bswap16 (v / 256 % 256 + v % 256 * 256) % 4096 ≡ v
unfolding bswap16
loaded_id v h = omega arith

-- What the far end of the link reads: the two addresses change places.
abbrev pub far_end : Encap → Mac → ℕ → Encap
far_end e mac ty = record {
  source_mac = mac;
  destination_mac = e.source_mac;
  outer_vlan = e.outer_vlan;
  inner_vlan = e.inner_vlan;
  ethertype = ty;
}

-- For VLAN ids of twelve bits, an inner tag only under an outer one, and an ethertype that is not
-- itself the tag's, the constructor takes exactly the generated header off the packet and reads
-- the same tags and type, the two addresses exchanged.
pub parse_encap-generate_header :
    (e : Encap) (mac : Mac) (ty junk : ℕ) (payload : Bytes)
    → e.outer_vlan < 4096
    → e.inner_vlan < 4096
    → (e.outer_vlan ≡ 0 → e.inner_vlan ≡ 0)
    → ty < 2 ^ 16
    → ty ≢ eth_vlan
    → parse_encap junk (generate_header e mac ty ++ payload) 0 0 ≡ ok (far_end e mac ty, payload)
unfolding parse_encap
parse_encap-generate_header e mac ty junk payload ho hi tagged ht plain =
    rw (generate_header_lem e mac ty tagged) (elim (Bool-cases (e.outer_vlan == 0)) [
      | inl o ↦ rw (o) (ground (arith, loaded ty ht, (==_iff _ _).0 o, tagged ((==_iff _ _).0 o)))
      | inr o ↦ elim (Bool-cases (e.inner_vlan == 0)) [
        | inl i ↦ rw o (
            rw i (
              ground (
                arith,
                (==_iff _ _).0 i,
                loaded ty ht,
                loaded eth_vlan (omega arith),
                loaded_id e.outer_vlan ho,
              )))
        | inr i ↦ rw o (
            rw i (
              ground (
                arith,
                loaded ty ht,
                loaded eth_vlan (omega arith),
                loaded_id e.outer_vlan ho,
                loaded_id e.inner_vlan hi,
              )))
      ]
    ])
