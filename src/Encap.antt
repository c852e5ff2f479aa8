-- ===== src/Encap.antt =====
-- src/encap.hpp, src/encap.cpp, src/ethernet.hpp: the Ethernet and VLAN headers around a packet.
pub mod RoundTrip
use pppcpd.Common.{ℕ, ◌+◌, ◌%◌, ◌≡◌, Bool, ◌&&◌, not, List, [], ◌∷◌, ◌++◌}
use pppcpd.Common.{◌==◌, if◌then◌else◌, ltb, length, set, drop, replicate}
use pppcpd.Common.Bytes.{Bytes, bswap16, load8, load16, store16}
use pppcpd.Common.Outcome.{Outcome, ok, ◌>>=◌}

-- mac_t, std::array<uint8_t,6>.
pub record Mac : Type 0 where
  pub b0 : ℕ
  pub b1 : ℕ
  pub b2 : ℕ
  pub b3 : ℕ
  pub b4 : ℕ
  pub b5 : ℕ

abbrev pub zero_mac : Mac
zero_mac = record { b0 = 0; b1 = 0; b2 = 0; b3 = 0; b4 = 0; b5 = 0 }

abbrev pub mac_bytes : Mac → Bytes
mac_bytes m = m.b0 ∷ m.b1 ∷ m.b2 ∷ m.b3 ∷ m.b4 ∷ m.b5 ∷ []

unfoldable pub mac_eq : Mac → Mac → Bool
mac_eq l r =
    l.b0 == r.b0
    && (l.b1 == r.b1 && (l.b2 == r.b2 && (l.b3 == r.b3 && (l.b4 == r.b4 && l.b5 == r.b5))))

-- std::copy between a mac_t and the header.
abbrev load_mac : Bytes → ℕ → Outcome Mac
load_mac p i = do
  m0 ← load8 p i
  m1 ← load8 p (i + 1)
  m2 ← load8 p (i + 2)
  m3 ← load8 p (i + 3)
  m4 ← load8 p (i + 4)
  m5 ← load8 p (i + 5)
  ok (record { b0 = m0; b1 = m1; b2 = m2; b3 = m3; b4 = m4; b5 = m5 })

abbrev store_mac : ℕ → Mac → Bytes → Bytes
store_mac i m p =
    set (set (set (set (set (set p i m.b0) (i + 1) m.b1) (i + 2) m.b2) (i + 3) m.b3) (i + 4) m.b4)
      (i + 5) m.b5

abbrev pub eth_vlan : ℕ
eth_vlan = 0x8100

abbrev pub eth_pppoe_discovery : ℕ
eth_pppoe_discovery = 0x8863

abbrev pub eth_pppoe_session : ℕ
eth_pppoe_session = 0x8864

-- sizeof( ETHERNET_HDR ) and sizeof( VLAN_HDR )
abbrev pub eth_size : ℕ
eth_size = 14

abbrev pub vlan_size : ℕ
vlan_size = 4

-- encapsulation_t
pub record Encap : Type 0 where
  pub source_mac : Mac
  pub destination_mac : Mac
  pub outer_vlan : ℕ
  pub inner_vlan : ℕ
  pub ethertype : ℕ

-- The second VLAN tag, its header at offset 18.
parse_inner : Encap → Bytes → Outcome (Encap × Bytes)
parse_inner e pkt = do
  id ← load16 pkt 18
  ty ← load16 pkt 20
  ok (record e { inner_vlan = bswap16 id % 4096; ethertype = bswap16 ty }, drop 22 pkt)

-- The first VLAN tag, its header at offset 14.
parse_outer : Encap → Bytes → Outcome (Encap × Bytes)
unfolding parse_inner
parse_outer e pkt = do
  id ← load16 pkt 14
  ty ← load16 pkt 16
  let e' = record e { outer_vlan = bswap16 id % 4096; ethertype = bswap16 ty }
  if bswap16 ty == eth_vlan then parse_inner e' pkt else ok (e', drop 18 pkt)

-- The constructor of encapsulation_t: it takes the headers off the packet, which is the second result.
-- `type` has no initialiser: `junk` is what a packet that is too short leaves in it.
unfoldable pub parse_encap : ℕ → Bytes → ℕ → ℕ → Outcome (Encap × Bytes)
unfolding parse_outer
parse_encap junk pkt o i =
    if ltb (length pkt) eth_size
    then ok (
      record {
        source_mac = zero_mac;
        destination_mac = zero_mac;
        outer_vlan = o;
        inner_vlan = i;
        ethertype = junk;
      },
      pkt,
    )
    else (do
      src ← load_mac pkt 6
      dst ← load_mac pkt 0
      ty ← load16 pkt 12
      let e : Encap = record {
        source_mac = src;
        destination_mac = dst;
        outer_vlan = o;
        inner_vlan = i;
        ethertype = bswap16 ty;
      }
      if bswap16 ty == eth_vlan then parse_outer e pkt else ok (e, drop eth_size pkt))

-- The two copies of addresses at the head of a fresh header of `len` bytes.
abbrev addressed : Encap → Mac → ℕ → Bytes
addressed e mac len = store_mac 0 e.source_mac (store_mac 6 mac (replicate len 0))

unfoldable pub generate_header : Encap → Mac → ℕ → Bytes
generate_header e mac ethertype =
    let len =
      eth_size
      + (if e.outer_vlan == 0 then 0 else vlan_size)
      + (if e.inner_vlan == 0 then 0 else vlan_size) in
    let h = addressed e mac len in
    if e.outer_vlan == 0
    then store16 12 (bswap16 ethertype) h
    else let v = store16 14 (bswap16 e.outer_vlan) (store16 12 (bswap16 eth_vlan) h) in
      if e.inner_vlan == 0
      then store16 16 (bswap16 ethertype) v
      else store16 20 (bswap16 ethertype)
          (store16 18 (bswap16 e.inner_vlan) (store16 16 (bswap16 eth_vlan) v))

-- operator== and operator!=
unfoldable pub encap_eq : Encap → Encap → Bool
unfolding mac_eq
encap_eq l r =
    mac_eq l.source_mac r.source_mac
    && (mac_eq l.destination_mac r.destination_mac
        && (l.outer_vlan == r.outer_vlan
            && (l.inner_vlan == r.inner_vlan && l.ethertype == r.ethertype)))

unfoldable pub encap_ne : Encap → Encap → Bool
unfolding encap_eq
encap_ne l r = not (encap_eq l r)
