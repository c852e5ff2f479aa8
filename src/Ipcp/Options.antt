-- ===== src/Ipcp/Options.antt =====
-- The address and the name servers that a peer asks for, as a list, and what IPCP_FSM::check_conf
-- and send_conf_nak make of their bytes.
use pppcpd.Common.{
  ℕ, zero, suc, ◌+◌, ◌/◌, ◌%◌, ◌^◌, ◌<◌, ◌≡◌, ◌⊎◌, inl, inr, refl, sym, ◌∙◌, ap, arith, List, [],
  ◌∷◌, ◌++◌, append_assoc,
}
use pppcpd.Common.{
  some, Bool, true, false, not, ◌||◌, ◌&&◌, ◌==◌, ==_iff, ==_refl, ==_false, Bool-cases, ltb-true,
  ltb-false,
}
use pppcpd.Common.{if◌then◌else◌, length, All, length-append}
use pppcpd.Common.Bytes.{
  Bytes, load8, load32, store32, bswap32, load8-append, load32-be32, bswap32-inj, set-append,
}
use pppcpd.Common.Outcome.{ok}
use pppcpd.Link.{opt_4b, options_at, lcp_size}
use pppcpd.Aaa.{AaaSession}
use pppcpd.Ipcp.{
  ip_address, primary_dns, secondary_dns, expected, parse_ipcp_options, rejected_options, differs,
  corrected,
}

-- The kind and the value of an option.
abbrev pub Wish : Type 0
Wish = ℕ × ℕ

abbrev pub encode_wishes : List Wish → Bytes
encode_wishes [] = []
encode_wishes ((k, v) ∷ ws) = opt_4b k v ++ encode_wishes ws

abbrev pub IsWish : Wish → Type 0
IsWish (k, v) = (v < 2 ^ 32) × ((k ≡ ip_address) ⊎ ((k ≡ primary_dns) ⊎ (k ≡ secondary_dns)))

-- What the AAA session gives for a kind.
abbrev pub granted : AaaSession → ℕ → ℕ
granted s k = if k == ip_address then s.address else (if k == primary_dns then s.dns1 else s.dns2)

abbrev pub agrees : AaaSession → List Wish → Bool
agrees s [] = true
agrees s ((k, v) ∷ ws) = v == granted s k && agrees s ws

abbrev pub grant : AaaSession → List Wish → List Wish
grant s [] = []
grant s ((k, v) ∷ ws) = (k, granted s k) ∷ grant s ws

-- The addresses of a session are 32-bit numbers.
pub record IsAddressed (s : AaaSession) : Type 0 where
  pub address_lt : s.address < 2 ^ 32
  pub dns1_lt : s.dns1 < 2 ^ 32
  pub dns2_lt : s.dns2 < 2 ^ 32

granted-lt : (s : AaaSession) (k : ℕ) → IsAddressed s → granted s k < 2 ^ 32
granted-lt s k i = ground arith

expected-granted : (s : AaaSession) (k v : ℕ) → IsWish (k, v) → expected s k ≡ some (granted s k)
expected-granted s k v (l, inl e) = rw e
expected-granted s k v (l, inr (inl e)) = rw e
expected-granted s k v (l, inr (inr e)) = rw e

pub agrees-grant : (s : AaaSession) (ws : List Wish) → agrees s (grant s ws) ≡ true
agrees-grant s [] = refl
agrees-grant s ((k, v) ∷ ws) = ground (arith, agrees-grant s ws)

abbrev pub places : ℕ → List Wish → List ℕ
places at [] = []
places at (w ∷ ws) = at ∷ places (at + 6) ws

swapped_bytes :
    (w : ℕ)
    → (bswap32 w % 256 ≡ w / 65536 / 256 % 256)
      × (bswap32 w / 256 % 256 ≡ w / 65536 % 256)
      × (bswap32 w / 65536 % 256 ≡ w / 256 % 256)
      × (bswap32 w / 65536 / 256 % 256 ≡ w % 256)
unfolding bswap32
swapped_bytes w = (omega arith, omega arith, omega arith, omega arith)

-- One option of the packet, whatever stands before and behind it.
module _ (before after : Bytes) (at k v : ℕ) (e : at ≡ length before) where
  abbrev around : Bytes
  around = before ++ (opt_4b k v ++ after)

  kind_read : load8 around at ≡ ok k
  kind_read = load8-append before (opt_4b k v ++ after) at 0 (omega arith)

  length_read : load8 around (at + 1) ≡ ok 6
  length_read = load8-append before (opt_4b k v ++ after) (at + 1) 1 (omega arith)

  value_read : load32 around (at + 2) ≡ ok (bswap32 v)
  value_read =
      let tail = opt_4b k v ++ after in
      rw
        (
          load8-append before tail (at + 2) 2 (omega arith),
          load8-append before tail (at + 2 + 1) 3 (omega arith),
          load8-append before tail (at + 2 + 2) 4 (omega arith),
          load8-append before tail (at + 2 + 2 + 1) 5 (omega arith),
        )
        (ap ok (load32-be32 v))

  value_written : (w : ℕ) → store32 (at + 2) (bswap32 w) around ≡ before ++ (opt_4b k w ++ after)
  value_written w =
      let x = bswap32 w in
      let (a, b, c, d) = swapped_bytes w in
      let r2 = v / 65536 % 256 ∷ v / 256 % 256 ∷ v % 256 ∷ after in
      let r3 = v / 256 % 256 ∷ v % 256 ∷ after in
      let r4 = v % 256 ∷ after in
      rw
        (
          set-append before (k ∷ 6 ∷ v / 65536 / 256 % 256 ∷ r2) (at + 2) 2 (x % 256) (omega arith),
          set-append before (k ∷ 6 ∷ x % 256 ∷ r2) (at + 2 + 1) 3 (x / 256 % 256) (omega arith),
          set-append before (k ∷ 6 ∷ x % 256 ∷ x / 256 % 256 ∷ r3) (at + 2 + 2) 4 (x / 65536 % 256)
              (omega arith),
          set-append before (k ∷ 6 ∷ x % 256 ∷ x / 256 % 256 ∷ x / 65536 % 256 ∷ r4)
              (at + 2 + 2 + 1) 5 (x / 65536 / 256 % 256) (omega arith),
        )
        (rw (a, b, c, d) refl)

pub parse-places :
    (ws : List Wish) (fuel size offset : ℕ) (pkt before after : Bytes)
    → pkt ≡ before ++ (encode_wishes ws ++ after)
    → size ≡ offset + length (encode_wishes ws) + lcp_size
    → length before ≡ options_at + offset
    → length (encode_wishes ws) < fuel
    → parse_ipcp_options fuel pkt size offset ≡ ok (places (options_at + offset) ws)
unfolding parse_ipcp_options
parse-places ws zero size offset pkt before after p q e f = absurd (omega arith)
parse-places [] (suc fuel) size offset pkt before after p q e f =
    rw (ltb-false (offset + lcp_size) size (omega arith)) refl
parse-places ((k, v) ∷ ws) (suc fuel) size offset pkt before after p q e f =
    let rest = encode_wishes ws ++ after in
    let grouped : pkt ≡ before ++ (opt_4b k v ++ rest) = p in
    let p' : pkt ≡ (before ++ opt_4b k v) ++ rest =
      grouped ∙ sym (append_assoc before (opt_4b k v) rest) in
    rw
      (
        ltb-true (offset + lcp_size) size (omega arith),
        (rw (← grouped) at (length_read before rest (options_at + offset) k v (sym e))),
        parse-places ws fuel size (offset + 6) pkt (before ++ opt_4b k v) after p' (omega arith)
            (omega (arith, length-append before (opt_4b k v))) (omega arith),
      )
      (ap (λ (x : ℕ). ok ((options_at + offset) ∷ places x ws)) next)
  where
    next : options_at + (offset + 6) ≡ options_at + offset + 6
    next = omega arith

-- The value of an option on the wire against that of the session.
same_value :
    (s : AaaSession) (k v : ℕ)
    → IsAddressed s
    → v < 2 ^ 32
    → (bswap32 v == bswap32 (granted s k)) ≡ (v == granted s k)
same_value s k v i l = elim (Bool-cases (v == granted s k)) [
  | inl same ↦ rw (same, (==_iff v (granted s k)).0 same) (==_refl (bswap32 (granted s k)))
  | inr other ↦ rw other (
      ==_false (bswap32 v) (bswap32 (granted s k))
        (λ e. ground (arith, other, bswap32-inj v (granted s k) l (granted-lt s k i) e)))
]

not_and : (b c : Bool) → (not b || not c) ≡ not (b && c)
not_and true c = refl
not_and false c = refl

-- The tail of the packet behind its first option.
behind :
    (before after : Bytes) (k v : ℕ) (ws : List Wish)
    → before ++ (encode_wishes ((k, v) ∷ ws) ++ after)
      ≡ (before ++ opt_4b k v) ++ (encode_wishes ws ++ after)
behind before after k v ws = sym (append_assoc before (opt_4b k v) (encode_wishes ws ++ after))

module _ (s : AaaSession) where
  pub rejected_options_none :
      (ws : List Wish) (at : ℕ) (before after : Bytes)
      → at ≡ length before
      → All IsWish ws
      → rejected_options s (before ++ (encode_wishes ws ++ after)) (places at ws) ≡ ok []
  unfolding rejected_options
  rejected_options_none [] at before after e h = refl
  rejected_options_none ((k, v) ∷ ws) at before after e (h, hs) =
      let rest = encode_wishes ws ++ after in
      let ih =
        rejected_options_none ws (at + 6) (before ++ opt_4b k v) after
          (omega (arith, length-append before (opt_4b k v))) hs in
      rw
        (
          kind_read before rest at k v e,
          expected-granted s k v h,
          rw (← behind before after k v ws) at ih,
        )
        refl

  pub differs-agrees :
      (ws : List Wish) (at : ℕ) (before after : Bytes)
      → IsAddressed s
      → at ≡ length before
      → All IsWish ws
      → differs s (before ++ (encode_wishes ws ++ after)) (places at ws) ≡ ok (not (agrees s ws))
  unfolding differs
  differs-agrees [] at before after i e h = refl
  differs-agrees ((k, v) ∷ ws) at before after i e (h, hs) =
      let rest = encode_wishes ws ++ after in
      let ih =
        differs-agrees ws (at + 6) (before ++ opt_4b k v) after i
          (omega (arith, length-append before (opt_4b k v))) hs in
      rw
        (
          kind_read before rest at k v e,
          expected-granted s k v h,
          value_read before rest at k v e,
          same_value s k v i h.0,
          rw (← behind before after k v ws) at ih,
        )
        (ap ok (not_and (v == granted s k) (agrees s ws)))

  pub corrected-grant :
      (ws : List Wish) (at : ℕ) (before after : Bytes)
      → at ≡ length before
      → All IsWish ws
      → corrected s (places at ws) (before ++ (encode_wishes ws ++ after))
        ≡ ok (before ++ (encode_wishes (grant s ws) ++ after))
  unfolding corrected
  corrected-grant [] at before after e h = refl
  corrected-grant ((k, v) ∷ ws) at before after e (h, hs) =
      let rest = encode_wishes ws ++ after in
      let w = granted s k in
      let ih =
        corrected-grant ws (at + 6) (before ++ opt_4b k w) after
          (omega (arith, length-append before (opt_4b k w))) hs in
      rw
        (
          kind_read before rest at k v e,
          expected-granted s k v h,
          value_written before rest at k v e w,
          behind before after k w ws,
          ih,
        )
        (ap ok (sym (behind before after k w (grant s ws))))

pub length-grant :
    (s : AaaSession) (ws : List Wish)
    → length (encode_wishes (grant s ws)) ≡ length (encode_wishes ws)
length-grant s [] = refl
length-grant s ((k, v) ∷ ws) = omega (arith, length-grant s ws)

pub grant-IsWish :
    (s : AaaSession) (ws : List Wish) → IsAddressed s → All IsWish ws → All IsWish (grant s ws)
grant-IsWish s [] i h = tt
grant-IsWish s ((k, v) ∷ ws) i (h, hs) = ((granted-lt s k i, h.1), grant-IsWish s ws i hs)
