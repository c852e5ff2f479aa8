-- ===== src/Lcp/Known.antt =====
-- The Configure-Requests that LCP_FSM::check_conf acknowledges: the loop meets no option but the two that
-- src/ppp_lcp.cpp takes over.
use pppcpd.Common.{
  ℕ, zero, suc, ◌+◌, ◌-◌, ◌%◌, ◌^◌, ◌≤◌, ◌≡◌, refl, ◌⊎◌, inl, inr, [], ◌∷◌, ◌++◌, arith,
}
use pppcpd.Common.{◌==◌, ==_iff, ltb, Bool-cases, length, take, drop}
use pppcpd.Common.Bytes.{Bytes, load8, load16, load32, copy, bswap16}
use pppcpd.Common.Outcome.{ok, Holds, Holds-bind, Holds-any, Holds-known, Holds-map}
use pppcpd.Session.{Session}
use pppcpd.Fsm.{session_hdr_size}
use pppcpd.Link.{options_at, lcp_size}
use pppcpd.Lcp.{scan, read_option, opt_mru, opt_magic}

-- The options from an offset to the end, each an MRU or a magic number.
pub data KnownFrom (pkt : Bytes) (stop : ℕ) : ℕ → Type 0 where
  known_end : {at : ℕ} → stop ≤ at → KnownFrom pkt stop at
  known_next :
      {at : ℕ} (kind n : ℕ)
      → load8 pkt (options_at + at) ≡ ok kind
      → load8 pkt (options_at + at + 1) ≡ ok n
      → (kind ≡ opt_mru) ⊎ (kind ≡ opt_magic)
      → KnownFrom pkt stop (at + n)
      → KnownFrom pkt stop at

-- A packet whose length field ends behind such options.
abbrev pub HasKnownOptions : Bytes → Type 0
HasKnownOptions pkt =
    (v : ℕ) × (load16 pkt (session_hdr_size + 2) ≡ ok v)
    × KnownFrom pkt ((bswap16 v + (2 ^ 32 - lcp_size)) % 2 ^ 32) 0

take-drop-nil : (p : Bytes) (i n : ℕ) → i + n ≤ length p → take n (drop i p) ≡ [] → n ≡ 0
take-drop-nil p i zero l e = refl
take-drop-nil [] i (suc n) l e = absurd (omega arith)
take-drop-nil (x ∷ p) zero (suc n) l e = cc
take-drop-nil (x ∷ p) (suc i) (suc n) l e = take-drop-nil p i (suc n) (omega arith) e

copy-nil : (p : Bytes) (i n : ℕ) → Holds (λ bytes. bytes ≡ [] → n ≡ 0) (copy p i n)
copy-nil p i n = elim (Bool-cases (ltb (length p) (i + n))) [
  | inl over ↦ rw over tt
  | inr within ↦ rw within (take-drop-nil p i n (ground arith))
]

append-nils : (r bytes : Bytes) → r ++ bytes ≡ [] → (r ≡ []) × (bytes ≡ [])
append-nils [] bytes e = (refl, e)
append-nils (x ∷ r) bytes e = cc

-- An option that leaves nothing to reject is a known one, or has no length.
abbrev Accepts : ℕ → ℕ → Bytes → Session × Bytes → Type 0
Accepts kind n r acc = acc.1 ≡ [] → (r ≡ []) × (((kind ≡ opt_mru) ⊎ (kind ≡ opt_magic)) ⊎ (n ≡ 0))

read_option-Accepts :
    (pkt : Bytes) (at kind n : ℕ) (s : Session) (r : Bytes)
    → Holds (Accepts kind n r) (read_option pkt at kind n (s, r))
unfolding read_option
read_option-Accepts pkt at kind n s r = elim (Bool-cases (kind == opt_mru)) [
  | inl m ↦ rw m (
      Holds-any (Accepts kind n r) (load16 pkt (at + 2)) _
        (λ v e. (e, inl (inl ((==_iff kind opt_mru).0 m)))))
  | inr m ↦ elim (Bool-cases (kind == opt_magic)) [
    | inl g ↦
        rw (m, g)
          (Holds-any (Accepts kind n r) (load32 pkt (at + 2)) _
            (λ v e. (e, inl (inr ((==_iff kind opt_magic).0 g)))))
    | inr g ↦
        rw (m, g)
          (Holds-bind (Accepts kind n r) (copy pkt at n) _ (copy-nil pkt at n) (λ bytes empty e.
            let (before, here) = append-nils r bytes e in (before, inr (empty here))))
  ]
]

abbrev pub IsAcceptance : Bytes → ℕ → ℕ → Bytes → Session × Bytes → Type 0
IsAcceptance pkt len offset r acc = acc.1 ≡ [] → (r ≡ []) × KnownFrom pkt len offset

one_known :
    (pkt : Bytes) (len offset kind n : ℕ) (r : Bytes) (s : Session) (r' : Bytes)
    (acc : Session × Bytes)
    → load8 pkt (options_at + offset) ≡ ok kind
    → load8 pkt (options_at + offset + 1) ≡ ok n
    → Accepts kind n r (s, r')
    → IsAcceptance pkt len (offset + n) r' acc
    → IsAcceptance pkt len offset r acc
one_known pkt len offset kind n r s r' acc a b here rest e =
    let (none_yet, onward) = rest e in
    let (before, how) = here none_yet in
    (
      before,
      elim how [
        | inl known ↦ known_next kind n a b known onward
        | inr zero_length ↦ let same : offset + n ≡ offset = omega arith in rw same at onward
      ],
    )

pub scan-IsAcceptance :
    (fuel : ℕ) (pkt : Bytes) (len offset : ℕ) (s : Session) (r : Bytes)
    → Holds (IsAcceptance pkt len offset r) (scan fuel pkt len offset (s, r))
unfolding scan
scan-IsAcceptance zero pkt len offset s r = tt
scan-IsAcceptance (suc fuel) pkt len offset s r = elim (Bool-cases (ltb offset len)) [
  | inr over ↦ rw over (λ e. (e, known_end (ground arith)))
  | inl more ↦
      let Q = IsAcceptance pkt len offset r in
      rw more (
        Holds-known Q (load8 pkt (options_at + offset + 1)) _ (λ n b.
          Holds-known Q (load8 pkt (options_at + offset)) _ (λ kind a.
            Holds-bind Q (read_option pkt (options_at + offset) kind n (s, r)) _
              (read_option-Accepts pkt (options_at + offset) kind n s r)
              (λ acc here.
                Holds-map (IsAcceptance pkt len (offset + n) acc.1) Q
                  (scan fuel pkt len (offset + n) acc)
                  (λ end rest. one_known pkt len offset kind n r acc.0 acc.1 end a b here rest)
                  (scan-IsAcceptance fuel pkt len (offset + n) acc.0 acc.1)))))
]
