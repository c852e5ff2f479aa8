-- ===== src/Pool/Laws.antt =====
-- allocate_ip takes the first free address, and deallocate_ip undoes it.
use pppcpd.Common.{ℕ, zero, suc, ◌+◌, ◌%◌, ◌^◌, ◌<◌, ◌≤◌, ◌≡◌, refl, List, ◌∷◌, arith, ◌∙◌}
use pppcpd.Common.{Option, none, some, true, false, contains, contains-remove, ◌==◌, if◌then◌else◌}
use pppcpd.Common.{◌⊎◌, inl, inr, Bool-cases, leb, ==_iff}
use pppcpd.Common.Outcome.{ok}
use pppcpd.Pool.{Pool, find_ip, rounds, allocate_ip, deallocate_ip}

-- The answer of the loop: the first address from `lo` on that is not in use, or none up to `stop`.
abbrev pub FirstFree : ℕ → ℕ → List ℕ → Option ℕ → Type 0
FirstFree lo stop ips none = (j : ℕ) → lo ≤ j → j ≤ stop → contains ips j ≡ true
FirstFree lo stop ips (some i) =
    (lo ≤ i)
    × (i ≤ stop)
    × (contains ips i ≡ false)
    × ((j : ℕ) → lo ≤ j → j < i → contains ips j ≡ true)

first_eq : (ips : List ℕ) (i j : ℕ) → i ≡ j → contains ips i ≡ true → contains ips j ≡ true
first_eq ips i j e h = rw e at h

extend :
    (lo stop : ℕ) (ips : List ℕ) (r : Option ℕ)
    → contains ips lo ≡ true
    → FirstFree (lo + 1) stop ips r
    → FirstFree lo stop ips r
extend lo stop ips none h f = λ j p q. elim (Bool-cases (lo == j)) [
  | inl e ↦ first_eq ips lo j (ground arith) h
  | inr e ↦ f j (ground arith) q
]
extend lo stop ips (some i) h (a, b, c, f) = (
  omega arith,
  b,
  c,
  λ j p q. elim (Bool-cases (lo == j)) [
    | inl e ↦ first_eq ips lo j (ground arith) h
    | inr e ↦ f j (ground arith) q
  ],
)

find_ip_next :
    (fuel stop : ℕ) (ips : List ℕ) (i : ℕ)
    → stop + 1 < 2 ^ 32
    → leb i stop ≡ true
    → contains ips i ≡ true
    → find_ip (suc fuel) stop ips i ≡ find_ip fuel stop ips (i + 1)
unfolding find_ip
find_ip_next fuel stop ips i s inside used =
    let step : (i + 1) % 2 ^ 32 ≡ i + 1 = ground arith in rw (inside, used) (rw step refl)

find_ip-FirstFree :
    (fuel stop : ℕ) (ips : List ℕ) (i : ℕ)
    → stop + 1 < 2 ^ 32
    → i ≤ stop + 1
    → stop + 1 < i + fuel
    → (r : Option ℕ) × (find_ip fuel stop ips i ≡ ok r) × FirstFree i stop ips r
unfolding find_ip
find_ip-FirstFree zero stop ips i s l m = absurd (omega arith)
find_ip-FirstFree (suc fuel) stop ips i s l m = elim (Bool-cases (leb i stop)) [
  | inr past ↦ (none, rw past, λ j p q. absurd (ground arith))
  | inl inside ↦ elim (Bool-cases (contains ips i)) [
    | inr free ↦ (
      some i,
      rw (inside, free),
      (omega arith, ground arith, free, λ j p q. absurd (omega arith)),
    )
    | inl used ↦
        let (r, e, f) = find_ip-FirstFree fuel stop ips (i + 1) s (ground arith) (omega arith) in
        (r, find_ip_next fuel stop ips i s inside used ∙ e, extend i stop ips r used f)
  ]
]

abbrev pub Allocated : Pool → ℕ × Pool → Type 0
Allocated p (i, p') =
    ((i ≡ 0) × (p' ≡ p) × ((j : ℕ) → p.start_ip ≤ j → j ≤ p.stop_ip → contains p.ips j ≡ true))
    ⊎ ((p.start_ip ≤ i)
        × (i ≤ p.stop_ip)
        × (contains p.ips i ≡ false)
        × ((j : ℕ) → p.start_ip ≤ j → j < i → contains p.ips j ≡ true)
        × (p' ≡ record p { ips = i ∷ p.ips }))

-- For a pool that ends below 255.255.255.255 the loop ends, and allocate_ip either gives the first
-- address of the range that is not in use and marks it, or every address of the range is in use,
-- and it gives 0 and changes nothing.
pub allocate_ip-Allocated :
    (p : Pool)
    → p.stop_ip + 1 < 2 ^ 32
    → p.start_ip ≤ p.stop_ip + 1
    → (r : ℕ × Pool) × (allocate_ip p ≡ ok r) × Allocated p r
unfolding allocate_ip
allocate_ip-Allocated p s l =
    go (find_ip-FirstFree (rounds p) p.stop_ip p.ips p.start_ip s l (omega arith))
  where
    go :
        (r : Option ℕ) × (find_ip (rounds p) p.stop_ip p.ips p.start_ip ≡ ok r)
          × FirstFree p.start_ip p.stop_ip p.ips r
        → (r : ℕ × Pool) × (allocate_ip p ≡ ok r) × Allocated p r
    go (none, e, f) = ((0, p), rw e, inl (refl, refl, f))
    go (some i, e, (a, b, c, f)) = ((i, record p { ips = i ∷ p.ips }), rw e, inr (a, b, c, f, refl))

-- After deallocate_ip the address is free, and no other address changes.
pub deallocate_ip-contains :
    (i j : ℕ) (p : Pool)
    → contains (deallocate_ip i p).ips j ≡ (if i == j then false else contains p.ips j)
unfolding deallocate_ip
deallocate_ip-contains i j p = elim (Bool-cases (contains p.ips i)) [
  | inl used ↦ rw used (contains-remove i j p.ips)
  | inr free ↦ rw free (ground (arith, ==_iff i j, free))
]
