-- ===== src/Pool/Wrap.antt =====
-- A pool that ends at 255.255.255.255: the test `i <= stop` of a uint32_t is then always true.
use pppcpd.Common.{ℕ, zero, suc, ◌+◌, ◌-◌, ◌%◌, ◌^◌, ◌<◌, ◌≤◌, ◌≡◌, List, ◌∷◌, arith}
use pppcpd.Common.{true, false, contains, ◌∙◌, some}
use pppcpd.Common.Outcome.{ok}
use native.Mathlib.Nat.{zero-add, add-zero, suc-add}
use pppcpd.Pool.{Pool, find_ip, allocate_ip_in}

abbrev top : ℕ
top = 2 ^ 32 - 1

taken_round :
    (fuel : ℕ) (ips : List ℕ) (i : ℕ)
    → i < 2 ^ 32
    → contains ips i ≡ true
    → find_ip (suc fuel) top ips i ≡ find_ip fuel top ips ((i + 1) % 2 ^ 32)
unfolding find_ip
taken_round fuel ips i h used = ground arith

free_round :
    (fuel : ℕ) (ips : List ℕ) (i : ℕ)
    → i < 2 ^ 32
    → contains ips i ≡ false
    → find_ip (suc fuel) top ips i ≡ ok (some i)
unfolding find_ip
free_round fuel ips i h free = ground arith

-- The loop passes over `n` addresses in use, up to the greatest one at most.
skip :
    (n fuel : ℕ) (ips : List ℕ) (i : ℕ)
    → i + n < 2 ^ 32
    → ((j : ℕ) → i ≤ j → j < i + n → contains ips j ≡ true)
    → find_ip (n + fuel) top ips i ≡ find_ip fuel top ips (i + n)
skip zero fuel ips i h all = rw (zero-add, add-zero)
skip (suc n) fuel ips i h all =
    let next : (i + 1) % 2 ^ 32 ≡ i + 1 = omega arith in
    let last : i + 1 + n ≡ i + suc n = omega arith in
    let rest : find_ip (n + fuel) top ips (i + 1) ≡ find_ip fuel top ips (i + suc n) =
      rw (← last)
        (skip n fuel ips (i + 1) (omega arith) (λ j p q. all j (omega arith) (omega arith))) in
    rw
      (
        suc-add,
        taken_round (n + fuel) ips i (omega arith) (all i (omega arith) (omega arith)),
        next,
      )
      rest

-- When every address from the start of such a pool on is in use, the counter wraps, and the address
-- given is the first free one `k` below the start, which the pool does not cover: the loop takes the
-- rounds up to 255.255.255.255, then one for each address below `k`, and one for `k`.
pub allocate_ip-outside :
    (p : Pool) (k more : ℕ)
    → p.stop_ip ≡ top
    → k < p.start_ip
    → p.start_ip ≤ top
    → ((j : ℕ) → p.start_ip ≤ j → j ≤ top → contains p.ips j ≡ true)
    → ((j : ℕ) → j < k → contains p.ips j ≡ true)
    → contains p.ips k ≡ false
    → allocate_ip_in (top - p.start_ip + suc (k + suc more)) p
      ≡ ok (k, record p { ips = k ∷ p.ips })
unfolding allocate_ip_in
allocate_ip-outside p k more e below s used under free = rw e (rw found)
  where
    wrapped : find_ip (suc (k + suc more)) top p.ips top ≡ find_ip (k + suc more) top p.ips 0
    wrapped = taken_round (k + suc more) p.ips top (omega arith) (used top s (omega arith))

    low : find_ip (k + suc more) top p.ips 0 ≡ ok (some k)
    low =
        skip k (suc more) p.ips 0 (omega arith) (λ j a b. under j (omega arith))
        ∙ rw zero-add (free_round more p.ips k (omega arith) free)

    high :
        find_ip (top - p.start_ip + suc (k + suc more)) top p.ips p.start_ip
        ≡ find_ip (suc (k + suc more)) top p.ips (p.start_ip + (top - p.start_ip))
    high =
        skip (top - p.start_ip) (suc (k + suc more)) p.ips p.start_ip (omega arith)
          (λ j a b. used j a (omega arith))

    found : find_ip (top - p.start_ip + suc (k + suc more)) top p.ips p.start_ip ≡ ok (some k)
    found =
        let end : p.start_ip + (top - p.start_ip) ≡ top = omega arith in
        rw end at high ∙ wrapped ∙ low
