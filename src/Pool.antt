-- ===== src/Pool.antt =====
-- FRAMED_POOL of src/config.hpp, its methods in src/aaa.cpp: IPv4 addresses given to sessions.
pub mod Laws
pub mod Wrap
use pppcpd.Common.{ℕ, zero, suc, ◌+◌, ◌-◌, ◌%◌, ◌^◌, List, [], ◌∷◌, Option, none, some}
use pppcpd.Common.{leb, if◌then◌else◌, contains, remove}
use pppcpd.Common.Outcome.{Outcome, ok, stuck, ◌>>=◌}

-- `ips` is the set of addresses in use. Nothing observes its order.
pub record Pool : Type 0 where
  pub start_ip : ℕ
  pub stop_ip : ℕ
  pub ips : List ℕ

-- The loop over `i` of allocate_ip, a uint32_t that wraps; `none` when it ends by its test.
unfoldable pub find_ip : ℕ → ℕ → List ℕ → ℕ → Outcome (Option ℕ)
find_ip zero stop ips i = stuck
find_ip (suc fuel) stop ips i =
    let rest = find_ip fuel stop ips ((i + 1) % 2 ^ 32) in
    if leb i stop then (if contains ips i then rest else ok (some i)) else ok none

-- One round for each address, and one that ends the loop.
abbrev pub rounds : Pool → ℕ
rounds p = suc (p.stop_ip + 1 - p.start_ip)

abbrev taken : Pool → Option ℕ → ℕ × Pool
taken p none = (0, p)
taken p (some i) = (i, record p { ips = i ∷ p.ips })

-- `fuel` bounds the rounds of the loop.
unfoldable pub allocate_ip_in : ℕ → Pool → Outcome (ℕ × Pool)
allocate_ip_in fuel p = do r ← find_ip fuel p.stop_ip p.ips p.start_ip; ok (taken p r)

unfoldable pub allocate_ip : Pool → Outcome (ℕ × Pool)
unfolding allocate_ip_in
allocate_ip p = allocate_ip_in (rounds p) p

unfoldable pub deallocate_ip : ℕ → Pool → Pool
deallocate_ip i p = if contains p.ips i then record p { ips = remove i p.ips } else p
