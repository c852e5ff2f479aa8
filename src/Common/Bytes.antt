-- ===== src/Common/Bytes.antt =====
-- net_integer.hpp, and the fields of a packed struct laid over a vector of bytes.
-- The host is little-endian, as bswap on every 16- and 32-bit field supposes.
use pppcpd.Common.Outcome.{Outcome, ok, fault, ◌>>=◌, from_option}
use pppcpd.Common.Lists.{
  length, get_elem?, set, take, drop, length-append, get_elem?-append, drop_append, take-append,
}
use pppcpd.Common.Tests.{ltb, ltb-false, if◌then◌else◌}
use Prim.Native.Nat.{ℕ, zero, suc, ◌+◌, ◌*◌, ◌/◌, ◌%◌, ◌<◌, ◌^◌}
use mathlib.Core.Path.{◌≡◌, refl}
use mathlib.Core.List.{List, [], ◌∷◌, ◌++◌}
use native.Mathlib.Omega.{arith}

abbrev pub IsByte : ℕ → Type 0
IsByte b = b < 256

abbrev pub Bytes : Type 0
Bytes = List ℕ

-- __builtin_bswap16 and __builtin_bswap32
unfoldable pub bswap16 : ℕ → ℕ
bswap16 v = v % 256 * 256 + v / 256 % 256

unfoldable pub bswap32 : ℕ → ℕ
bswap32 v = v % 256 * 16777216 + v / 256 % 256 * 65536 + v / 65536 % 256 * 256 + v / 16777216 % 256

pub bswap16-bswap16 : (v : ℕ) → v < 2 ^ 16 → bswap16 (bswap16 v) ≡ v
unfolding bswap16
bswap16-bswap16 v h = omega arith

pub bswap32-bswap32 : (v : ℕ) → v < 2 ^ 32 → bswap32 (bswap32 v) ≡ v
unfolding bswap32
bswap32-bswap32 v h = omega arith

-- A field read through a pointer into the vector.
abbrev pub load8 : Bytes → ℕ → Outcome ℕ
load8 p i = from_option (get_elem? p i)

abbrev pub load16 : Bytes → ℕ → Outcome ℕ
load16 p i = do a ← load8 p i; b ← load8 p (i + 1); ok (a + b * 256)

abbrev pub load32 : Bytes → ℕ → Outcome ℕ
load32 p i = do a ← load16 p i; b ← load16 p (i + 2); ok (a + b * 65536)

-- A copy of the bytes from `i` up to `i + n`.
abbrev pub copy : Bytes → ℕ → ℕ → Outcome Bytes
copy p i n = if ltb (length p) (i + n) then fault else ok (take n (drop i p))

-- A field written through a pointer. A write past the end leaves the vector's bytes as they are.
abbrev pub store16 : ℕ → ℕ → Bytes → Bytes
store16 i v p = set (set p i (v % 256)) (i + 1) (v / 256 % 256)

abbrev pub store32 : ℕ → ℕ → Bytes → Bytes
store32 i v p = store16 (i + 2) (v / 65536) (store16 i v p)

-- The bytes of a 16- or 32-bit number in network order.
abbrev pub be16 : ℕ → Bytes
be16 v = v / 256 % 256 ∷ v % 256 ∷ []

abbrev pub be32 : ℕ → Bytes
be32 v = be16 (v / 65536) ++ be16 v

pub bswap16_load : (a b : ℕ) → a < 256 → b < 256 → bswap16 (a + b * 256) ≡ a * 256 + b
unfolding bswap16
bswap16_load a b p q = omega arith

-- A 16-bit number in network order, loaded and swapped.
pub read16 : (v : ℕ) → v < 2 ^ 16 → bswap16 (v / 256 % 256 + v % 256 * 256) ≡ v
unfolding bswap16
read16 v h = omega arith

-- A field read behind a prefix.
pub load8-append : (xs ys : Bytes) (i n : ℕ) → i ≡ length xs + n → load8 (xs ++ ys) i ≡ load8 ys n
load8-append xs ys i n e = rw (get_elem?-append xs ys i n e)

pub copy-append :
    (before xs after : Bytes) (at n : ℕ)
    → at ≡ length before
    → n ≡ length xs
    → copy (before ++ (xs ++ after)) at n ≡ ok xs
copy-append before xs after at n e k =
    rw
      (
        ltb-false (length (before ++ (xs ++ after))) (at + n)
            (omega (arith, length-append before (xs ++ after), length-append xs after)),
        drop_append before (xs ++ after) at 0 (omega arith),
        take-append xs after n k,
      )
      refl

-- A 32-bit number in network order, loaded and swapped.
pub read32 :
    (v : ℕ)
    → v < 2 ^ 32
    → bswap32
        ((v / 65536 / 256 % 256 + v / 65536 % 256 * 256) + (v / 256 % 256 + v % 256 * 256) * 65536)
      ≡ v
unfolding bswap32
read32 v h = omega arith

pub load32-be32 :
    (v : ℕ)
    → v / 65536 / 256 % 256 + v / 65536 % 256 * 256 + (v / 256 % 256 + v % 256 * 256) * 65536
      ≡ bswap32 v
unfolding bswap32
load32-be32 v = omega arith

pub bswap32-inj : (v w : ℕ) → v < 2 ^ 32 → w < 2 ^ 32 → bswap32 v ≡ bswap32 w → v ≡ w
unfolding bswap32
bswap32-inj v w a b e = omega arith

-- A write behind a prefix.
pub set-append :
    (xs ys : Bytes) (i n v : ℕ) → i ≡ length xs + n → set (xs ++ ys) i v ≡ xs ++ set ys n v
set-append [] ys i n v e = let e' : i ≡ n = omega arith in rw e'
set-append (x ∷ xs) ys zero n v e = absurd (omega arith)
set-append (x ∷ xs) ys (suc i) n v e = rw (set-append xs ys i n v (omega arith))
