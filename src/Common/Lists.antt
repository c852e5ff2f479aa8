-- ===== src/Common/Lists.antt =====
-- Lists measured and indexed by native numbers, under the library's names, and predicates on lists.
use Prim.Native.Nat.{ℕ, zero, suc, ◌+◌, ◌-◌, ◌≤◌}
use mathlib.Core.Path.{◌≡◌, refl, ap}
use mathlib.Core.Bool.{Bool, true, false, ◌||◌}
use mathlib.Core.List.{List, [], ◌∷◌, ◌++◌}
use mathlib.Core.Option.{Option, none, some}
use native.Mathlib.Omega.{arith}
use pppcpd.Common.Tests.{◌==◌, if◌then◌else◌}

module _ {ℓ} {A : Type ℓ} where
  abbrev pub length : List A → ℕ
  length [] = 0
  length (x ∷ xs) = suc (length xs)

  abbrev pub get_elem? : List A → ℕ → Option A
  get_elem? [] i = none
  get_elem? (x ∷ xs) zero = some x
  get_elem? (x ∷ xs) (suc i) = get_elem? xs i

  -- A write out of bounds changes nothing.
  abbrev pub set : List A → ℕ → A → List A
  set [] i v = []
  set (x ∷ xs) zero v = v ∷ xs
  set (x ∷ xs) (suc i) v = x ∷ set xs i v

  abbrev pub take : ℕ → List A → List A
  take zero xs = []
  take (suc n) [] = []
  take (suc n) (x ∷ xs) = x ∷ take n xs

  abbrev pub drop : ℕ → List A → List A
  drop zero xs = xs
  drop (suc n) [] = []
  drop (suc n) (x ∷ xs) = drop n xs

  abbrev pub replicate : ℕ → A → List A
  replicate zero a = []
  replicate (suc n) a = a ∷ replicate n a

  -- A range-based for loop over a list that its body does not change.
  abbrev pub for_each {κ} : {S : Type κ} → (A → S → S) → List A → S → S
  for_each f [] s = s
  for_each f (x ∷ xs) s = for_each f xs (f x s)

  abbrev pub All {κ} : (A → Type κ) → List A → Type κ
  All P [] = Unit {κ}
  All P (x ∷ xs) = P x × All P xs

module _ {ℓ} {A : Type ℓ} where
  pub length-append : (xs ys : List A) → length (xs ++ ys) ≡ length xs + length ys
  length-append [] ys = omega arith
  length-append (x ∷ xs) ys = omega (arith, length-append xs ys)

  pub length-take : (n : ℕ) (xs : List A) → n ≤ length xs → length (take n xs) ≡ n
  length-take zero xs l = refl
  length-take (suc n) [] l = absurd (omega arith)
  length-take (suc n) (x ∷ xs) l = omega (arith, length-take n xs (omega (arith, l)))

  pub take_append :
      (xs ys : List A) (n : ℕ) → length xs ≤ n → take n (xs ++ ys) ≡ xs ++ take (n - length xs) ys
  take_append [] ys n e = let whole : n - 0 ≡ n = omega arith in rw whole refl
  take_append (x ∷ xs) ys zero e = absurd (omega arith)
  take_append (x ∷ xs) ys (suc n) e =
      let less : suc n - suc (length xs) ≡ n - length xs = omega arith in
      rw less (ap (λ r. x ∷ r) (take_append xs ys n (omega arith)))

  pub take-append : (xs ys : List A) (n : ℕ) → n ≡ length xs → take n (xs ++ ys) ≡ xs
  take-append [] ys zero e = refl
  take-append [] ys (suc n) e = absurd (omega arith)
  take-append (x ∷ xs) ys zero e = absurd (omega arith)
  take-append (x ∷ xs) ys (suc n) e = rw (take-append xs ys n (omega arith))

  pub drop-append : (xs ys : List A) (n : ℕ) → n ≡ length xs → drop n (xs ++ ys) ≡ ys
  drop-append [] ys zero e = refl
  drop-append [] ys (suc n) e = absurd (omega arith)
  drop-append (x ∷ xs) ys zero e = absurd (omega arith)
  drop-append (x ∷ xs) ys (suc n) e = drop-append xs ys n (omega arith)

  -- Reading behind a prefix.
  pub get_elem?-append :
      (xs ys : List A) (i n : ℕ) → i ≡ length xs + n → get_elem? (xs ++ ys) i ≡ get_elem? ys n
  get_elem?-append [] ys i n e = let e' : i ≡ n = omega arith in rw e'
  get_elem?-append (x ∷ xs) ys zero n e = absurd (omega arith)
  get_elem?-append (x ∷ xs) ys (suc i) n e = get_elem?-append xs ys i n (omega arith)

  pub drop_append : (xs ys : List A) (i n : ℕ) → i ≡ length xs + n → drop i (xs ++ ys) ≡ drop n ys
  drop_append [] ys i n e = let e' : i ≡ n = omega arith in rw e'
  drop_append (x ∷ xs) ys zero n e = absurd (omega arith)
  drop_append (x ∷ xs) ys (suc i) n e = drop_append xs ys i n (omega arith)

pub for_each-keeps {ℓ κ μ} :
    {A : Type ℓ} {S : Type κ} {P : S → Type μ} (f : A → S → S) (xs : List A) (s : S)
    → ((x : A) (t : S) → P t → P (f x t))
    → P s
    → P (for_each f xs s)
for_each-keeps f [] s keeps p = p
for_each-keeps f (x ∷ xs) s keeps p = for_each-keeps f xs (f x s) keeps (keeps x s p)

pub for_each-append {ℓ κ} :
    {A : Type ℓ} {S : Type κ} (f : A → S → S) (xs ys : List A) (s : S)
    → for_each f (xs ++ ys) s ≡ for_each f ys (for_each f xs s)
for_each-append f [] ys s = refl
for_each-append f (x ∷ xs) ys s = for_each-append f xs ys (f x s)

-- A set of numbers whose order no code observes.
unfoldable pub contains : List ℕ → ℕ → Bool
contains [] a = false
contains (x ∷ xs) a = x == a || contains xs a

unfoldable pub remove : ℕ → List ℕ → List ℕ
remove a [] = []
remove a (x ∷ xs) = let rest = remove a xs in elim (x == a) [ true ↦ rest | false ↦ x ∷ rest ]

pub contains-remove :
    (i j : ℕ) (xs : List ℕ) → contains (remove i xs) j ≡ (if i == j then false else contains xs j)
unfolding contains remove
contains-remove i j [] = ground arith
contains-remove i j (x ∷ xs) = ground (arith, contains-remove i j xs)

-- A list without the element at an index.
unfoldable pub without {ℓ} : {A : Type ℓ} → ℕ → List A → List A
without i [] = []
without zero (x ∷ xs) = xs
without (suc i) (x ∷ xs) = x ∷ without i xs
