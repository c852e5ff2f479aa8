-- ===== src/Common/Map.antt =====
-- std::map and std::set: association lists kept in the order of their keys.
use pppcpd.Common.Tests.{if◌then◌else◌, ==_iff, ltb, ◌==◌, Bool-cases, Option-cases}
use pppcpd.Common.Lists.{length}
use Prim.Native.Nat.{ℕ, ◌+◌}
use mathlib.Core.Path.{◌≡◌, refl}
use mathlib.Core.Logic.{◌≢◌, ◌↔◌, inl, inr}
use mathlib.Core.Bool.{Bool, true, false, ◌&&◌, ◌||◌}
use mathlib.Core.Option.{Option, none, some}
use mathlib.Core.List.{List, [], ◌∷◌}
use native.Mathlib.Omega.{arith}

-- What a key type gives: the equality that the order induces, and the order.
pub record Key {ℓ} (K : Type ℓ) : Type ℓ where
  pub beq : K → K → Bool
  pub beq_iff : (a b : K) → (beq a b ≡ true) ↔ (a ≡ b)
  pub lt : K → K → Bool

instance abbrev pub ℕ_key : Key ℕ
ℕ_key = record { beq = ◌==◌; beq_iff = ==_iff; lt = ltb }

abbrev pub Map {ℓ κ} : Type ℓ → Type κ → Type (ℓ ⊔ κ)
Map K V = List (K × V)

module _ {ℓ κ} {K : Type ℓ} {V : Type κ} ⦃key : Key K⦄ where
  unfoldable pub find : K → Map K V → Option V
  find k [] = none
  find k ((j, w) ∷ m) = if key.beq j k then some w else find k m

  -- The place is before the first greater key.
  unfoldable pub insert : K → V → Map K V → Map K V
  insert k v [] = (k, v) ∷ []
  insert k v ((j, w) ∷ m) = if key.lt k j then (k, v) ∷ (j, w) ∷ m else (j, w) ∷ insert k v m

  -- `emplace` keeps a value that is there.
  unfoldable pub emplace : K → V → Map K V → Map K V × Bool
  unfolding find insert
  emplace k v m = elim (find k m) [ none ↦ (insert k v m, true) | some w ↦ (m, false) ]

  unfoldable pub erase : K → Map K V → Map K V
  erase k [] = []
  erase k ((j, w) ∷ m) = if key.beq j k then erase k m else (j, w) ∷ erase k m

  -- A change of the value in place, through an iterator.
  unfoldable pub update : K → (V → V) → Map K V → Map K V
  update k f [] = []
  update k f ((j, w) ∷ m) = if key.beq j k then (j, f w) ∷ m else (j, w) ∷ update k f m

  -- The first entry in the order of the keys whose value passes a test (std::find_if).
  unfoldable pub find_if : (V → Bool) → Map K V → Option (K × V)
  find_if p [] = none
  find_if p ((j, w) ∷ m) = if p w then some (j, w) else find_if p m

pub beq_refl {ℓ} : {K : Type ℓ} ⦃key : Key K⦄ (k : K) → key.beq k k ≡ true
beq_refl ⦃key⦄ k = (key.beq_iff k k).1 refl

module _ {ℓ κ} {K : Type ℓ} {V : Type κ} ⦃key : Key K⦄ where
  pub find-insert :
      (k j : K) (v : V) (m : Map K V)
      → find k m ≡ none
      → find j (insert k v m) ≡ (if key.beq k j then some v else find j m)
  unfolding find insert
  find-insert k j v [] h = refl
  find-insert k j v ((i, w) ∷ m) h =
      ground (arith, key.beq_iff k j, key.beq_iff i k, key.beq_iff i j, find-insert k j v m)

  -- What is bound stays bound to the same value, and another key is not touched.
  pub find-emplace :
      (k j : K) (v w : V) (m : Map K V) → find j m ≡ some w → find j (emplace k v m).0 ≡ some w
  unfolding emplace
  find-emplace k j v w m h = elim (Option-cases (find k m)) [
    | inl free ↦
        rw (free, emplace)
          (elim (Bool-cases (key.beq k j)) [
            | inl same ↦ absurd (let e : k ≡ j = (key.beq_iff k j).0 same in cc)
            | inr other ↦ rw (find-insert k j v m free, other) h
          ])
    | inr (u, bound) ↦ rw (bound, emplace) h
  ]

  pub find-emplace_other :
      (k j : K) (v : V) (m : Map K V) → k ≢ j → find j (emplace k v m).0 ≡ find j m
  unfolding emplace
  find-emplace_other k j v m h = elim (Option-cases (find k m)) [
    | inl free ↦
        rw (free, emplace)
          (elim (Bool-cases (key.beq k j)) [
            | inl same ↦ absurd (h ((key.beq_iff k j).0 same))
            | inr other ↦ rw (find-insert k j v m free, other) refl
          ])
    | inr (u, bound) ↦ rw (bound, emplace) refl
  ]

  pub find-emplace_new :
      (k : K) (v : V) (m : Map K V) → find k m ≡ none → find k (emplace k v m).0 ≡ some v
  unfolding emplace
  find-emplace_new k v m free =
      rw (free, emplace, find-insert k k v m free, (key.beq_iff k k).1 refl) refl

  pub find-erase :
      (k j : K) (m : Map K V) → find j (erase k m) ≡ (if key.beq k j then none else find j m)
  unfolding find erase
  find-erase k j [] = ground arith
  find-erase k j ((i, w) ∷ m) =
      ground (arith, key.beq_iff k j, key.beq_iff i k, key.beq_iff i j, find-erase k j m)

  pub length-insert : (k : K) (v : V) (m : Map K V) → length (insert k v m) ≡ length m + 1
  unfolding insert
  length-insert k v [] = omega arith
  length-insert k v ((i, w) ∷ m) = ground (arith, length-insert k v m)

-- std::string, as its bytes: equality and the lexicographic order of operator<.
abbrev pub Str : Type 0
Str = List ℕ

unfoldable pub str_eq : Str → Str → Bool
str_eq [] [] = true
str_eq [] (b ∷ t) = false
str_eq (a ∷ s) [] = false
str_eq (a ∷ s) (b ∷ t) = a == b && str_eq s t

unfoldable pub str_lt : Str → Str → Bool
str_lt s [] = false
str_lt [] (b ∷ t) = true
str_lt (a ∷ s) (b ∷ t) = ltb a b || (a == b && str_lt s t)

pub str_eq_iff : (s t : Str) → (str_eq s t ≡ true) ↔ (s ≡ t)
unfolding str_eq
str_eq_iff [] [] = (λ h. refl, λ h. refl)
str_eq_iff [] (b ∷ t) = (λ h. cc, λ h. cc)
str_eq_iff (a ∷ s) [] = (λ h. cc, λ h. cc)
str_eq_iff (a ∷ s) (b ∷ t) =
    (λ h. ground (arith, (str_eq_iff s t).0), λ h. ground (arith, (str_eq_iff s t).1))

instance abbrev pub str_key : Key Str
str_key = record { beq = str_eq; beq_iff = str_eq_iff; lt = str_lt }
