-- ===== src/Common/Counting.antt =====
-- Maps with distinct keys, as std::map keeps them, and the number of values that pass a test.
use pppcpd.Common.Tests.{if◌then◌else◌, Bool-cases, Option-cases}
use pppcpd.Common.Map.{
  Map, Key, find, insert, emplace, erase, update, find_if, find-insert, find-erase,
}
use pppcpd.Common.Lists.{get_elem?, without}
use Prim.Native.Nat.{ℕ, zero, suc, ◌+◌, ◌≤◌}
use mathlib.Core.Path.{◌≡◌, refl}
use mathlib.Core.Logic.{inl, inr}
use mathlib.Core.Bool.{Bool, true, false}
use mathlib.Core.Option.{none, some}
use mathlib.Core.List.{List, [], ◌∷◌, ◌++◌}
use native.Mathlib.Omega.{arith}

abbrev pub weight : Bool → ℕ
weight b = if b then 1 else 0

abbrev pub count_list {ℓ} : {A : Type ℓ} → (A → Bool) → List A → ℕ
count_list p [] = 0
count_list p (x ∷ xs) = weight (p x) + count_list p xs

module _ {ℓ κ} {K : Type ℓ} {V : Type κ} ⦃key : Key K⦄ where
  abbrev pub count : (V → Bool) → Map K V → ℕ
  count p [] = 0
  count p ((k, v) ∷ m) = weight (p v) + count p m

  abbrev pub Distinct : Map K V → Type κ
  Distinct [] = Unit
  Distinct ((k, v) ∷ m) = (find k m ≡ none) × Distinct m

  pub count-insert :
      (p : V → Bool) (k : K) (v : V) (m : Map K V)
      → count p (insert k v m) ≡ weight (p v) + count p m
  unfolding insert
  count-insert p k v [] = refl
  count-insert p k v ((j, w) ∷ m) = ground (arith, count-insert p k v m)

  pub emplace_fresh :
      (k : K) (v : V) (m : Map K V) → find k m ≡ none → emplace k v m ≡ (insert k v m, true)
  unfolding emplace
  emplace_fresh k v m h = rw (h, emplace)

  pub emplace_present :
      (k : K) (v w : V) (m : Map K V) → find k m ≡ some w → emplace k v m ≡ (m, false)
  unfolding emplace
  emplace_present k v w m h = rw (h, emplace)

  pub erase-none : (k : K) (m : Map K V) → find k m ≡ none → erase k m ≡ m
  unfolding find erase
  erase-none k [] h = refl
  erase-none k ((j, w) ∷ m) h = ground (arith, erase-none k m)

  pub count-erase :
      (p : V → Bool) (k : K) (v : V) (m : Map K V)
      → Distinct m
      → find k m ≡ some v
      → count p m ≡ weight (p v) + count p (erase k m)
  unfolding find erase
  count-erase p k v [] d h = cc
  count-erase p k v ((j, w) ∷ m) d h =
      ground (arith, key.beq_iff j k, erase-none k m, count-erase p k v m)

  pub count-update :
      (p : V → Bool) (k : K) (v : V) (f : V → V) (m : Map K V)
      → find k m ≡ some v
      → count p (update k f m) + weight (p v) ≡ count p m + weight (p (f v))
  unfolding find update
  count-update p k v f [] h = cc
  count-update p k v f ((j, w) ∷ m) h = ground (arith, count-update p k v f m)

  pub find-update :
      (k j : K) (f : V → V) (v : V) (m : Map K V)
      → find k m ≡ some v
      → find j (update k f m) ≡ (if key.beq k j then some (f v) else find j m)
  unfolding find update
  find-update k j f v [] h = cc
  find-update k j f v ((i, w) ∷ m) h =
      ground (arith, key.beq_iff k j, key.beq_iff i k, key.beq_iff i j, find-update k j f v m)

  pub Distinct-insert :
      (k : K) (v : V) (m : Map K V) → find k m ≡ none → Distinct m → Distinct (insert k v m)
  unfolding find insert
  Distinct-insert k v [] h d = (refl, tt)
  Distinct-insert k v ((j, w) ∷ m) h d =
      ground (arith, key.beq_iff j k, key.beq_iff k j, find-insert k j v m, Distinct-insert k v m)

  pub Distinct-erase : (k : K) (m : Map K V) → Distinct m → Distinct (erase k m)
  unfolding find erase
  Distinct-erase k [] d = tt
  Distinct-erase k ((j, w) ∷ m) d = ground (arith, find-erase k j m, Distinct-erase k m)

  pub find_if-find :
      (p : V → Bool) (k : K) (v : V) (m : Map K V)
      → Distinct m
      → find_if p m ≡ some (k, v)
      → (find k m ≡ some v) × (p v ≡ true)
  unfolding find find_if
  find_if-find p k v [] d h = cc
  find_if-find p k v ((j, w) ∷ m) d h = ground (arith, key.beq_iff j k, find_if-find p k v m)

  pub find_if-none : (p : V → Bool) (m : Map K V) → find_if p m ≡ none → count p m ≡ 0
  unfolding find_if
  find_if-none p [] h = refl
  find_if-none p ((j, w) ∷ m) h = ground (arith, find_if-none p m)

  pub count-find :
      (p : V → Bool) (k : K) (v : V) (m : Map K V) → find k m ≡ some v → p v ≡ true → 1 ≤ count p m
  unfolding find
  count-find p k v [] h t = cc
  count-find p k v ((j, w) ∷ m) h t = ground (arith, count-find p k v m)

  pub update-none :
      (k j : K) (f : V → V) (m : Map K V) → find j m ≡ none → find j (update k f m) ≡ none
  unfolding find update
  update-none k j f [] h = refl
  update-none k j f ((i, w) ∷ m) h = ground (arith, update-none k j f m)

  pub Distinct-update : (k : K) (f : V → V) (m : Map K V) → Distinct m → Distinct (update k f m)
  unfolding find update
  Distinct-update k f [] d = tt
  Distinct-update k f ((j, w) ∷ m) d = ground (arith, update-none k j f m, Distinct-update k f m)

  pub update_missing : (k : K) (f : V → V) (m : Map K V) → find k m ≡ none → update k f m ≡ m
  unfolding find update
  update_missing k f [] h = refl
  update_missing k f ((j, w) ∷ m) h = ground (arith, update_missing k f m)

  pub update_same :
      (k j : K) (f : V → V) (v w : V) (m : Map K V)
      → find k m ≡ some v
      → key.beq k j ≡ true
      → find j (update k f m) ≡ some w
      → w ≡ f v
  update_same k j f v w m h same e = ground (arith, find-update k j f v m h)

  pub update_other :
      (k j : K) (f : V → V) (m : Map K V) → key.beq k j ≡ false → find j (update k f m) ≡ find j m
  unfolding find update
  update_other k j f [] other = refl
  update_other k j f ((i, w) ∷ m) other =
      ground (arith, key.beq_iff k j, key.beq_iff i k, key.beq_iff i j, update_other k j f m)

  -- What holds of every value that can be found holds still, if the change keeps it.
  pub update-keeps :
      (P : V → Type 0) (k : K) (f : V → V) (m : Map K V)
      → ((v : V) → P v → P (f v))
      → ((j : K) (v : V) → find j m ≡ some v → P v)
      → (j : K) (w : V) → find j (update k f m) ≡ some w
      → P w
  update-keeps P k f m step all j w e = elim (Bool-cases (key.beq k j)) [
    | inr other ↦ all j w (rw (update_other k j f m other) at e)
    | inl same ↦ elim (Option-cases (find k m)) [
      | inl missing ↦ all j w (rw (update_missing k f m missing) at e)
      | inr (v, h) ↦ rw (update_same k j f v w m h same e) (step v (all k v h))
    ]
  ]

  pub insert_same :
      (k j : K) (v w : V) (m : Map K V)
      → find k m ≡ none
      → key.beq k j ≡ true
      → find j (insert k v m) ≡ some w
      → w ≡ v
  insert_same k j v w m h same e = ground (arith, find-insert k j v m h)

  pub insert_other :
      (k j : K) (v : V) (m : Map K V)
      → find k m ≡ none
      → key.beq k j ≡ false
      → find j (insert k v m) ≡ find j m
  insert_other k j v m h other = ground (arith, find-insert k j v m h)

pub count_list-without {ℓ} :
    {A : Type ℓ} (p : A → Bool) (i : ℕ) (x : A) (l : List A)
    → get_elem? l i ≡ some x
    → count_list p l ≡ weight (p x) + count_list p (without i l)
unfolding without
count_list-without p i x [] h = cc
count_list-without p zero x (y ∷ l) h = ground arith
count_list-without p (suc i) x (y ∷ l) h = omega (arith, count_list-without p i x l h)

pub count_list-append {ℓ} :
    {A : Type ℓ} (p : A → Bool) (xs ys : List A)
    → count_list p (xs ++ ys) ≡ count_list p xs + count_list p ys
count_list-append p [] ys = omega arith
count_list-append p (x ∷ xs) ys = omega (arith, count_list-append p xs ys)
