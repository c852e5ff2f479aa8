-- ===== src/Runtime/Search.antt =====
-- The search for a session id ends within one round over all 65535 ids.
use pppcpd.Common.{ℕ, zero, suc, ◌+◌, ◌-◌, ◌%◌, ◌^◌, ◌<◌, ◌≡◌, refl, ◌∙◌, List, arith}
use pppcpd.Common.{Option, none, some, true, false, ◌==◌, contains}
use pppcpd.Common.{Bool-cases, inl, inr, ==_iff}
use pppcpd.Common.Outcome.{ok}
use pppcpd.Runtime.{next_id, search, id_count}

-- The id that stands `k` steps behind `start`.
abbrev pub walk : ℕ → ℕ → ℕ
walk start k = (start + 65534 + k) % 65535 + 1

next_id-walk : (start k : ℕ) → next_id (walk start k) ≡ walk start (k + 1)
unfolding next_id
next_id-walk start k = ground arith

-- What the search finds: the first id on the walk that is not in use, or all are in use.
abbrev pub Found : List ℕ → ℕ → Option ℕ → Type 0
Found ids start none = (c : ℕ) → 0 < c → c < 2 ^ 16 → contains ids c ≡ true
Found ids start (some c) =
    (0 < c)
    × (c < 2 ^ 16)
    × (contains ids c ≡ false)
    × ((k : ℕ) × (c ≡ walk start k) × ((j : ℕ) → j < k → contains ids (walk start j) ≡ true))

module _ (fuel : ℕ) (ids : List ℕ) (start c : ℕ) (pos : 0 < c) where
  step_free : contains ids c ≡ false → search (suc fuel) ids start c ≡ ok (some c)
  unfolding search
  step_free free = ground arith

  step_back :
      contains ids c ≡ true → (next_id c == start) ≡ true → search (suc fuel) ids start c ≡ ok none
  unfolding search
  step_back taken back = ground arith

  step_on :
      (n : ℕ)
      → next_id c ≡ n
      → contains ids c ≡ true
      → (n == start) ≡ false
      → search (suc fuel) ids start c ≡ search fuel ids start n
  unfolding search
  step_on n e taken on = ground arith

-- Every id stands on the walk, less than 65535 steps behind the start.
walk_onto :
    (start c : ℕ)
    → 0 < start
    → start < 2 ^ 16
    → 0 < c
    → c < 2 ^ 16
    → ((c + 65535 - start) % 65535 < 65535) × (walk start ((c + 65535 - start) % 65535) ≡ c)
walk_onto start c s t p q = omega arith

walk_back :
    (start k : ℕ) → 0 < start → start < 2 ^ 16 → k < 65535 → walk start (k + 1) ≡ start → k ≡ 65534
walk_back start k s t h e = omega arith

still : (P : ℕ → Type 0) (k : ℕ) → ((j : ℕ) → j < k → P j) → P k → (j : ℕ) → j < k + 1 → P j
still P k below here j h = elim (Bool-cases (j == k)) [
  | inl same ↦ rw ((==_iff j k).0 same) here
  | inr other ↦ below j (ground arith)
]

all_taken :
    (ids : List ℕ) (start : ℕ)
    → 0 < start
    → start < 2 ^ 16
    → ((j : ℕ) → j < 65535 → contains ids (walk start j) ≡ true)
    → Found ids start none
all_taken ids start s t used c p q =
    let (lt, e) = walk_onto start c s t p q in rw e at (used ((c + 65535 - start) % 65535) lt)

more_left :
    (start k fuel : ℕ)
    → 0 < start
    → start < 2 ^ 16
    → k + suc fuel ≡ 65535
    → (walk start (k + 1) == start) ≡ false
    → 0 < fuel
more_left start k zero s t e on = absurd (ground arith)
more_left start k (suc fuel) s t e on = omega arith

search-Found_from :
    (fuel k : ℕ) (ids : List ℕ) (start : ℕ)
    → 0 < start
    → start < 2 ^ 16
    → k + fuel ≡ 65535
    → 0 < fuel
    → ((j : ℕ) → j < k → contains ids (walk start j) ≡ true)
    → (r : Option ℕ) × (search fuel ids start (walk start k) ≡ ok r) × Found ids start r
search-Found_from zero k ids start s t e pos used = absurd (omega arith)
search-Found_from (suc fuel) k ids start s t e pos used =
    elim (Bool-cases (contains ids (walk start k))) [
      | inr free ↦ (
        some (walk start k),
        step_free fuel ids start (walk start k) (omega arith) free,
        (omega arith, omega arith, free, (k, refl, used)),
      )
      | inl taken ↦
          let below : (j : ℕ) → j < k + 1 → contains ids (walk start j) ≡ true =
            still (λ j. contains ids (walk start j) ≡ true) k used taken in
          elim (Bool-cases (walk start (k + 1) == start)) [
            | inl back ↦
                let around : walk start (k + 1) ≡ start = (==_iff _ _).0 back in
                let last : k ≡ 65534 = walk_back start k s t (omega arith) around in
                (
                  none,
                  step_back fuel ids start (walk start k) (omega arith) taken
                      (rw (next_id-walk start k) back),
                  all_taken ids start s t (λ j h. below j (omega arith)),
                )
            | inr on ↦
                let (r, f, g) =
                  search-Found_from fuel (k + 1) ids start s t (omega arith)
                    (more_left start k fuel s t e on) below in
                (
                  r,
                  step_on fuel ids start (walk start k) (omega arith) (walk start (k + 1))
                        (next_id-walk start k) taken on
                      ∙ f,
                  g,
                )
          ]
    ]

-- From a start in range the do-while loop ends after at most 65535 rounds: it finds the first id on
-- the way round that is not in use, or all of the 65535 ids are in use.
pub search-Found :
    (ids : List ℕ) (start : ℕ)
    → 0 < start
    → start < 2 ^ 16
    → (r : Option ℕ) × (search id_count ids start start ≡ ok r) × Found ids start r
search-Found ids start s t =
    let at : walk start 0 ≡ start = omega arith in
    let (r, e, f) =
      search-Found_from id_count 0 ids start s t refl (omega arith) (λ j h. absurd (omega arith)) in
    (r, rw at at e, f)
