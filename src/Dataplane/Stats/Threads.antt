-- ===== src/Dataplane/Stats/Threads.antt =====
-- src/vpp.cpp: what collect_counters leaves of the rows that the threads of VPP count in.
use pppcpd.Common.{
  ℕ, zero, suc, ◌+◌, ◌<◌, ◌==◌, ==_iff, ◌≡◌, ◌≢◌, refl, ◌∙◌, List, [], ◌∷◌, ◌++◌, some, Bool, true,
  false, inl, inr, get_elem?, for_each, for_each-keeps, for_each-append, if◌then◌else◌, Bool-cases,
  Option-cases, ==_false, ==_refl, arith, All,
}
use pppcpd.Common.Map.{
  Map, Str, str_eq, str_eq_iff, ℕ_key, find, emplace, update, find-emplace, find-emplace_new,
}
use pppcpd.Common.Counting.{find-update}
use pppcpd.Dataplane.{IfaceCounters}
use pppcpd.Dataplane.Stats.{
  Stat, StatValue, name_vector, counter_vector_simple, counter_vector_combined, other_value,
  drops_name, tx_name, rx_name, no_counters, put_simple, put_combined, put_row, put_rows, put_value,
  put_stat, collect_counters, get_counters_by_index,
}

-- The interface `i` has counters, and `P` is true of them.
abbrev HasAt : (IfaceCounters → Type 0) → ℕ → Map ℕ IfaceCounters → Type 0
HasAt P i m = (c : IfaceCounters) × (find i m ≡ some c) × P c

bound_now :
    (k : ℕ) (m : Map ℕ IfaceCounters)
    → (c : IfaceCounters) × (find k (emplace k no_counters m).0 ≡ some c)
bound_now k m = elim (Option-cases (find k m)) [
  | inl free ↦ (no_counters, find-emplace_new k no_counters m free)
  | inr (c, there) ↦ (c, find-emplace k k no_counters c m there)
]

module _ {A : Type 0} (put : A → IfaceCounters → IfaceCounters) (P : IfaceCounters → Type 0) where
  -- One value, for the interface `k`.
  put_one : ℕ → A → Map ℕ IfaceCounters → Map ℕ IfaceCounters
  put_one k v m = update k (put v) (emplace k no_counters m).0

  put_one-here :
      (k : ℕ) (v : A) (m : Map ℕ IfaceCounters)
      → ((c : IfaceCounters) → P (put v c))
      → HasAt P k (put_one k v m)
  unfolding put_one
  put_one-here k v m now = elim (Option-cases (find k m)) [
    | inl free ↦
        let new = find-emplace_new k no_counters m free in
        (
          put v no_counters,
          find-update k k (put v) no_counters _ new ∙ rw (==_refl k) refl,
          now no_counters,
        )
    | inr (c, there) ↦
        let old = find-emplace k k no_counters c m there in
        (put v c, find-update k k (put v) c _ old ∙ rw (==_refl k) refl, now c)
  ]

  put_one-other :
      (k i : ℕ) (v : A) (m : Map ℕ IfaceCounters) → k ≢ i → HasAt P i m → HasAt P i (put_one k v m)
  unfolding put_one
  put_one-other k i v m differ (c, there, p) =
      let stays = find-emplace k i no_counters c m there in
      let (d, own) = bound_now k m in
      (
        c,
        find-update k i (put v) d (emplace k no_counters m).0 own ∙ rw (==_false k i differ) stays,
        p,
      )

  put_one-keeps :
      (k i : ℕ) (v : A) (m : Map ℕ IfaceCounters)
      → ((c : IfaceCounters) → P c → P (put v c))
      → HasAt P i m
      → HasAt P i (put_one k v m)
  unfolding put_one
  put_one-keeps k i v m keeps (c, there, p) = elim (Bool-cases (k == i)) [
    | inl same ↦
        let e : i ≡ k = omega (arith, (==_iff k i).0 same) in
        let stays = find-emplace k k no_counters c m (rw e at there) in
        (put v c, rw e (find-update k k (put v) c _ stays ∙ rw (==_refl k) refl), keeps c p)
    | inr other ↦ put_one-other k i v m (λ e. let t = (==_iff k i).1 e in cc) (c, there, p)
  ]

  put_row-before :
      (k i : ℕ) (vs : List A) (m : Map ℕ IfaceCounters)
      → i < k
      → HasAt P i m
      → HasAt P i (put_row put k vs m)
  unfolding put_row put_one
  put_row-before k i [] m before h = h
  put_row-before k i (v ∷ vs) m before h =
      put_row-before (k + 1) i vs (put_one k v m) (omega (arith, before))
        (put_one-other k i v m (λ e. omega (arith, before, e)) h)

  put_row-at :
      (k n i : ℕ) (x : A) (vs : List A) (m : Map ℕ IfaceCounters)
      → ((c : IfaceCounters) → P (put x c))
      → get_elem? vs n ≡ some x
      → i ≡ k + n
      → HasAt P i (put_row put k vs m)
  unfolding put_row put_one
  put_row-at k n i x [] m now here e = cc
  put_row-at k zero i x (v ∷ vs) m now here e =
      let same : x ≡ v = cc in
      let at : i ≡ k = omega (arith, e) in
      rw at (
        put_row-before (k + 1) k vs (put_one k v m) (omega arith)
          (put_one-here k v m (λ c. rw same at (now c))))
  put_row-at k (suc n) i x (v ∷ vs) m now here e =
      put_row-at (k + 1) n i x vs (put_one k v m) now here (omega (arith, e))

  put_row-keeps :
      (k i : ℕ) (vs : List A) (m : Map ℕ IfaceCounters)
      → ((v : A) (c : IfaceCounters) → P c → P (put v c))
      → HasAt P i m
      → HasAt P i (put_row put k vs m)
  unfolding put_row put_one
  put_row-keeps k i [] m keeps h = h
  put_row-keeps k i (v ∷ vs) m keeps h =
      put_row-keeps (k + 1) i vs (put_one k v m) keeps (put_one-keeps k i v m (keeps v) h)

  -- The last row decides.
  put_rows-last :
      (i : ℕ) (x : A) (rows : List (List A)) (row : List A) (m : Map ℕ IfaceCounters)
      → ((c : IfaceCounters) → P (put x c))
      → get_elem? row i ≡ some x
      → HasAt P i (put_rows put (rows ++ (row ∷ [])) m)
  unfolding put_rows
  put_rows-last i x [] row m now here = put_row-at 0 i i x row m now here (omega arith)
  put_rows-last i x (r ∷ rows) row m now here =
      put_rows-last i x rows row (put_row put 0 r m) now here

  put_rows-keeps :
      (i : ℕ) (rows : List (List A)) (m : Map ℕ IfaceCounters)
      → ((v : A) (c : IfaceCounters) → P c → P (put v c))
      → HasAt P i m
      → HasAt P i (put_rows put rows m)
  unfolding put_rows
  put_rows-keeps i rows m keeps h =
      for_each-keeps {P = HasAt P i} (put_row put 0) rows m (λ r t. put_row-keeps 0 i r t keeps) h

-- The counters of one direction.
abbrev HasRx : ℕ × ℕ → IfaceCounters → Type 0
HasRx (pkts, bytes) c = (c.rx_pkts ≡ pkts) × (c.rx_bytes ≡ bytes)

put_simple-keeps :
    (n : Str) (x : ℕ × ℕ) (v : ℕ) (c : IfaceCounters) → HasRx x c → HasRx x (put_simple n v c)
unfolding put_simple
put_simple-keeps n x v c h = elim (Bool-cases (str_eq n drops_name)) [
  | inl is_drops ↦ rw is_drops h
  | inr other ↦ rw other h
]

put_combined-keeps :
    (n : Str) (x v : ℕ × ℕ) (c : IfaceCounters)
    → n ≢ rx_name
    → HasRx x c
    → HasRx x (put_combined n v c)
unfolding put_combined
put_combined-keeps n x v c differ h = elim (Bool-cases (str_eq n tx_name)) [
  | inl is_tx ↦ rw is_tx h
  | inr not_tx ↦ elim (Bool-cases (str_eq n rx_name)) [
    | inl is_rx ↦ absurd (differ ((str_eq_iff n rx_name).0 is_rx))
    | inr not_rx ↦ rw (not_tx, not_rx) h
  ]
]

module _ (i : ℕ) (x : ℕ × ℕ) where
  put_value-keeps_rx :
      (n : Str) (v : StatValue) (m : Map ℕ IfaceCounters)
      → n ≢ rx_name
      → HasAt (HasRx x) i m
      → HasAt (HasRx x) i (put_value n v m)
  unfolding put_value
  put_value-keeps_rx n (name_vector ns) m differ h = h
  put_value-keeps_rx n (counter_vector_simple rows) m differ h =
      put_rows-keeps (put_simple n) (HasRx x) i rows m (put_simple-keeps n x) h
  put_value-keeps_rx n (counter_vector_combined rows) m differ h =
      put_rows-keeps (put_combined n) (HasRx x) i rows m (λ v c. put_combined-keeps n x v c differ)
        h
  put_value-keeps_rx n other_value m differ h = h

  if-keeps_rx :
      (b : Bool) (m m' : Map ℕ IfaceCounters)
      → HasAt (HasRx x) i m
      → HasAt (HasRx x) i m'
      → HasAt (HasRx x) i (if b then m else m')
  if-keeps_rx true m m' h h' = h
  if-keeps_rx false m m' h h' = h'

  put_stat-keeps_rx :
      (s : Stat) (m : Map ℕ IfaceCounters)
      → s.name ≢ rx_name
      → HasAt (HasRx x) i m
      → HasAt (HasRx x) i (put_stat s m)
  unfolding put_stat
  put_stat-keeps_rx s m differ h =
      let kept = put_value-keeps_rx s.name s.value m differ h in
      if-keeps_rx (str_eq s.name drops_name) _ _ kept (
        if-keeps_rx (str_eq s.name tx_name) _ _ kept
          (if-keeps_rx (str_eq s.name rx_name) _ _ kept h))

  collect_counters-keeps_rx :
      (stats : List Stat) (m : Map ℕ IfaceCounters)
      → All (λ s. s.name ≢ rx_name) stats
      → HasAt (HasRx x) i m
      → HasAt (HasRx x) i (collect_counters stats m)
  unfolding collect_counters
  collect_counters-keeps_rx [] m others h = h
  collect_counters-keeps_rx (s ∷ ss) m (differ, others) h =
      collect_counters-keeps_rx ss (put_stat s m) others (put_stat-keeps_rx s m differ h)

-- The counters of what an interface has received are those that the last thread counted, whatever the
-- rows of the other threads hold, when the entry of the received packets comes once.
pub collect_counters-last :
    (before after : List Stat) (rows : List (List (ℕ × ℕ))) (row : List (ℕ × ℕ)) (i pkts bytes : ℕ)
    (m : Map ℕ IfaceCounters)
    → All (λ s. s.name ≢ rx_name) after
    → get_elem? row i ≡ some (pkts, bytes)
    → let entry : Stat = record {
      name = rx_name;
      value = counter_vector_combined (rows ++ (row ∷ []));
    } in
      (c : IfaceCounters) × (get_counters_by_index i
          (collect_counters (before ++ (entry ∷ after)) m)
        ≡ some c)
      × ((c.rx_pkts ≡ pkts) × (c.rx_bytes ≡ bytes))
unfolding collect_counters put_stat put_value put_combined str_eq
collect_counters-last before after rows row i pkts bytes m others here =
    let entry : Stat = record {
      name = rx_name;
      value = counter_vector_combined (rows ++ (row ∷ []));
    } in
    let m₁ = for_each put_stat before m in
    rw (for_each-append put_stat before (entry ∷ after) m) (
      collect_counters-keeps_rx i (pkts, bytes) after (put_stat entry m₁) others
        (put_rows-last (put_combined rx_name) (HasRx (pkts, bytes)) i (pkts, bytes) rows row m₁
          (λ c. (refl, refl)) here))
