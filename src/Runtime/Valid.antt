-- ===== src/Runtime/Valid.antt =====
-- What holds of the session tables between two events, and that the allocation of a session keeps it.
use pppcpd.Common.{ℕ, ◌^◌, ◌<◌, ◌≤◌, ◌≡◌, refl, sym, ap, List, ◌∷◌, arith}
use pppcpd.Common.{Option, none, some, Bool, true, false, ◌==◌, if◌then◌else◌, contains}
use pppcpd.Common.{Bool-cases, Option-cases, ◌⊎◌, inl, inr, ==_iff, ◌||◌}
use mathlib.Core.Path.{subst}
use pppcpd.Common.Outcome.{ok}
use pppcpd.Common.Map.{find, insert, find-insert}
use pppcpd.Common.Counting.{
  weight, count, Distinct, count-insert, Distinct-insert, count-find, emplace_fresh, insert_same,
  insert_other,
}
use pppcpd.Encap.{Encap}
use pppcpd.Session.{Session, Junk, new_session}
use pppcpd.Keys.{SessionKey, session_key, session_key_eq, session_key_eq_iff, key_of}
use pppcpd.Runtime.{
  Runtime, Error, maximum_of_sessions, next_id, search, id_count, place, allocate_session,
}
use pppcpd.Runtime.Search.{search-Found, Found}

abbrev pub has_id : ℕ → Session → Bool
has_id sid s = s.session_id == sid

pub record IsValid (rt : Runtime) : Type 0 where
  pub distinct : Distinct rt.active_sessions
  pub next_pos : 0 < rt.next_session_id
  pub next_lt : rt.next_session_id < 2 ^ 16
  pub in_range : (c : ℕ) → contains rt.session_set c ≡ true → (0 < c) × (c < 2 ^ 16)
  -- An id in use belongs to exactly one active session, an id not in use to none.
  pub one_each : (c : ℕ) → count (has_id c) rt.active_sessions ≡ weight (contains rt.session_set c)
  pub keyed :
      (k : SessionKey) (s : Session)
      → find k rt.active_sessions ≡ some s
      → k ≡ key_of s.encap s.session_id

-- It is a property of the tables alone.
pub IsValid-tables :
    (rt rt' : Runtime)
    → rt'.active_sessions ≡ rt.active_sessions
    → rt'.session_set ≡ rt.session_set
    → rt'.next_session_id ≡ rt.next_session_id
    → IsValid rt
    → IsValid rt'
IsValid-tables rt rt' a b c v = record {
  distinct = rw a v.distinct;
  next_pos = rw c v.next_pos;
  next_lt = rw c v.next_lt;
  in_range = rw b v.in_range;
  one_each = rw (a, b) v.one_each;
  keyed = rw a v.keyed;
}

-- What an allocation comes to.
abbrev pub IsAllocated : Junk → Encap → Runtime → (ℕ × Option Error) × Runtime → Type 0
IsAllocated junk e rt ((c, err), rt') =
    ((err ≡ some maximum_of_sessions)
      × (rt' ≡ rt)
      × ((i : ℕ) → 0 < i → i < 2 ^ 16 → contains rt.session_set i ≡ true))
    ⊎ ((err ≡ none)
        × (0 < c)
        × (c < 2 ^ 16)
        × (contains rt.session_set c ≡ false)
        × ((i : ℕ) → contains rt'.session_set i ≡ (c == i || contains rt.session_set i))
        × ((k : SessionKey)
            → find k rt'.active_sessions ≡ (
                if session_key_eq (key_of e c) k
                then some (new_session junk e c)
                else find k rt.active_sessions)))

-- The key of an id that is not in use is not in the map.
pub key_free :
    (rt : Runtime) (e : Encap) (c : ℕ)
    → IsValid rt
    → contains rt.session_set c ≡ false
    → find (key_of e c) rt.active_sessions ≡ none
key_free rt e c v free = elim (Option-cases (find (key_of e c) rt.active_sessions)) [
  | inl h ↦ h
  | inr (s, h) ↦
      let at : c ≡ s.session_id =
        ap (λ (k : SessionKey). k.session_id) (v.keyed (key_of e c) s h) in
      let held : 1 ≤ count (has_id c) rt.active_sessions =
        count-find (has_id c) (key_of e c) s rt.active_sessions h ((==_iff _ _).1 (sym at)) in
      absurd (omega (arith, rw free at (v.one_each c)))
]

next_id-range : (c : ℕ) → (0 < next_id c) × (next_id c < 2 ^ 16)
unfolding next_id
next_id-range c = ground arith

module _ (junk : Junk) (e : Encap) (c : ℕ) (rt : Runtime) where
  abbrev fresh_session : Session
  fresh_session = new_session junk e c

  abbrev grown : Runtime
  grown = record rt {
    session_set = c ∷ rt.session_set;
    active_sessions = insert (key_of e c) fresh_session rt.active_sessions;
    next_session_id = next_id c;
  }

  place-grown : find (key_of e c) rt.active_sessions ≡ none → place junk e c rt ≡ ((c, none), grown)
  unfolding place
  place-grown h = rw (emplace_fresh (key_of e c) fresh_session rt.active_sessions h)

  grown-one_each :
      IsValid rt
      → contains rt.session_set c ≡ false
      → (i : ℕ) → count (has_id i) grown.active_sessions ≡ weight (contains grown.session_set i)
  unfolding contains new_session
  grown-one_each v free i = ground (
    arith,
    v.one_each i,
    count-insert (has_id i) (key_of e c) fresh_session rt.active_sessions,
    ==_iff c i,
    free,
  )

  grown-keyed :
      IsValid rt
      → find (key_of e c) rt.active_sessions ≡ none
      → (k : SessionKey) (s : Session) → find k grown.active_sessions ≡ some s
      → k ≡ key_of s.encap s.session_id
  unfolding new_session
  grown-keyed v none_there k s h = elim (Bool-cases (session_key_eq (key_of e c) k)) [
    | inl same ↦
        let s_new : s ≡ fresh_session =
          insert_same (key_of e c) k fresh_session s rt.active_sessions none_there same h in
        rw s_new (sym ((session_key_eq_iff (key_of e c) k).0 same))
    | inr other ↦
        v.keyed k s
          (rw (insert_other (key_of e c) k fresh_session rt.active_sessions none_there other) at h)
  ]

  grown-IsValid :
      IsValid rt → 0 < c → c < 2 ^ 16 → contains rt.session_set c ≡ false → IsValid grown
  unfolding contains
  grown-IsValid v pos lt free =
      let none_there = key_free rt e c v free in
      record {
        distinct =
            Distinct-insert (key_of e c) fresh_session rt.active_sessions none_there v.distinct;
        next_pos = (next_id-range c).0;
        next_lt = (next_id-range c).1;
        in_range = λ i h. elim (Bool-cases (c == i)) [
          | inl same ↦ subst (λ (x : ℕ). (0 < x) × (x < 2 ^ 16)) ((==_iff c i).0 same) (pos, lt)
          | inr other ↦ v.in_range i (ground arith)
        ];
        one_each = grown-one_each v free;
        keyed = grown-keyed v none_there;
      }

contains_cons : (c i : ℕ) (ids : List ℕ) → contains (c ∷ ids) i ≡ (c == i || contains ids i)
unfolding contains
contains_cons c i ids = refl

-- In a valid state `allocateSession` always ends. It makes a session under an id that was not in use,
-- from 1 to 65535, takes that id alone and leaves the other sessions in place; or all 65535 ids are in
-- use, and it says so and changes nothing. The state it leaves is valid, and its other error, a key that
-- is there already, does not arise.
pub allocate_session-IsValid :
    (junk : Junk) (e : Encap) (rt : Runtime)
    → IsValid rt
    → (r : (ℕ × Option Error) × Runtime) × (allocate_session junk e rt ≡ ok r)
      × IsAllocated junk e rt r
      × IsValid r.1
unfolding allocate_session
allocate_session-IsValid junk e rt v =
    go (search-Found rt.session_set rt.next_session_id v.next_pos v.next_lt)
  where
    go :
        (o : Option ℕ) × (search id_count rt.session_set rt.next_session_id rt.next_session_id
            ≡ ok o)
          × Found rt.session_set rt.next_session_id o
        → (r : (ℕ × Option Error) × Runtime) × (allocate_session junk e rt ≡ ok r)
          × IsAllocated junk e rt r
          × IsValid r.1
    go (none, f, all) = (((0, some maximum_of_sessions), rt), rw f refl, inl (refl, refl, all), v)
    go (some c, f, (pos, lt, free, way)) =
        let none_there = key_free rt e c v free in
        (
          ((c, none), grown junk e c rt),
          rw (f, place-grown junk e c rt none_there) refl,
          inr (
            refl,
            pos,
            lt,
            free,
            λ i. contains_cons c i rt.session_set,
            λ k. find-insert (key_of e c) k (new_session junk e c) rt.active_sessions none_there,
          ),
          grown-IsValid junk e c rt v pos lt free,
        )
