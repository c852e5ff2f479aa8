-- ===== src/Runtime/Release.antt =====
-- The end of a session: deallocateSession, and the pending sessions.
use pppcpd.Common.{ℕ, ◌≡◌, refl, arith}
use pppcpd.Common.{
  Option, none, some, true, false, ◌==◌, if◌then◌else◌, contains, remove, contains-remove,
}
use pppcpd.Common.{Bool-cases, Option-cases, ◌⊎◌, inl, inr, ==_iff}
use pppcpd.Common.Map.{find, find_if, find-erase}
use pppcpd.Common.Counting.{weight, count, count-erase, Distinct-erase, find_if-find, find_if-none}
use pppcpd.Session.{Session}
use pppcpd.Keys.{SessionKey, session_key, session_key_eq, key_of}
use pppcpd.Aaa.Methods.{CountersOf, stop_session}
use pppcpd.Runtime.{Runtime, Error, cannot_find_session, deallocate_session, remove_active}
use pppcpd.Runtime.Valid.{IsValid, has_id}

-- What the deallocation of an id in use comes to: its session `s` was the only one with the id, its
-- AAA session is stopped, and it alone is off the table.
pub record IsReleased (counters : CountersOf) (sid : ℕ) (rt rt' : Runtime) (s : Session)
    : Type 0 where
  pub was_there : find (key_of s.encap sid) rt.active_sessions ≡ some s
  pub same_id : s.session_id ≡ sid
  pub stopped : rt'.aaa ≡ stop_session counters s.aaa_session_id rt.aaa
  pub ids :
      (i : ℕ) → contains rt'.session_set i ≡ (if sid == i then false else contains rt.session_set i)
  pub others :
      (k : SessionKey)
      → find k rt'.active_sessions
        ≡ (if session_key_eq (key_of s.encap sid) k then none else find k rt.active_sessions)

abbrev pub Released : CountersOf → ℕ → Runtime → Option Error × Runtime → Type 0
Released counters sid rt (err, rt') =
    ((contains rt.session_set sid ≡ false) × (err ≡ some cannot_find_session) × (rt' ≡ rt))
    ⊎ ((contains rt.session_set sid ≡ true)
        × (err ≡ none)
        × ((s : Session) × IsReleased counters sid rt rt' s))

module _ (counters : CountersOf) (sid : ℕ) (rt : Runtime) (v : IsValid rt)
    (used : contains rt.session_set sid ≡ true) (k : SessionKey) (s : Session)
    (there : find k rt.active_sessions ≡ some s) (at : s.session_id ≡ sid) where
  abbrev left : Runtime
  left = record (remove_active counters (some (k, s)) rt) {
    session_set = remove sid rt.session_set;
  }

  left-one_each :
      (c : ℕ) → count (has_id c) left.active_sessions ≡ weight (contains left.session_set c)
  left-one_each c = ground (
    arith,
    v.one_each c,
    count-erase (has_id c) k s rt.active_sessions v.distinct there,
    contains-remove sid c rt.session_set,
    ==_iff sid c,
  )

  left-keyed :
      (j : SessionKey) (t : Session)
      → find j left.active_sessions ≡ some t
      → j ≡ key_of t.encap t.session_id
  left-keyed j t h = v.keyed j t (ground (arith, find-erase k j rt.active_sessions))

  left-IsValid : IsValid left
  left-IsValid = record {
    distinct = Distinct-erase k rt.active_sessions v.distinct;
    next_pos = v.next_pos;
    next_lt = v.next_lt;
    in_range = λ c h. v.in_range c (ground (arith, contains-remove sid c rt.session_set));
    one_each = left-one_each;
    keyed = left-keyed;
  }

  left-IsReleased : IsReleased counters sid rt left s
  left-IsReleased =
      let key : k ≡ key_of s.encap sid = rw at at (v.keyed k s there) in
      record {
        was_there = rw (← key) there;
        same_id = at;
        stopped = refl;
        ids = λ i. contains-remove sid i rt.session_set;
        others = λ j. rw (← key) (find-erase k j rt.active_sessions);
      }

-- In a valid state `deallocateSession` refuses an id that is not in use and changes nothing. For an
-- id in use there is one session, whose AAA session it stops; it takes that session and that id
-- away, every other session stays, and the state is valid again.
pub deallocate_session-Released :
    (counters : CountersOf) (sid : ℕ) (rt : Runtime)
    → IsValid rt
    → Released counters sid rt (deallocate_session counters sid rt)
      × IsValid (deallocate_session counters sid rt).1
unfolding deallocate_session
deallocate_session-Released counters sid rt v = elim (Bool-cases (contains rt.session_set sid)) [
  | inr unused ↦ rw unused (inl (refl, refl, refl), v)
  | inl used ↦ elim (Option-cases (find_if (has_id sid) rt.active_sessions)) [
    | inl missing ↦ absurd (
        omega (
          arith,
          find_if-none (has_id sid) rt.active_sessions missing,
          rw used at (v.one_each sid),
        ))
    | inr ((k, s), found) ↦
        let (there, at) = find_if-find (has_id sid) k s rt.active_sessions v.distinct found in
        let at' : s.session_id ≡ sid = (==_iff _ _).0 at in
        rw (used, found)
          (
            inr (refl, refl, (s, left-IsReleased counters sid rt v used k s there at')),
            left-IsValid counters sid rt v used k s there at',
          )
  ]
]
