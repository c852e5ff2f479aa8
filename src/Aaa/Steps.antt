-- ===== src/Aaa/Steps.antt =====
-- Every method of AAA keeps IsExclusive, and the methods that start a session end.
use pppcpd.Common.{ℕ, ◌<◌, ◌≤◌, ◌≡◌, ◌≢◌, refl, List, [], ◌∷◌, ◌++◌, arith}
use pppcpd.Common.{Option, none, some, true, false, ◌==◌, if◌then◌else◌}
use pppcpd.Common.{Bool-cases, ◌⊎◌, inl, inr, ==_refl, ==_iff}
use pppcpd.Common.Outcome.{Outcome, ok}
use pppcpd.Common.Map.{Str, ℕ_key, str_key, find, insert, find-insert}
use pppcpd.Common.Counting.{emplace_fresh}
use pppcpd.Aaa.{
  AaaSession, Aaa, RadiusResponse, uint32_max, is_empty, Error, no_accept, no_space, no_template,
}
use pppcpd.Aaa.Methods.{
  free_id, start_session_none, start_acct, process_radius_answer, access_accept, Call,
}
use pppcpd.Aaa.Exclusive.{
  IsExclusive, IsFree, free_id-IsFree, joined-IsExclusive, new_session-Built,
  new_radius_session-Built,
}

-- A refused start changes nothing; a start that succeeds puts a session under the least id that was
-- not in use.
abbrev pub IsStarted : Str → Aaa → (ℕ × Option Error) × Aaa → Type 0
IsStarted user a ((i, e), a') =
    ((e ≢ none) × (a' ≡ a))
    ⊎ ((e ≡ none)
        × IsFree 0 uint32_max a.sessions i
        × ((s : AaaSession) × (find i a'.sessions ≡ some s) × (s.username ≡ user)))

abbrev pub Started : Str → Aaa → Outcome ((ℕ × Option Error) × Aaa) → Type 0
Started user a o =
    (r : (ℕ × Option Error) × Aaa) × (o ≡ ok r) × IsStarted user a r × IsExclusive r.1

below_end : (r end : ℕ) → r ≤ end → (r == end) ≡ false → r < end
below_end r end le h = ground arith

-- `startSessionNone` always ends. It refuses without a change, or makes a session for the user under
-- the least id that is not in use; either way no address of a pool has two holders.
pub start_session_none-Started :
    (user : Str) (a : Aaa) → IsExclusive a → Started user a (start_session_none user a)
unfolding start_session_none
start_session_none-Started user a x = elim (Bool-cases (is_empty a.local_template)) [
  | inl empty ↦ (((uint32_max, some no_template), a), rw empty refl, inl (λ e. cc, refl), x)
  | inr set ↦ elim (Bool-cases (free_id uint32_max 0 a.sessions == uint32_max)) [
    | inl full ↦ (((uint32_max, some no_space), a), rw (set, full) refl, inl (λ e. cc, refl), x)
    | inr room ↦
        let i = free_id uint32_max 0 a.sessions in
        let idle : IsFree 0 uint32_max a.sessions i = free_id-IsFree uint32_max 0 a.sessions in
        let (s, a', e, held, bounded, same, u) = new_session-Built i user a.local_template a x in
        let fresh : find i a'.sessions ≡ none =
          rw same (idle.free (below_end _ _ idle.high room)) in
        (
          ((i, none), record a' { sessions = insert i s a'.sessions }),
          rw (set, room, e, emplace_fresh i s a'.sessions fresh),
          inr (refl, idle, (s, rw (find-insert i i s a'.sessions fresh, ==_refl), u)),
          joined-IsExclusive i s a' fresh (rw same x.distinct) held bounded,
        )
  ]
]

-- The calls that an answer other than Access-Accept begins with.
abbrev pub refusal : ℕ → List Call
refusal code = if code == access_accept then [] else (0, some no_accept) ∷ []

-- Every id that a session can get is in use.
abbrev pub AreUsedUp : Aaa → Type 0
AreUsedUp a = (i : ℕ) → i < uint32_max → find i a.sessions ≢ none

used_up : (a : Aaa) → (free_id uint32_max 0 a.sessions == uint32_max) ≡ true → AreUsedUp a
used_up a full i l =
    let idle : IsFree 0 uint32_max a.sessions (free_id uint32_max 0 a.sessions) =
      free_id-IsFree uint32_max 0 a.sessions in
    let top : free_id uint32_max 0 a.sessions ≡ uint32_max = (==_iff _ _).0 full in
    idle.used i (omega arith) (omega (arith, top))

abbrev pub IsAnswered : Str → ℕ → Aaa → List Call × Aaa → Type 0
IsAnswered user code a (calls, a') =
    (AreUsedUp a × (calls ≡ refusal code ++ ((0, some no_space) ∷ [])) × (a' ≡ a))
    ⊎ ((i : ℕ) × (calls ≡ refusal code ++ ((i, none) ∷ []))
        × IsFree 0 uint32_max a.sessions i
        × ((s : AaaSession) × (find i a'.sessions ≡ some s) × (s.username ≡ user)))

abbrev pub Answered : Str → ℕ → Aaa → Outcome (List Call × Aaa) → Type 0
Answered user code a o =
    (r : List Call × Aaa) × (o ≡ ok r) × IsAnswered user code a r × IsExclusive r.1

start_acct-sessions : (s : AaaSession) (a : Aaa) → (start_acct s a).sessions ≡ a.sessions
unfolding start_acct
start_acct-sessions s a = ground arith

start_acct-IsExclusive : (s : AaaSession) (a : Aaa) → IsExclusive a → IsExclusive (start_acct s a)
unfolding start_acct
start_acct-IsExclusive s a x = elim (Bool-cases s.acct) [
  | inl on ↦ rw on (record { distinct = x.distinct; held = x.held; bounded = x.bounded })
  | inr off ↦ rw off x
]

-- With an accounting server, a RADIUS answer is always worked off: whatever its code is, a session
-- for the user is made under the least id that is not in use and the callback is told of it, after
-- a refusal if the code is not Access-Accept. Only if each of the 2^32 - 1 ids is in use, the callback
-- is told of that and nothing changes.
-- No address of a pool gets two holders.
pub process_radius_answer-Answered :
    (user : Str) (code : ℕ) (res : RadiusResponse) (a : Aaa)
    → IsExclusive a
    → a.has_acct ≡ true
    → Answered user code a (process_radius_answer user code res a)
unfolding process_radius_answer
process_radius_answer-Answered user code res a x acct =
    elim (Bool-cases (free_id uint32_max 0 a.sessions == uint32_max)) [
      | inl full ↦ (
        (refusal code ++ ((0, some no_space) ∷ []), a),
        rw full refl,
        inl (used_up a full, refl, refl),
        x,
      )
      | inr room ↦
          let i = free_id uint32_max 0 a.sessions in
          let idle : IsFree 0 uint32_max a.sessions i = free_id-IsFree uint32_max 0 a.sessions in
          let (s, a', e, held, bounded, same, u) =
            new_radius_session-Built i user a.local_template res a x in
          let fresh : find i a'.sessions ≡ none =
            rw same (idle.free (below_end _ _ idle.high room)) in
          let b : Aaa = record a' { sessions = insert i s a'.sessions } in
          (
            (refusal code ++ ((i, none) ∷ []), start_acct s b),
            simp (room, acct, e, emplace_fresh i s a'.sessions fresh),
            inr (
              i,
              refl,
              idle,
              (s, rw (start_acct-sessions s b, find-insert i i s a'.sessions fresh, ==_refl), u),
            ),
            start_acct-IsExclusive s b
                (joined-IsExclusive i s a' fresh (rw same x.distinct) held bounded),
          )
    ]
