-- ===== src/Runtime/Pending.antt =====
-- A session between PADI and PADR: pendeSession, checkSession and the timer.
use pppcpd.Common.{◌≡◌, refl, Option, none, some, true, false}
use pppcpd.Common.{Option-cases, inl, inr}
use pppcpd.Common.Map.{find, insert, erase, find-insert, find-erase, beq_refl}
use pppcpd.Common.Counting.{emplace_fresh, emplace_present}
use pppcpd.Keys.{ConnKey, conn_key}
use pppcpd.Runtime.{Runtime, cannot_pend, pend_session, check_session, clear_pending_session}

abbrev pub pending : ConnKey → Runtime → Option (Unit {0})
pending k rt = find k rt.pending_session

pub check-pending :
    (k : ConnKey) (rt : Runtime) {u : Unit {0}}
    → pending k rt ≡ some u
    → check_session k rt ≡ (true, record rt { pending_session = erase k rt.pending_session })
unfolding check_session
check-pending k rt h = rw (h, check_session)

pub check-absent :
    (k : ConnKey) (rt : Runtime) → pending k rt ≡ none → check_session k rt ≡ (false, rt)
unfolding check_session
check-absent k rt h = rw (h, check_session)

pend-fresh :
    (k : ConnKey) (rt : Runtime)
    → pending k rt ≡ none
    → pend_session k rt ≡ (none, record rt { pending_session = insert k tt rt.pending_session })
unfolding pend_session
pend-fresh k rt h = rw (emplace_fresh k tt rt.pending_session h)

pend-absent :
    (k : ConnKey) (rt : Runtime)
    → pending k rt ≡ none
    → pending k (record rt { pending_session = insert k tt rt.pending_session }) ≡ some tt
pend-absent k rt h = rw (find-insert k k tt rt.pending_session h, beq_refl k)

erased : (k : ConnKey) (rt : Runtime) → find k (erase k rt.pending_session) ≡ none
erased k rt = rw (find-erase k k rt.pending_session, beq_refl k)

-- What a PADI comes to, by whether its key is pending.
abbrev pub Pended : ConnKey → Runtime → Option (Unit {0}) → Type 0
Pended k rt (some u) = pend_session k rt ≡ (some cannot_pend, rt)
Pended k rt none =
    ((pend_session k rt).0 ≡ none)
    × ((check_session k (pend_session k rt).1).0 ≡ true)
    × ((check_session k (check_session k (pend_session k rt).1).1).0 ≡ false)

-- A PADI pends a session once: a key that is pending is refused and nothing changes. A key that is
-- not pending is admitted, the first check that follows succeeds, and a second one fails.
pub pend-check : (k : ConnKey) (rt : Runtime) → Pended k rt (pending k rt)
pend-check k rt = elim (Option-cases (pending k rt)) [
  | inr (u, h) ↦ rw h (unfold pend_session in rw (emplace_present k tt u rt.pending_session h))
  | inl h ↦
      let rt' : Runtime = record rt { pending_session = insert k tt rt.pending_session } in
      let first = check-pending k rt' (pend-absent k rt h) in
      let second =
        check-absent k (record rt' { pending_session = erase k rt'.pending_session })
          (erased k rt') in
      rw h (rw (pend-fresh k rt h) (refl, rw first, rw first (rw second)))
]

-- The timer of a PADI outlives the PADR that took its session: it takes the session of a later PADI
-- with the same key, whose PADR then fails.
pub stale_timer :
    (k : ConnKey) (rt : Runtime)
    → pending k rt ≡ none
    → let rt₁ = (check_session k (pend_session k rt).1).1 in
      let rt₂ = clear_pending_session k (pend_session k rt₁).1 in
      ((pend_session k rt₁).0 ≡ none) × ((check_session k rt₂).0 ≡ false)
unfolding clear_pending_session
stale_timer k rt h =
    let rt' : Runtime = record rt { pending_session = insert k tt rt.pending_session } in
    let rt₁ : Runtime = record rt' { pending_session = erase k rt'.pending_session } in
    let rt'' : Runtime = record rt₁ { pending_session = insert k tt rt₁.pending_session } in
    let rt₂ : Runtime = record rt'' { pending_session = erase k rt''.pending_session } in
    rw
      (pend-fresh k rt h, check-pending k rt' (pend-absent k rt h), pend-fresh k rt₁ (erased k rt'))
      (refl, rw (check-absent k rt₂ (erased k rt'')))
