-- ===== src/Aaa/Stop.antt =====
-- Taking sessions down: stopSession, mapIfaceToSession, and the destructor of a lingering session.
use pppcpd.Common.{without, ℕ, ◌≡◌, refl, [], ◌∷◌, arith}
use pppcpd.Common.{Option, none, some, ◌==◌, if◌then◌else◌}
use pppcpd.Common.{Bool-cases, Option-cases, inl, inr, ==_iff, get_elem?}
use pppcpd.Common.Map.{ℕ_key, str_key, find, erase, find-erase}
use pppcpd.Common.Counting.{
  count_list-without, count-erase, Distinct-erase, count-update, Distinct-update, update_missing,
}
use pppcpd.Aaa.{AaaSession, Aaa, Counters}
use pppcpd.Aaa.Methods.{
  destroy, let_go, stop_session, release, CountersOf, stop_acct, map_iface_to_session,
}
use pppcpd.Aaa.Held.{holds, HeldWith, Bounded, destroy-held, destroy-Bounded}
use pppcpd.Aaa.Exclusive.{IsExclusive}

destroy-sessions :
    (s : AaaSession) (a : Aaa)
    → ((destroy s a).sessions ≡ a.sessions) × ((destroy s a).lingering ≡ a.lingering)
unfolding destroy
destroy-sessions s a = ground arith

pub let_go-sessions : (s : AaaSession) (a : Aaa) → (let_go s a).sessions ≡ a.sessions
unfolding let_go
let_go-sessions s a = ground (arith, destroy-sessions s a)

let_go-held : (s : AaaSession) (a : Aaa) → HeldWith (s ∷ []) a → HeldWith [] (let_go s a)
unfolding let_go
let_go-held s a h = elim (Bool-cases s.acct) [
  | inl on ↦ rw on (λ n p i e nz. omega (arith, h n p i e nz))
  | inr off ↦ rw off (destroy-held s a h)
]

let_go-Bounded : (s : AaaSession) (a : Aaa) → Bounded a → Bounded (let_go s a)
unfolding let_go
let_go-Bounded s a b = elim (Bool-cases s.acct) [
  | inl on ↦ rw on b
  | inr off ↦ rw off (destroy-Bounded s a b)
]

-- A session off the map, the rest of the state as it was.
off_map-held :
    (sid : ℕ) (s : AaaSession) (a b : Aaa)
    → IsExclusive a
    → find sid a.sessions ≡ some s
    → b.pools ≡ a.pools
    → b.sessions ≡ erase sid a.sessions
    → b.lingering ≡ a.lingering
    → HeldWith (s ∷ []) b
off_map-held sid s a b x e hp hs hl n p i f nz =
    rw (hs, hl)
      (omega (
        arith,
        x.held n p i (rw hp at f) nz,
        count-erase (holds n i) sid s a.sessions x.distinct e,
      ))

stop_acct_kept :
    (c : Option Counters) (s : AaaSession) (a : Aaa)
    → ((stop_acct c s a).pools ≡ a.pools) × ((stop_acct c s a).lingering ≡ a.lingering)
unfolding stop_acct
stop_acct_kept c s a = ground arith

-- What stopSession comes to: the session is off the map, and the others stay.
pub record IsStopped (sid : ℕ) (a b : Aaa) : Type 0 where
  pub gone : (j : ℕ) → find j b.sessions ≡ (if sid == j then none else find j a.sessions)
  pub exclusive : IsExclusive b

-- `stopSession` takes exactly that session off the map, and no address of a pool gets two holders,
-- also where the session lingers for its last accounting request.
pub stop_session-IsStopped :
    (counters : CountersOf) (sid : ℕ) (a : Aaa)
    → IsExclusive a
    → IsStopped sid a (stop_session counters sid a)
unfolding stop_session
stop_session-IsStopped counters sid a x = elim (Option-cases (find sid a.sessions)) [
  | inl missing ↦
      rw (missing, stop_session)
        (record { gone = λ j. ground (arith, missing, ==_iff sid j); exclusive = x })
  | inr (s, e) ↦
      let b : Aaa = record (stop_acct (counters s.ifindex) s a) {
        sessions = erase sid a.sessions;
      } in
      let (hp, hl) = stop_acct_kept (counters s.ifindex) s a in
      let held : HeldWith (s ∷ []) b = off_map-held sid s a b x e hp refl hl in
      rw (e, stop_session)
        (record {
          gone = λ j. rw (let_go-sessions s b) (find-erase sid j a.sessions);
          exclusive = record {
            distinct = rw (let_go-sessions s b) (Distinct-erase sid a.sessions x.distinct);
            held = let_go-held s b held;
            bounded = let_go-Bounded s b (rw hp x.bounded);
          };
        })
]

-- The destructor of a session that lingered keeps the invariant.
pub release-IsExclusive : (i : ℕ) (a : Aaa) → IsExclusive a → IsExclusive (release i a)
unfolding release
release-IsExclusive i a x = elim (Option-cases (get_elem? a.lingering i)) [
  | inl missing ↦ rw (missing, release) x
  | inr (s, e) ↦
      let b : Aaa = record a { lingering = without i a.lingering } in
      let held : HeldWith (s ∷ []) b = λ n p j f nz.
        omega (arith, x.held n p j f nz, count_list-without (holds n j) i s a.lingering e) in
      rw (e, release)
        (record {
          distinct = rw (destroy-sessions s b).0 x.distinct;
          held = destroy-held s b held;
          bounded = destroy-Bounded s b x.bounded;
        })
]

-- An interface number changes nothing that the invariant speaks of.
pub map_iface_to_session-IsExclusive :
    (sid ifi : ℕ) (a : Aaa) → IsExclusive a → IsExclusive (map_iface_to_session sid ifi a)
unfolding map_iface_to_session
map_iface_to_session-IsExclusive sid ifi a x =
    let f : AaaSession → AaaSession = λ s. record s { ifindex = some ifi } in
    elim (Option-cases (find sid a.sessions)) [
      | inl missing ↦
          rw (update_missing sid f a.sessions missing)
            (record { distinct = x.distinct; held = x.held; bounded = x.bounded })
      | inr (s, e) ↦ record {
        distinct = Distinct-update sid f a.sessions x.distinct;
        held = λ n p i g nz.
            omega (arith, x.held n p i g nz, count-update (holds n i) sid s f a.sessions e);
        bounded = x.bounded;
      }
    ]
