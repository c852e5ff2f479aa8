-- ===== src/Ppp/Timer.antt =====
-- The echo timer of src/session.cpp: sendEchoReq. The timer keeps the session object alive, so that it
-- also runs on one that deallocateSession took off the tables; its destructor, which would cancel
-- the timer, does not run before.
use pppcpd.Common.{
  ℕ, zero, suc, ◌+◌, ◌<◌, ◌≤◌, ◌≡◌, refl, ◌∙◌, arith, Option, none, some, inl, inr, true, contains,
}
use pppcpd.Common.{==_refl, ==_iff, Bool-cases, false, sym}
use pppcpd.Common.Outcome.{Outcome, ok, ◌>>=◌}
use pppcpd.Common.Map.{find, erase, find-erase, beq_refl}
use pppcpd.Common.Counting.{count, count-find, count-erase}
use pppcpd.Session.{Session}
use pppcpd.Keys.{SessionKey, session_key, session_key_eq, session_key_eq_iff, key_of}
use pppcpd.Fsm.{layer_down, FsmRet}
use pppcpd.Link.{Link}
use pppcpd.Lcp.{send_echo_req, with_echoes}
use pppcpd.Lcp.Echo.{requested, send_echo-requested, send_echo-timeout}
use pppcpd.Runtime.{Runtime, deallocate_session}
use pppcpd.Runtime.Valid.{IsValid, has_id}
use pppcpd.Runtime.Release.{IsReleased, deallocate_session-Released}
use pppcpd.Ppp.{Env, link_of, put}
use pppcpd.Ppp.Isolation.{IsIsolated, put-IsIsolated, put-others, released_key, released-IsIsolated}

-- What follows on an echo request of the session object in `l`, whose timer is restarted unless the
-- layer went down. The object comes back with the runtime.
abbrev pub after_echo : Env → Runtime → FsmRet × Link → Option Session × Runtime
after_echo env rt ((layer_down, e), l) =
    (none, (deallocate_session env.counters l.session.session_id rt).1)
after_echo env rt ((a, e), l) = (some l.session, rt)

-- sendEchoReq of a session in the tables, and of one that was taken off them.
unfoldable pub echo_active : Env → SessionKey → Runtime → Outcome (Option Session × Runtime)
echo_active env k rt = elim (find k rt.active_sessions) [
  | none ↦ ok (none, rt)
  | some s ↦ (do r ← send_echo_req (link_of env rt s); ok (after_echo env (put k r.1 rt) r))
]

unfoldable pub echo_orphan : Env → Session → Runtime → Outcome (Option Session × Runtime)
echo_orphan env s rt = do
  r ← send_echo_req (link_of env rt s)
  ok (after_echo env (record rt { ppp_outcoming = r.1.ppp_outcoming }) r)

-- The timer's runs on a session of the tables.
unfoldable pub echo_ticks : Env → SessionKey → ℕ → Runtime → Outcome Runtime
echo_ticks env k zero rt = ok rt
echo_ticks env k (suc n) rt = do (o, rt') ← echo_active env k rt; echo_ticks env k n rt'

module _ (env : Env) (k : SessionKey) where
  one_more :
      (rt : Runtime) (s : Session)
      → find k rt.active_sessions ≡ some s
      → s.lcp.echo_counter < 9
      → echo_active env k rt
        ≡ ok (some (requested (link_of env rt s)).session, put k (requested (link_of env rt s)) rt)
  unfolding echo_active
  one_more rt s there c = rw (there, echo_active, send_echo-requested (link_of env rt s) c) refl

  the_last :
      (rt : Runtime) (s : Session)
      → find k rt.active_sessions ≡ some s
      → s.lcp.echo_counter ≡ 9
      → (l : Link) × (l.session.encap ≡ s.encap)
        × (l.session.session_id ≡ s.session_id)
        × (echo_active env k rt
            ≡ ok (none, (deallocate_session env.counters l.session.session_id (put k l rt)).1))
  unfolding echo_active
  the_last rt s there c = (
    with_echoes (s.lcp.echo_counter + 1) (link_of env rt s),
    refl,
    refl,
    rw (there, echo_active, send_echo-timeout (link_of env rt s) c) refl,
  )

  id_used :
      (rt : Runtime) (s : Session)
      → IsValid rt
      → find k rt.active_sessions ≡ some s
      → contains rt.session_set s.session_id ≡ true
  id_used rt s v there =
      let held : 1 ≤ count (has_id s.session_id) rt.active_sessions =
        count-find (has_id s.session_id) k s rt.active_sessions there (==_refl s.session_id) in
      ground (arith, held, v.one_each s.session_id)

  removed :
      (rt : Runtime) (s : Session) (v : IsValid rt)
      → (there : find k rt.active_sessions ≡ some s)
      → (l : Link) (e : l.session.encap ≡ s.encap) (i : l.session.session_id ≡ s.session_id)
      → let rt' = (deallocate_session env.counters l.session.session_id (put k l rt)).1 in
        IsIsolated k rt rt' × (find k rt'.active_sessions ≡ none)
  unfolding put
  removed rt s v there l e i =
      let x = put-IsIsolated k rt v s there l (e, i) in
      let rt' = (deallocate_session env.counters l.session.session_id (put k l rt)).1 in
      let (how, valid) =
        deallocate_session-Released env.counters l.session.session_id (put k l rt) x.valid in
      let used : contains rt.session_set l.session.session_id ≡ true =
        rw i (id_used rt s v there) in
      elim how [
        | inl (unused, r, same) ↦ absurd (cc)
        | inr (u, r, (t, y)) ↦ (
          released-IsIsolated k rt v s there env.counters l (e, i) rt' t y valid,
          y.others k ∙ rw (released_key k rt v s there env.counters l (e, i) rt' t y valid) refl,
        )
      ]

  IsIsolated-trans :
      (rt₁ rt₂ rt₃ : Runtime) → IsIsolated k rt₁ rt₂ → IsIsolated k rt₂ rt₃ → IsIsolated k rt₁ rt₃
  IsIsolated-trans rt₁ rt₂ rt₃ x y = record {
    valid = y.valid;
    others = λ j h. y.others j h ∙ x.others j h;
    ids = λ c h. y.ids c h ∙ x.ids c h;
  }

-- A peer that stops answering loses its session: when `n` more requests bring the count of unanswered
-- ones to 9, the run of the timer after them takes the session off the tables, which stay valid, and
-- no other session is touched.
pub echo_ticks-gone :
    (env : Env) (k : SessionKey) (n : ℕ) (rt : Runtime) (s : Session)
    → IsValid rt
    → find k rt.active_sessions ≡ some s
    → s.lcp.echo_counter + n ≡ 9
    → (rt' : Runtime) × (echo_ticks env k (suc n) rt ≡ ok rt')
      × IsIsolated k rt rt'
      × (find k rt'.active_sessions ≡ none)
unfolding echo_ticks
echo_ticks-gone env k zero rt s v there c =
    let (l, e, i, run) = the_last env k rt s there (omega arith) in
    let (x, gone) = removed env k rt s v there l e i in
    ((deallocate_session env.counters l.session.session_id (put k l rt)).1, rw run refl, x, gone)
echo_ticks-gone env k (suc n) rt s v there c =
    let l = requested (link_of env rt s) in
    let x = put-IsIsolated k rt v s there l (refl, refl) in
    let there' : find k (put k l rt).active_sessions ≡ some l.session =
      put-others k rt v s there l k ∙ rw (beq_refl k) refl in
    let (rt', run, y, gone) =
      echo_ticks-gone env k n (put k l rt) l.session x.valid there' (omega arith) in
    (
      rt',
      rw (one_more env k rt s there (omega arith), run) refl,
      IsIsolated-trans env k rt (put k l rt) rt' x y,
      gone,
    )

-- Two sessions of the tables with one id stand under one key.
same_place :
    (rt : Runtime) (j k : SessionKey) (s t : Session)
    → IsValid rt
    → find j rt.active_sessions ≡ some s
    → find k rt.active_sessions ≡ some t
    → s.session_id ≡ t.session_id
    → session_key_eq j k ≡ true
same_place rt j k s t v a b e = elim (Bool-cases (session_key_eq j k)) [
  | inl same ↦ same
  | inr other ↦
      let id = s.session_id in
      let there : find k (erase j rt.active_sessions) ≡ some t =
        find-erase j k rt.active_sessions ∙ rw other b in
      let left : 1 ≤ count (has_id id) (erase j rt.active_sessions) =
        count-find (has_id id) k t (erase j rt.active_sessions) there ((==_iff _ _).1 (sym e)) in
      let taken = count-erase (has_id id) j s rt.active_sessions v.distinct a in
      let one = ==_refl id in absurd (ground (arith, left, taken, one, v.one_each id))
]

-- The timer of a session object that is not in the tables any more ends, once nine of its requests went
-- unanswered, with the deallocation of whichever session `t` of the tables has its id by then: another
-- one, under another key, however few echoes it missed. `t` is off the tables afterwards, and its AAA
-- session is stopped.
pub echo_orphan-Released :
    (env : Env) (s : Session) (rt : Runtime) (k : SessionKey) (t : Session)
    → IsValid rt
    → s.lcp.echo_counter ≡ 9
    → find (key_of s.encap s.session_id) rt.active_sessions ≡ none
    → find k rt.active_sessions ≡ some t
    → t.session_id ≡ s.session_id
    → (session_key_eq (key_of s.encap s.session_id) k ≡ false)
      × ((rt' : Runtime) × (echo_orphan env s rt ≡ ok (none, rt'))
          × (find k rt'.active_sessions ≡ none)
          × IsReleased env.counters s.session_id rt rt' t)
unfolding echo_orphan
echo_orphan-Released env s rt k t v c off there id =
    let l = link_of env rt s in
    let sid = s.session_id in
    let rt' = (deallocate_session env.counters sid rt).1 in
    let used : contains rt.session_set sid ≡ true = rw id at (id_used env k rt t v there) in
    let (how, valid) = deallocate_session-Released env.counters sid rt v in
    let released : (key_of t.encap sid ≡ k) × IsReleased env.counters sid rt rt' t = elim how [
      | inl (unused, r, same) ↦ absurd (cc)
      | inr (u, r, (t', y)) ↦
          let place : key_of t'.encap sid ≡ k =
            (session_key_eq_iff _ _).0 (
              same_place rt (key_of t'.encap sid) k t' t v y.was_there there
                (y.same_id ∙ sym id)) in
          let held : find k rt.active_sessions ≡ some t' = rw place at y.was_there in
          let one : t' ≡ t = cc (held, there) in (rw one at place, rw one at y)
    ] in
    (
      elim (Bool-cases (session_key_eq (key_of s.encap sid) k)) [
        | inl same ↦ cc ((session_key_eq_iff (key_of s.encap sid) k).0 same, off, there)
        | inr other ↦ other
      ],
      (
        rt',
        rw (send_echo-timeout l c) refl,
        released.1.others k ∙ rw (released.0, beq_refl k) refl,
        released.1,
      ),
    )
