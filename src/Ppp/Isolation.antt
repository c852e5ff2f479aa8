-- ===== src/Ppp/Isolation.antt =====
-- processPPP of src/ppp.cpp and the tables of src/runtime.cpp: what a packet can touch.
use pppcpd.Common.{ℕ, ◌≡◌, refl, sym, ap, ◌∙◌, arith, Option, none, some, inl, inr}
use pppcpd.Common.{
  true, false, not, ◌&&◌, ◌==◌, ==_refl, ◌≤◌, if◌then◌else◌, Bool-cases, Option-cases, contains,
}
use pppcpd.Common.Bytes.{Bytes, load8, load16, bswap16}
use pppcpd.Common.Outcome.{ok, Holds, Holds-any, Holds-bind, Holds-if}
use pppcpd.Common.Map.{find, beq_refl}
use pppcpd.Common.Counting.{weight, count, count-update, count-find, find-update, Distinct-update}
use pppcpd.Encap.{Encap}
use pppcpd.Session.{Session}
use pppcpd.Keys.{SessionKey, session_key, session_key_eq, session_key_eq_iff, key_of}
use pppcpd.Fsm.{
  no_action, layer_up, layer_down, FsmRet, receive, open_event, layer_up_event, code_at,
}
use pppcpd.Fsm.Keeps.{receive-Kept, open_event-Kept, layer_up_event-Kept}
use pppcpd.Link.{Link, proto_lcp, proto_pap, proto_chap}
use pppcpd.Lcp.{lcp_vtable}
use pppcpd.Ipcp.{proto_ipcp, ipcp_vtable}
use pppcpd.Pap.{pap_receive}
use pppcpd.Chap.{chap_receive, chap_open}
use pppcpd.Aaa.{Aaa, is_empty}
use pppcpd.Aaa.Methods.{CountersOf, map_iface_to_session}
use pppcpd.Runtime.{Runtime, Error, deallocate_session}
use pppcpd.Runtime.Valid.{IsValid, IsValid-tables, has_id}
use pppcpd.Runtime.Release.{IsReleased, deallocate_session-Released}
use pppcpd.Ppp.{
  Env, Report, done, link_of, put, start_lcp, authenticate, after_lcp, after_ipcp, reject_proto,
  by_proto, deliver, process_ppp, provision_dp, terminated, with_aaa, Vpp, started,
}
use pppcpd.Ppp.Owner.{IsOf, Owns, lcp-IsSteady, ipcp-IsSteady, start_network-Owns}
use pppcpd.Ppp.Logins.{Reports, pap_receive-Owns, chap_receive-Owns}

-- The tables are valid, and nothing in them changed but at that key and for its id.
pub record IsIsolated (k : SessionKey) (rt rt' : Runtime) : Type 0 where
  pub valid : IsValid rt'
  pub others :
      (j : SessionKey)
      → session_key_eq k j ≡ false
      → find j rt'.active_sessions ≡ find j rt.active_sessions
  pub ids :
      (c : ℕ) → (k.session_id == c) ≡ false → contains rt'.session_set c ≡ contains rt.session_set c

abbrev pub Isolated : SessionKey → Runtime → Report × Runtime → Type 0
Isolated k rt (r, rt') = IsIsolated k rt rt'

pub untouched : (k : SessionKey) (rt : Runtime) → IsValid rt → IsIsolated k rt rt
untouched k rt v = record { valid = v; others = λ j h. refl; ids = λ c h. refl }

module _ (k : SessionKey) (rt : Runtime) (v : IsValid rt) (s : Session)
    (there : find k rt.active_sessions ≡ some s) where
  abbrev Mine : Link → Type 0
  Mine = Owns s.encap s.session_id

  its_key : k ≡ key_of s.encap s.session_id
  its_key = v.keyed k s there

  pub put-others :
      (l : Link) (j : SessionKey)
      → find j (put k l rt).active_sessions
        ≡ (if session_key_eq k j then some l.session else find j rt.active_sessions)
  unfolding put
  put-others l j = find-update k j (λ t. l.session) s rt.active_sessions there

  put-one_each :
      (l : Link)
      → Mine l
      → (c : ℕ)
      → count (has_id c) (put k l rt).active_sessions ≡ weight (contains (put k l rt).session_set c)
  unfolding put
  put-one_each l (e, i) c =
      let k' = count-update (has_id c) k s (λ t. l.session) rt.active_sessions there in
      let w : weight (has_id c l.session) ≡ weight (has_id c s) = rw i refl in
      omega (arith, k', w, v.one_each c)

  put-keyed :
      (l : Link)
      → Mine l
      → (j : SessionKey) (t : Session) → find j (put k l rt).active_sessions ≡ some t
      → j ≡ key_of t.encap t.session_id
  put-keyed l (e, i) j t h = elim (Bool-cases (session_key_eq k j)) [
    | inl same ↦
        let t_is : some t ≡ some l.session = sym h ∙ (put-others l j ∙ rw same refl) in
        let at : t ≡ l.session = cc in
        rw (at, e, i) (sym ((session_key_eq_iff k j).0 same) ∙ its_key)
    | inr other ↦ v.keyed j t (sym (put-others l j ∙ rw other refl) ∙ h)
  ]

  put-IsValid : (l : Link) → Mine l → IsValid (put k l rt)
  unfolding put
  put-IsValid l p = record {
    distinct = Distinct-update k (λ t. l.session) rt.active_sessions v.distinct;
    next_pos = v.next_pos;
    next_lt = v.next_lt;
    in_range = v.in_range;
    one_each = put-one_each l p;
    keyed = put-keyed l p;
  }

  pub put-IsIsolated : (l : Link) → Mine l → IsIsolated k rt (put k l rt)
  unfolding put
  put-IsIsolated l p = record {
    valid = put-IsValid l p;
    others = λ j h. put-others l j ∙ rw h refl;
    ids = λ c h. refl;
  }

  -- The AAA stands beside the tables.
  pub with_aaa-IsIsolated :
      (a : Aaa) (rt' : Runtime) → IsIsolated k rt rt' → IsIsolated k rt (record rt' { aaa = a })
  with_aaa-IsIsolated a rt' x = record {
    valid = IsValid-tables rt' (record rt' { aaa = a }) refl refl refl x.valid;
    others = x.others;
    ids = x.ids;
  }

  terminated_any : (d : Option Error × Runtime) → IsIsolated k rt d.1 → Isolated k rt (terminated d)
  terminated_any (none, rt') x = x
  terminated_any (some err, rt') x = x

  -- The session that a deallocation of this id takes off is the one with this key.
  pub released_key :
      (counters : CountersOf) (l : Link) (p : Mine l) (rt' : Runtime) (t : Session)
      → IsReleased counters l.session.session_id (put k l rt) rt' t
      → IsValid rt'
      → session_key_eq (key_of t.encap l.session.session_id) k ≡ true
  released_key counters l p rt' t y valid =
      let sid = l.session.session_id in
      elim (Bool-cases (session_key_eq (key_of t.encap sid) k)) [
        | inl same ↦ same
        | inr other ↦
            let left : find k rt'.active_sessions ≡ some l.session =
              y.others k ∙ rw other (put-others l k ∙ rw (beq_refl k) refl) in
            let held : 1 ≤ count (has_id sid) rt'.active_sessions =
              count-find (has_id sid) k l.session rt'.active_sessions left (==_refl sid) in
            let unused : contains rt'.session_set sid ≡ false = y.ids sid ∙ rw (==_refl sid) refl in
            absurd (omega (arith, held, rw unused at (valid.one_each sid)))
      ]

  pub released-IsIsolated :
      (counters : CountersOf) (l : Link) (p : Mine l) (rt' : Runtime) (t : Session)
      → IsReleased counters l.session.session_id (put k l rt) rt' t
      → IsValid rt'
      → IsIsolated k rt rt'
  released-IsIsolated counters l (e, i) rt' t y valid =
      let x = put-IsIsolated l (e, i) in
      let sid = l.session.session_id in
      let key : key_of t.encap sid ≡ k =
        (session_key_eq_iff _ _).0 (released_key counters l (e, i) rt' t y valid) in
      let at : k.session_id ≡ sid = ap (λ (j : SessionKey). j.session_id) its_key ∙ sym i in
      record {
        valid = valid;
        others = λ j h. y.others j ∙ rw (key, h) (x.others j h);
        ids = λ c h.
            let h' : (sid == c) ≡ false = ap (λ n. n == c) (sym at) ∙ h in
            y.ids c ∙ rw h' (x.ids c h);
      }

  pub terminated-Isolated :
      (counters : CountersOf) (l : Link)
      → Mine l
      → Isolated k rt (terminated (deallocate_session counters l.session.session_id (put k l rt)))
  terminated-Isolated counters l p =
      let x = put-IsIsolated l p in
      let d = deallocate_session counters l.session.session_id (put k l rt) in
      let (how, valid) =
        deallocate_session-Released counters l.session.session_id (put k l rt) x.valid in
      terminated_any d (elim how [
        | inl (unused, r, same) ↦ rw same x
        | inr (used, r, (t, y)) ↦ released-IsIsolated counters l p d.1 t y valid
      ])

  authenticate-Mine : (env : Env) (l : Link) → Mine l → Holds Mine (authenticate env rt l)
  unfolding authenticate chap_open
  authenticate-Mine env l p =
      Holds-if Mine env.lcp_conf.auth_chap (ok (chap_open env.policies env.digest l)) _ p (
        Holds-if Mine env.lcp_conf.auth_pap (ok l) _ p
          (start_network-Owns s.encap s.session_id rt.aaa l p))

  after_lcp-Isolated :
      (env : Env) (r : FsmRet × Link) → Mine r.1 → Holds (Isolated k rt) (after_lcp env k rt r)
  unfolding after_lcp
  after_lcp-Isolated env ((layer_up, none), l) p =
      Holds-bind (Isolated k rt) (authenticate env rt l) (λ l'. ok (done, put k l' rt))
        (authenticate-Mine env l p) (λ l' q. put-IsIsolated l' q)
  after_lcp-Isolated env ((layer_down, none), l) p = terminated-Isolated env.counters l p
  after_lcp-Isolated env ((no_action, none), l) p = put-IsIsolated l p
  after_lcp-Isolated env ((no_action, some e), l) p = put-IsIsolated l p
  after_lcp-Isolated env ((layer_up, some e), l) p = put-IsIsolated l p
  after_lcp-Isolated env ((layer_down, some e), l) p = put-IsIsolated l p

  provision_dp-IsOf :
      (vpp : Vpp) (t : Session)
      → IsOf s.encap s.session_id t
      → IsOf s.encap s.session_id (provision_dp vpp t).1
  unfolding provision_dp
  provision_dp-IsOf vpp t p = elim (Option-cases (vpp.add_pppoe_session t)) [
    | inl refused ↦ rw (refused, provision_dp) p
    | inr (n, added) ↦
        elim (Bool-cases (not (is_empty t.vrf) && not (vpp.set_interface_table n t.vrf))) [
          | inl unmoved ↦ rw (added, provision_dp, unmoved) p
          | inr moved ↦ rw (added, provision_dp, moved) p
        ]
  ]

  after_ipcp-Isolated :
      (env : Env) (r : FsmRet × Link) → Mine r.1 → Isolated k rt (after_ipcp env k rt r)
  unfolding after_ipcp
  after_ipcp-Isolated env ((layer_up, none), l) p =
      let t = (provision_dp env.vpp l.session).1 in
      with_aaa-IsIsolated (map_iface_to_session t.aaa_session_id t.ifindex rt.aaa)
        (put k (record l { session = t }) rt)
        (put-IsIsolated (record l { session = t }) (provision_dp-IsOf env.vpp l.session p))
  after_ipcp-Isolated env ((no_action, none), l) p = put-IsIsolated l p
  after_ipcp-Isolated env ((layer_down, none), l) p = put-IsIsolated l p
  after_ipcp-Isolated env ((no_action, some e), l) p = put-IsIsolated l p
  after_ipcp-Isolated env ((layer_up, some e), l) p = put-IsIsolated l p
  after_ipcp-Isolated env ((layer_down, some e), l) p = put-IsIsolated l p

  with_aaa-Isolated : (r : FsmRet × (Link × Aaa)) → Reports Mine r → Isolated k rt (with_aaa k rt r)
  with_aaa-Isolated (r, (l, a)) p = with_aaa-IsIsolated a (put k l rt) (put-IsIsolated l p)

  reject_proto-Mine : (pkt : Bytes) (l : Link) → Mine l → Holds Mine (reject_proto pkt l)
  unfolding reject_proto
  reject_proto-Mine pkt l p = Holds-any Mine (load8 pkt code_at) _ (λ c. p)

  start_lcp-Mine : (l : Link) → Mine l → Holds Mine (start_lcp l)
  unfolding start_lcp
  start_lcp-Mine l p =
      let steady = lcp-IsSteady s.encap s.session_id in
      Holds-if Mine l.session.started (ok l) _ p (
        Holds-bind Mine (open_event lcp_vtable l) _ (open_event-Kept lcp_vtable Mine steady l p)
          (λ l₁ q.
            Holds-bind Mine (layer_up_event lcp_vtable l₁) (λ l₂. ok (started l₂))
              (layer_up_event-Kept lcp_vtable Mine steady l₁ q) (λ l₂ z. z)))

  by_proto-Isolated :
      (env : Env) (proto : ℕ) (pkt : Bytes) (l : Link)
      → Mine l
      → Holds (Isolated k rt) (by_proto env proto pkt k rt l)
  unfolding by_proto
  by_proto-Isolated env proto pkt l p =
      let Q = Isolated k rt in
      Holds-if Q (proto == proto_lcp) _ _
        (Holds-bind Q (receive lcp_vtable pkt l) (after_lcp env k rt)
          (receive-Kept lcp_vtable Mine (lcp-IsSteady s.encap s.session_id) pkt l p)
          (after_lcp-Isolated env))
        (Holds-if Q (proto == proto_pap) _ _
          (Holds-bind Q (pap_receive pkt l rt.aaa) (λ r. ok (with_aaa k rt r))
            (pap_receive-Owns s.encap s.session_id pkt l rt.aaa p) with_aaa-Isolated)
          (Holds-if Q (proto == proto_chap) _ _
            (Holds-bind Q (chap_receive pkt l rt.aaa) (λ r. ok (with_aaa k rt r))
              (chap_receive-Owns s.encap s.session_id pkt l rt.aaa p) with_aaa-Isolated)
            (Holds-if Q (proto == proto_ipcp) _ _
              (Holds-bind Q (receive (ipcp_vtable rt.aaa) pkt l) (λ r. ok (after_ipcp env k rt r))
                (receive-Kept (ipcp_vtable rt.aaa) Mine (ipcp-IsSteady s.encap s.session_id rt.aaa)
                  pkt l p)
                (after_ipcp-Isolated env))
              (Holds-bind Q (reject_proto pkt l) (λ l'. ok (done, put k l' rt))
                (reject_proto-Mine pkt l p) (λ l' q. put-IsIsolated l' q)))))

pub deliver-Isolated :
    (env : Env) (pkt : Bytes) (k : SessionKey) (rt : Runtime)
    → IsValid rt
    → Holds (Isolated k rt) (deliver env pkt k rt)
unfolding deliver
deliver-Isolated env pkt k rt v = elim (Option-cases (find k rt.active_sessions)) [
  | inl unknown ↦ rw (unknown, deliver) (untouched k rt v)
  | inr (s, there) ↦
      rw (there, deliver)
        (let Q = Isolated k rt in
          Holds-bind Q (start_lcp (link_of env rt s)) _
            (start_lcp-Mine k rt v s there (link_of env rt s) (refl, refl))
            (λ l p.
              Holds-any Q (load16 pkt 6) _
                (λ proto. by_proto-Isolated k rt v s there env (bswap16 proto) pkt l p)))
]

-- A packet of a session that processPPP gets to the end of, reading nothing outside it, keeps the
-- tables valid, and touches no session but the one that the source address, the id and the tags of the
-- packet name: every other session stays as it is, and every other id in use or free.
pub process_ppp-Isolated :
    (env : Env) (pkt : Bytes) (e : Encap) (rt : Runtime) (sid : ℕ)
    → IsValid rt
    → load16 pkt 2 ≡ ok sid
    → Holds (Isolated (key_of e (bswap16 sid)) rt) (process_ppp env pkt e rt)
unfolding process_ppp
process_ppp-Isolated env pkt e rt sid v h =
    rw h (deliver-Isolated env pkt (key_of e (bswap16 sid)) rt v)
