-- ===== src/Aaa/Exclusive.antt =====
-- No two live AAA sessions hold the same address of a pool, whatever methods are called.
use pppcpd.Common.{ℕ, zero, suc, ◌+◌, ◌<◌, ◌≤◌, ◌≡◌, ◌≢◌, refl, [], ◌∷◌, arith}
use pppcpd.Common.{Option, none, some, true, false, ◌&&◌, ◌==◌, not}
use pppcpd.Common.{Bool-cases, Option-cases, inl, inr, ==_iff, ◌∙◌}
use pppcpd.Common.Outcome.{Outcome, ok}
use pppcpd.Common.Map.{Map, Str, ℕ_key, str_key, find, insert}
use pppcpd.Common.Counting.{Distinct, count-insert, Distinct-insert}
use pppcpd.Aaa.{
  AaaSession, Aaa, RadiusResponse, new_session, new_radius_session, is_empty, with_template,
  bare_session, draw_address, Template, or_default, or_zero, with_radius_template,
}
use pppcpd.Aaa.Methods.{free_id}
use pppcpd.Aaa.Held.{holds, HeldWith, Bounded, draw_address-IsDrawn}

pub record IsExclusive (a : Aaa) : Type 0 where
  pub distinct : Distinct a.sessions
  pub held : HeldWith [] a
  pub bounded : Bounded a

-- The answer of the search for an id: the least one that is not in use, if it is below the end.
pub record IsFree (i end : ℕ) (m : Map ℕ AaaSession) (r : ℕ) : Type 0 where
  pub low : i ≤ r
  pub high : r ≤ end
  pub free : r < end → find r m ≡ none
  pub used : (j : ℕ) → i ≤ j → j < r → find j m ≢ none

pub free_id-IsFree :
    (rounds i : ℕ) (m : Map ℕ AaaSession) → IsFree i (i + rounds) m (free_id rounds i m)
unfolding free_id
free_id-IsFree zero i m = record {
  low = omega arith;
  high = omega arith;
  free = λ h. absurd (omega arith);
  used = λ j p q. absurd (omega arith);
}
free_id-IsFree (suc rounds) i m = elim (Option-cases (find i m)) [
  | inl free ↦
      rw (free, free_id)
        (record {
          low = omega arith;
          high = omega arith;
          free = λ h. free;
          used = λ j p q. absurd (omega arith);
        })
  | inr (s, e) ↦
      let rest = free_id-IsFree rounds (i + 1) m in
      rw (e, free_id)
        (record {
          low = omega arith;
          high = omega arith;
          free = λ h. rest.free (omega arith);
          used = λ j p q. elim (Bool-cases (i == j)) [
            | inl same ↦ λ h. cc (e, (==_iff i j).0 same, h)
            | inr other ↦ rest.used j (ground arith) q
          ];
        })
]

-- A session that is built joins the map.
pub joined-IsExclusive :
    (i : ℕ) (s : AaaSession) (a : Aaa)
    → find i a.sessions ≡ none
    → Distinct a.sessions
    → HeldWith (s ∷ []) a
    → Bounded a
    → IsExclusive (record a { sessions = insert i s a.sessions })
joined-IsExclusive i s a fresh d held bounded = record {
  distinct = Distinct-insert i s a.sessions fresh d;
  held = λ n p j e nz. omega (arith, held n p j e nz, count-insert (holds n j) i s a.sessions);
  bounded = bounded;
}

-- A session that is built, and the state that it leaves.
abbrev pub Built : Str → Aaa → Outcome (AaaSession × Aaa) → Type 0
Built user a o =
    (s : AaaSession) × (a' : Aaa) × (o ≡ ok (s, a'))
    × HeldWith (s ∷ []) a'
    × Bounded a'
    × (a'.sessions ≡ a.sessions)
    × (s.username ≡ user)

draw_address-Built :
    (user : Str) (s : AaaSession) (a : Aaa)
    → IsExclusive a
    → s.free_ip ≡ false
    → s.username ≡ user
    → Built user a (draw_address a s)
draw_address-Built user s a x new u =
    let (s', a', e, d) = draw_address-IsDrawn s a new x.held x.bounded in
    (s', a', e, d.held, d.bounded, d.sessions, d.same_user ∙ u)

template_kept :
    (o : Option Template) (s : AaaSession)
    → ((with_template o s).free_ip ≡ s.free_ip) × ((with_template o s).username ≡ s.username)
template_kept none s = (refl, refl)
template_kept (some t) s = (refl, refl)

radius_template_kept :
    (o : Option Template) (s : AaaSession)
    → ((with_radius_template o s).free_ip ≡ s.free_ip)
      × ((with_radius_template o s).username ≡ s.username)
radius_template_kept none s = (refl, refl)
radius_template_kept (some t) s = (refl, refl)

pub new_session-Built :
    (i : ℕ) (user t : Str) (a : Aaa) → IsExclusive a → Built user a (new_session i user t a)
unfolding new_session
new_session-Built i user t a x =
    let bare = bare_session i user 0 false in
    let (f, u) = template_kept (find t a.templates) bare in
    draw_address-Built user (with_template (find t a.templates) bare) a x f u

plain-Built :
    (user : Str) (s : AaaSession) (a : Aaa)
    → IsExclusive a
    → s.free_ip ≡ false
    → s.username ≡ user
    → Built user a (ok (s, a))
plain-Built user s a x new u =
    (s, a, refl, λ n p i e nz. ground (arith, x.held n p i e nz, new), x.bounded, refl, u)

pub new_radius_session-Built :
    (i : ℕ) (user t : Str) (resp : RadiusResponse) (a : Aaa)
    → IsExclusive a
    → Built user a (new_radius_session i user t resp a)
unfolding new_radius_session
new_radius_session-Built i user t resp a x =
    let o = find (or_default resp.pppoe_template t) a.templates in
    let s = with_radius_template o (bare_session i user resp.framed_ip true) in
    let s' : AaaSession = record s {
      framed_pool = or_default resp.framed_pool s.framed_pool;
      dns1 = or_zero resp.dns1 s.dns1;
      dns2 = or_zero resp.dns2 s.dns2;
    } in
    let (f, u) = radius_template_kept o (bare_session i user resp.framed_ip true) in
    elim (Bool-cases (s'.address == 0 && not (is_empty s'.framed_pool))) [
      | inl pooled ↦ rw pooled (draw_address-Built user s' a x f u)
      | inr given ↦ rw given (plain-Built user s' a x f u)
    ]
