-- ===== src/Aaa/Held.antt =====
-- Who holds an address of a pool, while sessions are built and taken down.
use pppcpd.Common.{ℕ, ◌+◌, ◌^◌, ◌<◌, ◌≤◌, ◌≡◌, ◌≢◌, refl, List, [], ◌∷◌, arith}
use pppcpd.Common.{some, Bool, true, false, ◌&&◌, ◌==◌, contains}
use pppcpd.Common.{Bool-cases, Option-cases, inl, inr, ==_iff}
use pppcpd.Common.Outcome.{ok}
use pppcpd.Common.Map.{Str, ℕ_key, str_key, str_eq, str_eq_iff, find, update}
use pppcpd.Common.Counting.{
  weight, count, count_list, update_missing, update_same, update_other, update-keeps,
}
use pppcpd.Pool.{Pool, deallocate_ip}
use pppcpd.Pool.Laws.{Allocated, allocate_ip-Allocated, deallocate_ip-contains}
use pppcpd.Aaa.{AaaSession, Aaa, draw_address}
use pppcpd.Aaa.Methods.{destroy}

-- A session that has drawn address `i` from the pool named `n`: its destructor gives it back. One whose
-- address came from the RADIUS server has free_ip false.
abbrev pub holds : Str → ℕ → AaaSession → Bool
holds n i s = s.free_ip && (str_eq s.framed_pool n && s.address == i)

abbrev pub holders : Str → ℕ → Aaa → ℕ
holders n i a = count (holds n i) a.sessions + count_list (holds n i) a.lingering

-- Each address in use in a pool, but 0, was drawn by exactly one live session, and an address that is
-- not in use by none. `extra` are the sessions under construction or destruction.
abbrev pub HeldWith : List AaaSession → Aaa → Type 0
HeldWith extra a =
    (n : Str) (p : Pool) (i : ℕ)
    → find n a.pools ≡ some p
    → i ≢ 0
    → count_list (holds n i) extra + holders n i a ≡ weight (contains p.ips i)

-- A pool whose loop of allocation ends.
abbrev pub Ends : Pool → Type 0
Ends p = (p.stop_ip + 1 < 2 ^ 32) × (p.start_ip ≤ p.stop_ip + 1)

abbrev pub Bounded : Aaa → Type 0
Bounded a = (n : Str) (p : Pool) → find n a.pools ≡ some p → Ends p

abbrev pub drawn : AaaSession → ℕ → AaaSession
drawn s i = record s { address = i; free_ip = true }

abbrev pub redrawn : Str → Pool → Aaa → Aaa
redrawn n p a = record a { pools = update n (λ _. p) a.pools }

-- The pool's own name: the address drawn is the one that the new session holds.
held_same :
    (s : AaaSession) (p p' : Pool) (i j h : ℕ)
    → Allocated p (i, p')
    → j ≢ 0
    → h ≡ weight (contains p.ips j)
    → weight (holds s.framed_pool j (drawn s i)) + 0 + h ≡ weight (contains p'.ips j)
unfolding contains
held_same s p p' i j h (inl (z, e, f)) nz k =
    rw (e, z) (ground (arith, (str_eq_iff s.framed_pool s.framed_pool).1 refl))
held_same s p p' i j h (inr (lo, hi, free, f, e)) nz k =
    rw e (ground (arith, (str_eq_iff s.framed_pool s.framed_pool).1 refl, ==_iff i j))

pub redrawn-held :
    (s : AaaSession) (p p' : Pool) (i : ℕ) (a : Aaa)
    → find s.framed_pool a.pools ≡ some p
    → Allocated p (i, p')
    → HeldWith [] a
    → HeldWith (drawn s i ∷ []) (redrawn s.framed_pool p' a)
redrawn-held s p p' i a e al held m q j f nz = elim (Bool-cases (str_eq s.framed_pool m)) [
  | inl same ↦
      let path : s.framed_pool ≡ m = (str_eq_iff s.framed_pool m).0 same in
      let eq : q ≡ p' = update_same s.framed_pool m (λ _. p') p q a.pools e same f in
      rw (eq, ← path)
        (held_same s p p' i j (holders s.framed_pool j a) al nz
          (omega (arith, held s.framed_pool p j e nz)))
  | inr other ↦
      let g : find m a.pools ≡ some q =
        rw (update_other s.framed_pool m (λ _. p') a.pools other) at f in
      rw other (held m q j g nz)
]

destroyed_same :
    (s : AaaSession) (p : Pool) (j h : ℕ)
    → s.free_ip ≡ true
    → weight (holds s.framed_pool j s) + 0 + h ≡ weight (contains p.ips j)
    → 0 + h ≡ weight (contains (deallocate_ip s.address p).ips j)
destroyed_same s p j h free e =
    rw (deallocate_ip-contains s.address j p)
      (ground (arith, (str_eq_iff s.framed_pool s.framed_pool).1 refl, ==_iff s.address j))

-- The destructor gives the address back to the pool that it was drawn from.
freed-held :
    (s : AaaSession) (a : Aaa)
    → s.free_ip ≡ true
    → HeldWith (s ∷ []) a
    → HeldWith [] (record a { pools = update s.framed_pool (deallocate_ip s.address) a.pools })
freed-held s a free held m q j f nz = elim (Bool-cases (str_eq s.framed_pool m)) [
  | inr other ↦
      let g : find m a.pools ≡ some q =
        rw (update_other s.framed_pool m (deallocate_ip s.address) a.pools other) at f in
      let h : weight (holds m j s) + 0 + holders m j a ≡ weight (contains q.ips j) =
        held m q j g nz in
      ground (arith, h, other)
  | inl same ↦ elim (Option-cases (find s.framed_pool a.pools)) [
    | inl missing ↦ cc (
      missing,
      (str_eq_iff s.framed_pool m).0 same,
      rw (update_missing s.framed_pool (deallocate_ip s.address) a.pools missing) at f,
    )
    | inr (p, e) ↦
        let path : s.framed_pool ≡ m = (str_eq_iff s.framed_pool m).0 same in
        let eq : q ≡ deallocate_ip s.address p =
          update_same s.framed_pool m (deallocate_ip s.address) p q a.pools e same f in
        rw (eq, ← path)
          (destroyed_same s p j (holders s.framed_pool j a) free (held s.framed_pool p j e nz))
  ]
]

pub destroy-held : (s : AaaSession) (a : Aaa) → HeldWith (s ∷ []) a → HeldWith [] (destroy s a)
unfolding destroy
destroy-held s a held = elim (Bool-cases s.free_ip) [
  | inl free ↦ rw free (freed-held s a free held)
  | inr kept ↦ rw kept (λ n p i e nz. ground (arith, held n p i e nz, kept))
]

deallocate_ip-Ends : (i : ℕ) (p : Pool) → Ends p → Ends (deallocate_ip i p)
unfolding deallocate_ip
deallocate_ip-Ends i p h = ground arith

pub destroy-Bounded : (s : AaaSession) (a : Aaa) → Bounded a → Bounded (destroy s a)
unfolding destroy
destroy-Bounded s a b = elim (Bool-cases s.free_ip) [
  | inl free ↦ rw free (
      update-keeps Ends s.framed_pool (deallocate_ip s.address) a.pools
        (deallocate_ip-Ends s.address) b)
  | inr kept ↦ rw kept b
]

pub Allocated-Ends : (p p' : Pool) (i : ℕ) → Allocated p (i, p') → Ends p → Ends p'
Allocated-Ends p p' i (inl (z, e, f)) h = rw e h
Allocated-Ends p p' i (inr (lo, hi, free, f, e)) h = rw e h

-- What drawing an address for a session `s` comes to.
pub record IsDrawn (s : AaaSession) (a : Aaa) (s' : AaaSession) (a' : Aaa) : Type 0 where
  pub held : HeldWith (s' ∷ []) a'
  pub bounded : Bounded a'
  pub sessions : a'.sessions ≡ a.sessions
  pub same_user : s'.username ≡ s.username

pub draw_address-IsDrawn :
    (s : AaaSession) (a : Aaa)
    → s.free_ip ≡ false
    → HeldWith [] a
    → Bounded a
    → (s' : AaaSession) × (a' : Aaa) × (draw_address a s ≡ ok (s', a')) × IsDrawn s a s' a'
unfolding draw_address
draw_address-IsDrawn s a new held bounded = elim (Option-cases (find s.framed_pool a.pools)) [
  | inl missing ↦ (
    s,
    a,
    rw (missing, draw_address),
    record {
      held = λ n p i e nz. ground (arith, held n p i e nz, new);
      bounded = bounded;
      sessions = refl;
      same_user = refl;
    },
  )
  | inr (p, e) ↦
      let (lt, le) = bounded s.framed_pool p e in
      let ((i, p'), r, al) = allocate_ip-Allocated p lt le in
      (
        drawn s i,
        redrawn s.framed_pool p' a,
        rw (e, draw_address, r),
        record {
          held = redrawn-held s p p' i a e al held;
          bounded =
              update-keeps Ends s.framed_pool (λ _. p') a.pools
                (λ v h. Allocated-Ends p p' i al (lt, le)) bounded;
          sessions = refl;
          same_user = refl;
        },
      )
]
