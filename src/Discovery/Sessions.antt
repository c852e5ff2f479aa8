-- ===== src/Discovery/Sessions.antt =====
-- A PADR and the tables of the runtime.
use pppcpd.Common.{ℕ, suc, ◌+◌, ◌∷◌, arith, ◌≡◌, refl, inl, inr, ◌≤◌, Option, none, some}
use pppcpd.Common.{length, take, drop, ltb-false, Option-cases}
use pppcpd.Common.Bytes.{Bytes, be16}
use pppcpd.Common.Outcome.{ok}
use pppcpd.Common.Map.{find, erase, ℕ_key}
use pppcpd.Encap.{Encap}
use pppcpd.Session.{Junk}
use pppcpd.Keys.{ConnKey, conn_key}
use pppcpd.Runtime.{Runtime, Error}
use pppcpd.Runtime.Valid.{IsValid, IsValid-tables, IsAllocated, allocate_session-IsValid}
use pppcpd.Runtime.Pending.{pending, check-pending, check-absent}
use pppcpd.Discovery.{
  Tags, Reply, reply, of_runtime, finish, pads, unexpected_session, Answer, refused, conn_of,
  or_empty, confirmed, confirm, process_padr, parse_tags, ac_cookie_tag, disc_hdr_size,
}

-- The key under which a PADR looks for its PADI.
abbrev pub asked : Encap → Tags → ConnKey
asked e tags = conn_of e (or_empty (find ac_cookie_tag tags))

abbrev pub unpended : ConnKey → Runtime → Runtime
unpended k rt = record rt { pending_session = erase k rt.pending_session }

pub unpended-IsValid : (k : ConnKey) (rt : Runtime) → IsValid rt → IsValid (unpended k rt)
unpended-IsValid k rt v = IsValid-tables rt (unpended k rt) refl refl refl v

-- What the peer is told of an allocation: a PADS, whose bytes from the third on are the new id, or the
-- error.
abbrev pub Told : (ℕ × Option Error) × Runtime → Answer × Runtime → Type 0
Told ((sid, none), rt') o =
    (out : Bytes) × (o ≡ (reply out, rt')) × (take 4 out ≡ 0x11 ∷ pads ∷ be16 sid)
Told ((sid, some err), rt') o = o ≡ (refused (of_runtime err), rt')

finish_head : (code sid : ℕ) (r : Reply) → take 4 (finish code sid r) ≡ 0x11 ∷ code ∷ be16 sid
finish_head code sid (out, n) =
    let six : disc_hdr_size + n ≡ suc (suc (suc (suc (2 + n)))) = omega arith in rw six refl

confirmed-Told : (tags : Tags) (r : (ℕ × Option Error) × Runtime) → Told r (confirmed tags r)
confirmed-Told tags ((sid, some err), rt) = refl
confirmed-Told tags ((sid, none), rt) = (_, refl, finish_head pads sid _)

-- What a PADR comes to, by whether its key is pending.
abbrev pub Confirmed : Junk → Encap → Tags → Runtime → Option (Unit {0}) → Answer × Runtime → Type 0
Confirmed junk e tags rt none o = o ≡ (refused unexpected_session, rt)
Confirmed junk e tags rt (some u) o =
    (r : (ℕ × Option Error) × Runtime) × IsAllocated junk e (unpended (asked e tags) rt) r
    × Told r o

pub confirmed-state : (tags : Tags) (r : (ℕ × Option Error) × Runtime) → (confirmed tags r).1 ≡ r.1
confirmed-state tags ((sid, none), rt) = refl
confirmed-state tags ((sid, some err), rt) = refl

-- In a valid state a PADR whose tags can be read is always worked off, and the state stays valid. It
-- is refused without a change if no PADI with its addresses, tags and cookie is pending. If one is,
-- it is taken off, and the answer is a PADS with the id of the one new session in its header, or a
-- refusal when all ids are in use.
pub process_padr-Confirmed :
    (junk : Junk) (pkt : Bytes) (e : Encap) (rt : Runtime) (tags : Tags)
    → IsValid rt
    → disc_hdr_size ≤ length pkt
    → parse_tags (drop disc_hdr_size pkt) ≡ ok (tags, none)
    → (o : Answer × Runtime) × (process_padr junk pkt e rt ≡ ok o)
      × Confirmed junk e tags rt (pending (asked e tags) rt) o
      × IsValid o.1
unfolding process_padr confirm
process_padr-Confirmed junk pkt e rt tags v l p = elim (Option-cases (pending (asked e tags) rt)) [
  | inl absent ↦ (
    (refused unexpected_session, rt),
    rw (ltb-false (length pkt) disc_hdr_size l, p, check-absent (asked e tags) rt absent) refl,
    rw absent refl,
    v,
  )
  | inr (u, there) ↦
      let rt' = unpended (asked e tags) rt in
      let (r, made, how, valid) =
        allocate_session-IsValid junk e rt' (unpended-IsValid (asked e tags) rt v) in
      (
        confirmed tags r,
        rw (ltb-false (length pkt) disc_hdr_size l, p, check-pending (asked e tags) rt there, made)
            refl,
        rw there (r, how, confirmed-Told tags r),
        rw (confirmed-state tags r) valid,
      )
]
