-- ===== src/Keys.antt =====
-- pppoe_key_t and pppoe_conn_t of src/runtime.hpp, and their operator< in src/runtime.cpp.
use pppcpd.Common.{ℕ, ◌≡◌, ◌↔◌, List, ◌∷◌, arith, Bool, true, ◌&&◌, ◌||◌, ◌==◌}
use pppcpd.Common.Map.{Key, Str, str_eq, str_lt, str_eq_iff}
use pppcpd.Encap.{Mac, mac_bytes, mac_eq, Encap}

-- pppoe_key_t
pub record SessionKey : Type 0 where
  pub mac : Mac
  pub session_id : ℕ
  pub outer_vlan : ℕ
  pub inner_vlan : ℕ

-- pppoe_conn_t
pub record ConnKey : Type 0 where
  pub mac : Mac
  pub outer_vlan : ℕ
  pub inner_vlan : ℕ
  pub cookie : Str

-- std::tie compares the members in this order.
key_digits : SessionKey → List ℕ
key_digits k = k.session_id ∷ k.outer_vlan ∷ k.inner_vlan ∷ mac_bytes k.mac

unfoldable pub session_key_eq : SessionKey → SessionKey → Bool
unfolding mac_eq
session_key_eq l r =
    l.session_id == r.session_id
    && (l.outer_vlan == r.outer_vlan && (l.inner_vlan == r.inner_vlan && mac_eq l.mac r.mac))

unfoldable pub session_key_lt : SessionKey → SessionKey → Bool
unfolding key_digits
session_key_lt l r = str_lt (key_digits l) (key_digits r)

pub session_key_eq_iff : (l r : SessionKey) → (session_key_eq l r ≡ true) ↔ (l ≡ r)
unfolding session_key_eq
session_key_eq_iff l r = (λ h. ground arith, λ h. ground arith)

instance abbrev pub session_key : Key SessionKey
session_key = record { beq = session_key_eq; beq_iff = session_key_eq_iff; lt = session_key_lt }

unfoldable pub conn_key_eq : ConnKey → ConnKey → Bool
unfolding mac_eq
conn_key_eq l r =
    str_eq l.cookie r.cookie
    && (l.outer_vlan == r.outer_vlan && (l.inner_vlan == r.inner_vlan && mac_eq l.mac r.mac))

unfoldable pub conn_key_lt : ConnKey → ConnKey → Bool
conn_key_lt l r =
    let l' = l.outer_vlan ∷ l.inner_vlan ∷ mac_bytes l.mac in
    let r' = r.outer_vlan ∷ r.inner_vlan ∷ mac_bytes r.mac in
    str_lt l.cookie r.cookie || (str_eq l.cookie r.cookie && str_lt l' r')

pub conn_key_eq_iff : (l r : ConnKey) → (conn_key_eq l r ≡ true) ↔ (l ≡ r)
unfolding conn_key_eq
conn_key_eq_iff l r = (
  λ h. ground (arith, str_eq_iff l.cookie r.cookie),
  λ h. ground (arith, str_eq_iff l.cookie r.cookie),
)

instance abbrev pub conn_key : Key ConnKey
conn_key = record { beq = conn_key_eq; beq_iff = conn_key_eq_iff; lt = conn_key_lt }

-- The constructor of pppoe_key_t from an encapsulation.
abbrev pub key_of : Encap → ℕ → SessionKey
key_of e sid = record {
  mac = e.source_mac;
  session_id = sid;
  outer_vlan = e.outer_vlan;
  inner_vlan = e.inner_vlan;
}
