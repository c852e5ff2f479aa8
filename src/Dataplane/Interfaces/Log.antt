-- ===== src/Dataplane/Interfaces/Log.antt =====
-- src/vpp.cpp: the log of the messages of setup_interfaces, and the interfaces that they change.
use pppcpd.Common.{
  ℕ, All, ◌≡◌, inl, inr, refl, List, [], ◌∷◌, Option, none, some, Bool, true, false, ◌||◌, contains,
  if◌then◌else◌, ◌==◌, ==_refl, Bool-cases, arith,
}
use pppcpd.Common.Map.{Str, str_eq}
use pppcpd.Dataplane.{
  Vapi, VppApi, VppInterface, InterfaceConf, Request, Response, create_subif,
  sw_interface_set_table, sw_interface_set_flags, sw_interface_set_mtu, sw_interface_set_unnumbered,
  sw_interface_add_del_address, call,
}
use pppcpd.Dataplane.Messages.{iface_named}

-- The interface that a message of the set-up changes: the one under a new sub-interface, and the one that
-- becomes unnumbered, not the one whose address it takes.
abbrev pub target : Request → Option ℕ
target (create_subif i unit outer inner flags) = some i
target (sw_interface_set_table i table) = some i
target (sw_interface_set_flags i up) = some i
target (sw_interface_set_mtu i mtu) = some i
target (sw_interface_set_unnumbered is_add iface i) = some i
target (sw_interface_add_del_address i is_add ip4 len) = some i
target _ = none

-- The sub-interface that VPP has made: its answer has no error.
abbrev pub new_subif : Request × Response → List ℕ → List ℕ
new_subif (create_subif i unit outer inner flags, a) is =
    if a.retval == 0 then a.sw_if_index ∷ is else is
new_subif (r, a) is = is

unfoldable pub created : List (Request × Response) → List ℕ
created [] = []
created (e ∷ sent) = new_subif e (created sent)

-- Every message changes an interface of `base`, or a sub-interface made by an earlier message.
abbrev pub IsOwned : List ℕ → List (Request × Response) → Type 0
IsOwned base [] = Unit
IsOwned base ((r, a) ∷ older) =
    ((i : ℕ) × (target r ≡ some i) × ((contains base i || contains (created older) i) ≡ true))
    × IsOwned base older

-- Whether a configured device has that name.
abbrev is_device : Str → List InterfaceConf → Bool
is_device n [] = false
is_device n (c ∷ cs) = str_eq n c.device || is_device n cs

-- The indices of the interfaces of VPP whose name the configuration has.
abbrev pub configured : List VppInterface → List InterfaceConf → List ℕ
configured [] cs = []
configured (v ∷ vs) cs =
    if is_device v.name cs then v.sw_if_index ∷ configured vs cs else configured vs cs

pub configured_first :
    (ifs : List VppInterface) (c : InterfaceConf) (cs : List InterfaceConf) (v : VppInterface)
    → iface_named c.device ifs ≡ some v
    → contains (configured ifs (c ∷ cs)) v.sw_if_index ≡ true
unfolding contains iface_named
configured_first [] c cs v there = cc
configured_first (i ∷ is) c cs v there = elim (Bool-cases (str_eq i.name c.device)) [
  | inl same ↦
      let first : i ≡ v = cc (rw same at there) in rw (same, first, ==_refl v.sw_if_index) refl
  | inr other ↦ let rest = configured_first is c cs v (rw other at there) in ground (arith, rest)
]

pub configured_rest :
    (ifs : List VppInterface) (c : InterfaceConf) (cs : List InterfaceConf) (i : ℕ)
    → contains (configured ifs cs) i ≡ true
    → contains (configured ifs (c ∷ cs)) i ≡ true
unfolding contains
configured_rest [] c cs i h = h
configured_rest (v ∷ vs) c cs i h = ground (arith, h, configured_rest vs c cs i)

new_subif-contains :
    (e : Request × Response) (is : List ℕ) (i : ℕ)
    → contains is i ≡ true
    → contains (new_subif e is) i ≡ true
unfolding contains
new_subif-contains (create_subif j unit outer inner flags, a) is i h = ground (arith, h)
new_subif-contains (e, a) is i h = h

module _ {V : Type 0} ⦃vapi : Vapi V⦄ (base : List ℕ) where
  abbrev pub IsAllowed : VppApi V → ℕ → Type 0
  IsAllowed api i = (contains base i || contains (created api.log) i) ≡ true

  -- The log is as it should be, and may go on with messages that change one of `js`.
  abbrev pub IsGood : List ℕ → VppApi V → Type 0
  IsGood js api = IsOwned base api.log × All (IsAllowed api) js

  abbrev pub Keeps : List ℕ → (VppApi V → VppApi V) → Type 0
  Keeps js f = (api : VppApi V) → IsGood js api → IsGood js (f api)

  pub call-IsAllowed :
      (r : Request) (api : VppApi V) (i : ℕ) → IsAllowed api i → IsAllowed (call r api).1 i
  unfolding call created
  call-IsAllowed r api i h =
      let e : Request × Response = (r, (vapi.respond r api.vpp).0) in
      ground (arith, h, new_subif-contains e (created api.log) i)

  call-All :
      (r : Request) (api : VppApi V) (js : List ℕ)
      → All (IsAllowed api) js
      → All (IsAllowed (call r api).1) js
  call-All r api [] h = tt
  call-All r api (j ∷ js) (h, hs) = (call-IsAllowed r api j h, call-All r api js hs)

  pub call-Keeps :
      (r : Request) (i : ℕ) (js : List ℕ)
      → target r ≡ some i
      → ((api : VppApi V) → All (IsAllowed api) js → IsAllowed api i)
      → Keeps js (λ api. (call r api).1)
  unfolding call
  call-Keeps r i js aims may api (owned, all) =
      (((i, aims, may api all), owned), call-All r api js all)

  pub either :
      (js : List ℕ) (b : Bool) (x y : VppApi V)
      → IsGood js x
      → IsGood js y
      → IsGood js (if b then x else y)
  either js true x y g h = g
  either js false x y g h = h
