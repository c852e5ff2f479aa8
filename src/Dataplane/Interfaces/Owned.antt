-- ===== src/Dataplane/Interfaces/Owned.antt =====
-- src/vpp.cpp: which interfaces of VPP setup_interfaces changes.
use pppcpd.Common.{ℕ, ◌≡◌, ◌⊎◌}
use pppcpd.Aaa.{uint32_max}
use pppcpd.Dataplane.{SubIfFlags, Vapi, Response, create_subif}

-- VPP answers a new sub-interface with no error or with -1, the one error that add_subif looks for.
abbrev pub RefusesPlainly : (V : Type 0) → Vapi V → Type 0
RefusesPlainly V vapi =
    (parent unit outer inner : ℕ) (flags : SubIfFlags) (v : V)
    → let a : Response = (vapi.respond (create_subif parent unit outer inner flags) v).0 in
      (a.retval ≡ 0) ⊎ (a.retval ≡ uint32_max)
