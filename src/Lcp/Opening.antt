-- ===== src/Lcp/Opening.antt =====
-- The automaton of src/ppp_fsm.cpp with the methods of LCP: every packet makes one of the moves.
use pppcpd.Common.{ℕ, ◌≡◌}
use pppcpd.Common.Bytes.{Bytes, load8}
use pppcpd.Common.Outcome.{ok, Holds}
use pppcpd.Fsm.{code_at, receive}
use pppcpd.Fsm.Moves.{MovesIn, carries_ours, state_in, received}
use pppcpd.Link.{Link}
use pppcpd.Lcp.{lcp_vtable}
use pppcpd.Lcp.Known.{HasKnownOptions}
use pppcpd.Lcp.Moves.{lcp-IsLawful}

-- Every packet that LCP gets to the end of, reading nothing outside it, makes one of the moves of
-- `Move`, which name the code and the identifier: the layer comes up only by a Configure-Ack with our
-- identifier in Ack-Sent, or in Ack-Rcvd by a Configure-Request whose options are all MRUs and
-- magic numbers, and only such a request leads to Ack-Sent; the layer goes down only out of Opened;
-- every other packet reports nothing to the caller.
pub receive-Moves :
    (pkt : Bytes) (l : Link) (code : ℕ)
    → load8 pkt code_at ≡ ok code
    → Holds
        (MovesIn lcp_vtable
          (HasKnownOptions pkt)
          code
          (carries_ours lcp_vtable pkt l)
          (state_in lcp_vtable l))
        (receive lcp_vtable pkt l)
receive-Moves pkt l code e = received lcp_vtable HasKnownOptions lcp-IsLawful pkt l code e
