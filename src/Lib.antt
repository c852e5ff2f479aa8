-- ===== src/Lib.antt =====
-- A model of pppcpd, a control plane for PPPoE and PPP, and of what holds of it.
--
-- A packet reaches the program from a tap interface. The Ethernet and VLAN headers are taken off
-- (encapsulation_t), discovery makes and ends sessions in the tables of PPPOERuntime, and a session
-- runs the PPP automaton (PPP_FSM). Authentication asks the AAA, whose sessions take addresses out
-- of pools; a session that ends gives them back.
--
-- Files:
-- Common: Boolean tests, lists, the map that stands for std::map and std::set, bytes in memory
-- and `Outcome`: a value, `fault` where the code reads or writes outside an object, `stuck` where a
-- bound on the rounds of a loop was too small.
-- Encap: src/encap.cpp, the constructor and generate_header on bytes.
-- Pool: FRAMED_POOL of src/config.hpp, its methods in src/aaa.cpp. A pool allots addresses with
-- a counter of 32 bits; the loop gets one round for each address and one that ends it.
-- Aaa and Aaa/Methods: src/aaa.cpp and src/aaa_session.cpp. An erased session lingers while the
-- accounting client holds its callbacks, and gives its address back when it is released.
-- Aaa/Interim: the accounting requests of one session, their answers and its timer, in any order.
-- Fsm: src/ppp_fsm.cpp over the methods that a protocol overrides, a record of functions.
-- Session and Keys: the state of a session (src/session.hpp), and the keys of the tables.
-- Runtime: src/runtime.cpp. The search for a session id gets 65535 rounds, one for each id.
-- Link: a session with what its protocols use of the runtime, and the packets that LCP and IPCP share.
-- Fsm/Moves, Fsm/Keeps and Fsm/Ends prove what holds of the automaton under any protocol that keeps to an
-- interface, a record of laws that Lcp/Moves, Ipcp/Moves, Ppp/Owner and Ppp/Ends fill.
-- Lcp: src/ppp_lcp.cpp and the options of src/packet.cpp, with the moves of the automaton under it in
-- Lcp/Moves and Lcp/Opening, the requests that it acknowledges in Lcp/Known, and its echo requests in Lcp/Echo. A round of the loop over the options takes a
-- byte of the packet or more, or none at all; it gets one round for each byte and one more.
-- Ipcp: src/ppp_ipcp.cpp and parseIPCPOptions of src/packet.cpp, with the same bound.
-- Pap, Chap: src/ppp_auth.cpp and src/ppp_chap.cpp. Auth: what they make of the answers of the AAA and
-- of a peer's bytes.
-- Ppp: src/ppp.cpp and provision_dp of src/session.cpp; Ppp/Timer: sendEchoReq of src/session.cpp.
-- EventLoop: src/evloop.cpp, and the events of the one thread in a sequence.
-- Radius, Radius/Requests: src/radius_avp.cpp, src/radius_dict.cpp and src/request_response.cpp. The loop
-- over the attributes gets a round for each byte and one more; an attribute that is got past takes a byte or more.
-- Radius/Dictionary: the text files of src/radius_dict.cpp, line by line.
-- RadiusClient: src/auth_client.cpp and src/auth_client.hpp. A datagram is what the buffer of 1500 bytes holds.
-- Discovery: src/pppoe.cpp, the tags and PADI, PADR and PADT. The loop over the tags gets a round for
-- each byte and one more.
-- Dataplane: src/vpp.cpp with the types of src/vpp_types.hpp and src/config.hpp. A message is sent by
-- `call`, from `execute` to the response that ends the wait; what VPP answers is a parameter, an instance
-- of `Vapi` over any type of states. Messages has the methods of VPPAPI that send one message or dump one table,
-- Vrfs set_vrf and dump_vrfs, Interfaces setup_interfaces, Stats collect_counters, Provision provision_dp and
-- deprovision_dp of src/session.cpp, and SetUp what the constructor of PPPOERuntime asks of VPP.
-- Cli: src/cli.hpp and src/cli.cpp, the messages and answers of the daemon. Cli/Tree: the tree of commands of
-- src/pppctl.cpp, with the words that are found in it in Cli/Tree/Words; Cli/Client: its keys.
-- Tests: runs of the definitions.
--
-- Not modelled: the log and the printing of values, the connection to VPP and the wait for its responses, the
-- archives of Boost, the conversions for the YAML library, the sockets and the terminal, which are output or
-- calls of other libraries; what VPP, md5, the random numbers and the RADIUS server answer are parameters.
-- The AAA hands its requests over as a list; the client of RADIUS stands on its own.
pub mod Common
pub mod Cli
pub mod Encap
pub mod Pool
pub mod Aaa
pub mod Fsm
pub mod Session
pub mod Keys
pub mod Runtime
pub mod Tests
pub mod Link
pub mod Lcp
pub mod Ipcp
pub mod Pap
pub mod Chap
pub mod Auth
pub mod Ppp
pub mod Dataplane
pub mod Discovery
pub mod EventLoop
pub mod Radius
pub mod RadiusClient
