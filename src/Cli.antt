-- ===== src/Cli.antt =====
-- src/cli.hpp and src/cli.cpp: the messages between pppctl and the daemon, and how the daemon answers.
-- A message stands for the archive that Boost makes of it and reads back; the socket is a library's.
pub mod Tree
pub mod Client
pub mod Dump
use pppcpd.Common.{ℕ, List, [], ◌∷◌, Option, none, some, Bool, true, false}
use pppcpd.Common.Map.{Map, Str}
use pppcpd.Session.{Session}
use pppcpd.Keys.{SessionKey}
use pppcpd.Aaa.{AaaSession, Aaa, Error}
use pppcpd.Aaa.Methods.{get_session}
use pppcpd.Runtime.{Runtime}
use pppcpd.Dataplane.{VppInterface}

-- CLI_CMD; a number of no command can come over the socket.
pub data CliCmd : Type 0 where
  get_version get_pppoe_sessions get_aaa_sessions get_vpp_ifaces : CliCmd
  unknown_cmd : ℕ → CliCmd

-- PPPOE_SESSION_DUMP
pub record PppoeSessionDump : Type 0 where
  pub aaa_session_id : ℕ
  pub session_id : ℕ
  pub cookie : Str
  pub username : Str
  pub address : ℕ
  pub ifindex : ℕ
  pub vrf : Str
  pub unnumbered : Str

-- AAA_SESSION_DUMP; an address stands for its dotted text.
pub record AaaSessionDump : Type 0 where
  pub session_id : ℕ
  pub username : Str
  pub address : ℕ
  pub dns1 : ℕ
  pub dns2 : ℕ
  pub framed_pool : Str
  pub vrf : Str
  pub unnumbered : Str

-- The four types of responses; `no_data` is the empty string of a message without one.
pub data CliData : Type 0 where
  no_data : CliData
  version_resp : Str → CliData
  vpp_ifaces_resp : List VppInterface → CliData
  pppoe_sessions_resp : List PppoeSessionDump → CliData
  aaa_sessions_resp : List AaaSessionDump → CliData

pub data CliCmdType : Type 0 where
  request_type response_type : CliCmdType

-- CLI_MSG; its error is the one text of run_cmd, or empty.
pub record CliMsg : Type 0 where
  pub type : CliCmdType
  pub cmd : CliCmd
  pub content : CliData
  pub failed : Bool

abbrev pub version_string : Str
version_string = b'v' ∷ b'1' ∷ b'.' ∷ b'0' ∷ []

unfoldable pub pppoe_dump : Session → PppoeSessionDump
pppoe_dump s = record {
  aaa_session_id = s.aaa_session_id;
  session_id = s.session_id;
  cookie = s.cookie;
  username = s.username;
  address = s.address;
  ifindex = s.ifindex;
  vrf = s.vrf;
  unnumbered = s.unnumbered;
}

unfoldable pub pppoe_dumps : Map SessionKey Session → List PppoeSessionDump
unfolding pppoe_dump
pppoe_dumps [] = []
pppoe_dumps ((k, s) ∷ m) = pppoe_dump s ∷ pppoe_dumps m

unfoldable pub aaa_dump : AaaSession → AaaSessionDump
aaa_dump s = record {
  session_id = s.session_id;
  username = s.username;
  address = s.address;
  dns1 = s.dns1;
  dns2 = s.dns2;
  framed_pool = s.framed_pool;
  vrf = s.vrf;
  unnumbered = s.unnumbered;
}

-- A session without an AAA session is passed over.
unfoldable pub aaa_dump_next :
    Option AaaSession × Option Error → List AaaSessionDump → List AaaSessionDump
unfolding aaa_dump
aaa_dump_next (o, some e) ds = ds
aaa_dump_next (none, none) ds = ds
aaa_dump_next (some s, none) ds = aaa_dump s ∷ ds

unfoldable pub aaa_dumps : Aaa → Map SessionKey Session → List AaaSessionDump
unfolding aaa_dump_next
aaa_dumps a [] = []
aaa_dumps a ((k, s) ∷ m) = aaa_dump_next (get_session s.aaa_session_id a) (aaa_dumps a m)

abbrev answer_with : CliCmd → CliData → CliMsg
answer_with c d = record { type = response_type; cmd = c; content = d; failed = false }

-- run_cmd: what CLISession sends back; `ifaces` is what VPP lists.
unfoldable pub run_cmd : CliCmd → List VppInterface → Runtime → CliMsg
unfolding pppoe_dumps aaa_dumps
run_cmd get_version ifaces rt = answer_with get_version (version_resp version_string)
run_cmd get_vpp_ifaces ifaces rt = answer_with get_vpp_ifaces (vpp_ifaces_resp ifaces)
run_cmd get_pppoe_sessions ifaces rt =
    answer_with get_pppoe_sessions (pppoe_sessions_resp (pppoe_dumps rt.active_sessions))
run_cmd get_aaa_sessions ifaces rt =
    answer_with get_aaa_sessions (aaa_sessions_resp (aaa_dumps rt.aaa rt.active_sessions))
run_cmd (unknown_cmd n) ifaces rt = record {
  type = response_type;
  cmd = unknown_cmd n;
  content = no_data;
  failed = true;
}
