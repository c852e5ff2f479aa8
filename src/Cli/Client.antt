-- ===== src/Cli/Client.antt =====
-- CLIClient of src/pppctl.cpp: what a key that is pressed makes of the line, and the requests for the
-- daemon. The terminal and the socket are a library's.
use pppcpd.Common.{
  ℕ, List, [], ◌∷◌, ◌++◌, none, some, Bool, false, ◌&&◌, ◌||◌, ◌==◌, leb, if◌then◌else◌,
}
use pppcpd.Common.Map.{Str}
use pppcpd.Aaa.{is_empty}
use pppcpd.Cli.{CliMsg, CliCmd, request_type, no_data}
use pppcpd.Cli.Tree.{Node, ask_daemon, leave, append_cmd, call_cmd}

-- What is shown or done: lines that are listed, a message for the daemon, the end, or an error's text.
pub data Effect : Type 0 where
  lists : List Str → Effect
  asks : CliMsg → Effect
  leaves : Effect
  wrong_command : Effect

-- The callbacks get_version, get_interfaces, get_pppoe_sessions, get_aaa_sessions and exit_cb. The data
-- and the error of a request are empty.
abbrev pub request_msg : CliCmd → CliMsg
request_msg c = record { type = request_type; cmd = c; content = no_data; failed = false }

unfoldable pub process_input : Node → Str → Effect
process_input tree input = elim (call_cmd tree input) [
  | none ↦ wrong_command
  | some cb ↦ elim cb [ ask_daemon c ↦ asks (request_msg c) | leave ↦ leaves ]
]

-- The line without its last character
unfoldable pub chopped : Str → Str
chopped [] = []
chopped (c ∷ []) = []
chopped (c ∷ (d ∷ s)) = c ∷ chopped (d ∷ s)

abbrev in_range : ℕ → ℕ → ℕ → Bool
in_range a b c = leb a c && leb c b

-- std::isalnum in the C locale
abbrev is_alnum : ℕ → Bool
is_alnum c = in_range b'0' b'9' c || (in_range b'A' b'Z' c || in_range b'a' b'z' c)

-- The one completion is taken over with a space; none or several are listed.
unfoldable pub tabbed : List Str → Str → List Effect × Str
tabbed (w ∷ []) cmd = ([], w ++ (b' ' ∷ []))
tabbed [] cmd = (lists [] ∷ [], cmd)
tabbed (v ∷ (w ∷ ws)) cmd = (lists (v ∷ (w ∷ ws)) ∷ [], cmd)

unfoldable pub tab_key : Node → Str → List Effect × Str
unfolding tabbed
tab_key tree cmd = tabbed (append_cmd tree cmd) cmd

-- process_char; the case of the backspace goes on into that of the tab.
unfoldable pub process_char : Node → ℕ → Str → List Effect × Str
unfolding process_input chopped tab_key
process_char tree ch cmd =
    if ch == b'?'
    then (lists (append_cmd tree cmd) ∷ [], cmd)
    else if ch == 8
    then tab_key tree (chopped cmd)
    else if ch == 9
    then tab_key tree cmd
    else if ch == 10
    then (if is_empty cmd then ([], cmd) else (process_input tree cmd ∷ [], []))
    else if is_alnum ch || ch == b' '
    then ([], cmd ++ (ch ∷ []))
    else ([], cmd)

-- on_read: the characters one after the other
unfoldable pub on_read : Node → List ℕ → Str → List Effect × Str
unfolding process_char
on_read tree [] cmd = ([], cmd)
on_read tree (ch ∷ input) cmd =
    let (effects, cmd₁) = process_char tree ch cmd in
    let (later, cmd₂) = on_read tree input cmd₁ in (effects ++ later, cmd₂)
