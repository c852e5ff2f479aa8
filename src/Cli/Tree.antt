-- ===== src/Cli/Tree.antt =====
-- src/pppctl.hpp and CLICMD of src/pppctl.cpp: the tree of commands, and the words typed against it.
pub mod Words
use pppcpd.Common.{
  ℕ, zero, suc, ◌+◌, List, [], ◌∷◌, ◌++◌, Option, none, some, Bool, true, false, ◌&&◌, not, ◌==◌,
  if◌then◌else◌,
}
use pppcpd.Common.Map.{Str, str_eq}
use pppcpd.Common.Words.{split_by, filled, begins_with}
use pppcpd.Aaa.{is_empty}
use pppcpd.Cli.{CliCmd, get_version, get_pppoe_sessions, get_aaa_sessions, get_vpp_ifaces}

-- CLINodeType; no node is an ARGUMENT.
pub data NodeType : Type 0 where
  begin static argument end : NodeType

-- The callbacks: a request for the daemon, and exit_cb, which leaves.
pub data Callback : Type 0 where
  ask_daemon : CliCmd → Callback
  leave : Callback

mutual
  -- CLINode; an empty callback is `none`.
  pub data Node : Type 0 where
    node : NodeType → Str → Option Callback → Nodes → Node

  -- next_nodes
  pub data Nodes : Type 0 where
    nil : Nodes
    cons : Node → Nodes → Nodes

abbrev pub next_nodes : Node → Nodes
next_nodes (node t w cb ns) = ns

abbrev pub token : Node → Str
token (node t w cb ns) = w

-- boost::split at the spaces, without the empty words
unfoldable pub split : Str → List Str
unfolding split_by filled
split s = filled (split_by (λ c. c == b' ') s)

-- std::find_if by the token
unfoldable pub find_token : Str → Nodes → Option Node
find_token w nil = none
find_token w (cons n ns) = let rest = find_token w ns in if str_eq (token n) w then some n else rest

unfoldable pub push_back : Node → Nodes → Nodes
push_back n nil = cons n nil
push_back n (cons m ms) = cons m (push_back n ms)

-- A change behind the first node with a token
unfoldable pub change_first : Str → (Nodes → Nodes) → Nodes → Nodes
change_first w f nil = nil
change_first w f (cons (node t v cb ns) ms) =
    let rest = change_first w f ms in
    if str_eq v w then cons (node t v cb (f ns)) ms else cons (node t v cb ns) rest

-- The node of a word is gone on with, or made.
unfoldable pub grow : Option Node → Str → (Nodes → Nodes) → Nodes → Nodes
unfolding push_back change_first
grow none w f ns = push_back (node static w none (f nil)) ns
grow (some n) w f ns = change_first w f ns

-- add_cmd, on the nodes behind the one that it has come to
unfoldable pub add_words : List Str → Callback → Nodes → Nodes
unfolding find_token push_back grow
add_words [] cb ns = push_back (node end [] (some cb) nil) ns
add_words (w ∷ ws) cb ns = grow (find_token w ns) w (add_words ws cb) ns

unfoldable pub add_cmd : Str → Callback → Node → Node
unfolding add_words split
add_cmd command cb (node t w c ns) = node t w c (add_words (split command) cb ns)

abbrev show_word : Str
show_word = b's' ∷ b'h' ∷ b'o' ∷ b'w' ∷ b' ' ∷ []

abbrev sessions_word : Str
sessions_word = b's' ∷ b'e' ∷ b's' ∷ b's' ∷ b'i' ∷ b'o' ∷ b'n' ∷ b's' ∷ []

-- CLICMD::CLICMD
unfoldable pub commands : Node
unfolding add_cmd
commands = add_cmd (b'e' ∷ b'x' ∷ b'i' ∷ b't' ∷ []) leave (
    add_cmd (show_word ++ (b'a' ∷ b'a' ∷ b'a' ∷ b' ' ∷ sessions_word)) (ask_daemon get_aaa_sessions)
      (add_cmd (show_word ++ (b'p' ∷ b'p' ∷ b'p' ∷ b'o' ∷ b'e' ∷ b' ' ∷ sessions_word))
        (ask_daemon get_pppoe_sessions)
        (add_cmd
          (show_word ++ (b'i' ∷ b'n' ∷ b't' ∷ b'e' ∷ b'r' ∷ b'f' ∷ b'a' ∷ b'c' ∷ b'e' ∷ b's' ∷ []))
          (ask_daemon get_vpp_ifaces)
          (add_cmd (show_word ++ (b'v' ∷ b'e' ∷ b'r' ∷ b's' ∷ b'i' ∷ b'o' ∷ b'n' ∷ []))
            (ask_daemon get_version) (node begin [] none nil)))))

abbrev at_child : Option Node → Node → Node
at_child none n = n
at_child (some m) n = m

-- The loop of call_cmd: a word that no next node has is passed over.
unfoldable pub walk : List Str → Node → Node
walk [] n = n
walk (w ∷ ws) n = walk ws (at_child (find_token w (next_nodes n)) n)

-- The one next node is gone forward to.
unfoldable pub forward : Node → Node
forward (node t w cb nil) = node t w cb nil
forward (node t w cb (cons m nil)) = m
forward (node t w cb (cons m (cons k ns))) = node t w cb (cons m (cons k ns))

-- `none` is the exception for a wrong command.
unfoldable pub callback_of : Node → Option Callback
callback_of (node end w cb ns) = cb
callback_of (node begin w cb ns) = none
callback_of (node static w cb ns) = none
callback_of (node argument w cb ns) = none

unfoldable pub call_cmd : Node → Str → Option Callback
unfolding walk forward callback_of split
call_cmd start cmd = callback_of (forward (walk (split cmd) start))

unfoldable pub completions : Str → Str → Nodes → List Str
unfolding begins_with
completions common w nil = []
completions common w (cons n ns) =
    let rest = completions common w ns in
    if begins_with (token n) w then (common ++ token n) ∷ rest else rest

-- The loop of append_cmd: the words taken so far, and the completions of those that are not a node's.
unfoldable pub append_words : List Str → Str → List Str → Node → List Str
unfolding completions find_token
append_words [] common [] n = completions common [] (next_nodes n)
append_words [] common (r ∷ ret) n = r ∷ ret
append_words (w ∷ ws) common ret n = elim (find_token w (next_nodes n)) [
  | none ↦ append_words ws common (ret ++ completions common w (next_nodes n)) n
  | some m ↦ append_words ws (common ++ (token m ++ (b' ' ∷ []))) ret m
]

unfoldable pub append_cmd : Node → Str → List Str
unfolding append_words split
append_cmd start cmd = append_words (split cmd) [] [] start
