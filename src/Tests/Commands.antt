-- ===== src/Tests/Commands.antt =====
-- The commands of pppctl.
use pppcpd.Common.{◌≡◌, refl, [], ◌∷◌, none, some}
use pppcpd.Common.Map.{Str, str_eq}
use pppcpd.Cli.{get_version, get_pppoe_sessions}
use pppcpd.Common.Words.{split_by, filled}
use pppcpd.Cli.Tree.{
  Node, node, nil, begin, ask_daemon, commands, add_cmd, add_words, grow, push_back, change_first,
  find_token, split, call_cmd,
}
use pppcpd.Cli.Tree.Words.{under, call_cmd-add_cmd}

abbrev show_x : Str
show_x = b's' ∷ b' ' ∷ b'x' ∷ []

abbrev show_y : Str
show_y = b's' ∷ b' ' ∷ b'y' ∷ []

abbrev root : Node
root = node begin [] none nil

-- A tree with one command beside the one that is added.
small_tree : Node
unfolding add_cmd
small_tree = add_cmd show_y (ask_daemon get_version) root

call_cmd-add_cmd_example :
    call_cmd (add_cmd show_x (ask_daemon get_pppoe_sessions) small_tree) show_x
    ≡ some (ask_daemon get_pppoe_sessions)
unfolding small_tree add_cmd add_words split filled split_by under find_token push_back grow
    change_first str_eq
call_cmd-add_cmd_example = call_cmd-add_cmd small_tree show_x (ask_daemon get_pppoe_sessions) refl

abbrev ppp_sessions : Str
ppp_sessions =
    b's' ∷ b'h' ∷ b'o' ∷ b'w' ∷ b' ' ∷ b' ' ∷ b'p' ∷ b'p' ∷ b'p' ∷ b'o' ∷ b'e' ∷ b' ' ∷ b's' ∷ b'e'
    ∷ b's' ∷ b's' ∷ b'i' ∷ b'o' ∷ b'n' ∷ b's' ∷ []

real_command : call_cmd commands ppp_sessions ≡ some (ask_daemon get_pppoe_sessions)
unfolding commands call_cmd str_eq
real_command = refl
