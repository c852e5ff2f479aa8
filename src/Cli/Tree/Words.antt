-- ===== src/Cli/Tree/Words.antt =====
-- src/pppctl.cpp: what call_cmd finds of what add_cmd has put into the tree.
use pppcpd.Common.{
  arith, ◌≡◌, refl, ap, List, [], ◌∷◌, ◌++◌, Option, none, some, inl, inr, Bool-cases, Option-cases,
}
use pppcpd.Common.Map.{Str, str_eq, str_eq_iff}
use pppcpd.Cli.Tree.{
  NodeType, static, end, Callback, Node, node, Nodes, nil, cons, next_nodes, token, split,
  find_token, push_back, change_first, grow, add_words, add_cmd, at_child, walk, forward,
  callback_of, call_cmd,
}

abbrev behind : Option Node → Nodes
behind none = nil
behind (some n) = next_nodes n

-- The nodes behind exactly these words, none where a word is missing.
unfoldable pub under : List Str → Nodes → Nodes
under [] ns = ns
under (w ∷ ws) ns = under ws (behind (find_token w ns))

under-nil : (ws : List Str) → under ws nil ≡ nil
unfolding under find_token
under-nil [] = refl
under-nil (w ∷ ws) = under-nil ws

find_token-push_back :
    (w : Str) (t : NodeType) (cb : Option Callback) (ks ns : Nodes)
    → find_token w ns ≡ none
    → find_token w (push_back (node t w cb ks) ns) ≡ some (node t w cb ks)
unfolding find_token push_back
find_token-push_back w t cb ks nil h = rw ((str_eq_iff w w).1 refl) refl
find_token-push_back w t cb ks (cons n ns) h = elim (Bool-cases (str_eq (token n) w)) [
  | inl same ↦ absurd (ground (arith, h, same))
  | inr other ↦ rw other (find_token-push_back w t cb ks ns (rw other at h))
]

changed : (Nodes → Nodes) → Node → Node
changed f (node t v cb ks) = node t v cb (f ks)

find_token-change_first :
    (w : Str) (f : Nodes → Nodes) (n : Node) (ns : Nodes)
    → find_token w ns ≡ some n
    → find_token w (change_first w f ns) ≡ some (changed f n)
unfolding find_token change_first changed
find_token-change_first w f n nil h = cc
find_token-change_first w f n (cons (node t v cb ks) ns) h = elim (Bool-cases (str_eq v w)) [
  | inl same ↦
      let taken : some (node t v cb ks) ≡ some n = rw same at h in
      let first : node t v cb ks ≡ n = cc in rw (same, same) (ap (λ k. some (changed f k)) first)
  | inr other ↦ rw (other, other) (find_token-change_first w f n ns (rw other at h))
]

-- A node with these next nodes is come to by these words.
abbrev Reaches : List Str → Node → Nodes → Type 0
Reaches ws start ns =
    (t : NodeType) × (w : Str) × (cb : Option Callback) × (walk ws start ≡ node t w cb ns)

add_words-Reaches :
    (ws : List Str) (cb : Callback) (t : NodeType) (v : Str) (c : Option Callback) (ns : Nodes)
    → Reaches ws
        (node t v c (add_words ws cb ns))
        (push_back (node end [] (some cb) nil) (under ws ns))
unfolding add_words grow walk under changed
add_words-Reaches [] cb t v c ns = (t, v, c, refl)
add_words-Reaches (w ∷ ws) cb t v c ns = elim (Option-cases (find_token w ns)) [
  | inl missing ↦
      let added = node static w none (add_words ws cb nil) in
      let there = find_token-push_back w static none (add_words ws cb nil) ns missing in
      rw (missing, there) (add_words-Reaches ws cb static w none nil)
  | inr (node a b d ks, present) ↦
      let changes = find_token-change_first w (add_words ws cb) (node a b d ks) ns present in
      rw (present, changes) (add_words-Reaches ws cb a b d ks)
]

callback_at_end :
    (ws : List Str) (start : Node) (cb : Callback)
    → Reaches ws start (cons (node end [] (some cb) nil) nil)
    → callback_of (forward (walk ws start)) ≡ some cb
unfolding forward callback_of
callback_at_end ws start cb (t, w, c, e) = rw e refl

-- A command that is added to a tree in which nothing stands behind its words is found again by the same
-- text, and calls what it was added with.
pub call_cmd-add_cmd :
    (start : Node) (command : Str) (cb : Callback)
    → under (split command) (next_nodes start) ≡ nil
    → call_cmd (add_cmd command cb start) command ≡ some cb
unfolding call_cmd add_cmd push_back
call_cmd-add_cmd (node t w c ns) command cb free =
    let ws = split command in
    callback_at_end ws (node t w c (add_words ws cb ns)) cb
      (rw free at (add_words-Reaches ws cb t w c ns))

walk-append : (us vs : List Str) (n : Node) → walk (us ++ vs) n ≡ walk vs (walk us n)
unfolding walk
walk-append [] vs n = refl
walk-append (u ∷ us) vs n = walk-append us vs (at_child (find_token u (next_nodes n)) n)

walk-skips :
    (us vs : List Str) (w : Str) (n : Node)
    → find_token w (next_nodes (walk us n)) ≡ none
    → walk (us ++ (w ∷ vs)) n ≡ walk (us ++ vs) n
unfolding walk
walk-skips us vs w n missing = rw (walk-append us (w ∷ vs) n, walk-append us vs n, missing) refl

-- A word that no command has at its place is passed over: a text with it calls what the text without it
-- calls.
pub call_cmd-skips :
    (start : Node) (us vs : List Str) (w cmd less : Str)
    → split cmd ≡ us ++ (w ∷ vs)
    → split less ≡ us ++ vs
    → find_token w (next_nodes (walk us start)) ≡ none
    → call_cmd start cmd ≡ call_cmd start less
unfolding call_cmd
call_cmd-skips start us vs w cmd less full short missing =
    rw (full, short, walk-skips us vs w start missing) refl
