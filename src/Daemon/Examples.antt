-- ===== src/Daemon/Examples.antt =====
-- A tab of two panes, sent as a layout tree, and every decoder at short bytes.
use oakterm.Prelude.{ℕ, ◌≡◌, refl, Option, none, some, List, [], ◌∷◌, arith}
use oakterm.Mux.Examples.Fixed.{Fixed, plus, fixed}
use oakterm.Mux.Layout as Layout
use oakterm.Mux.Layout.{SplitDirection, LayoutNode, pane_ids, check_weights}
use oakterm.Protocol.Delivery.{receive}
use oakterm.Protocol.Frame.{ok, ◌>>=◌}
use oakterm.Protocol.LayoutTree.{
  LayoutTreeNode, LayoutDirection, Json, leaf, container, nil, cons, validate, decode_layout_tree,
  frame_layout_tree,
}
use oakterm.Daemon.WireTree as WireTree
use oakterm.Daemon.WireTree.{to_wire_tree, wire_ids}

abbrev half : Fixed
half = plus 500000

abbrev two_panes : LayoutNode Fixed
two_panes =
    Layout.container SplitDirection.horizontal
      (Layout.cons (Layout.leaf 4) half (Layout.cons (Layout.leaf 9) half Layout.nil))

-- A library for the trees of two panes side by side, of one weight.
abbrev written : LayoutTreeNode Fixed → Option (List ℕ)
written (container LayoutDirection.horizontal (cons (leaf a) (cons (leaf b) nil)) (plus w ∷ _)) =
    some (a ∷ b ∷ w ∷ [])
written _ = none

abbrev read : List ℕ → Option (LayoutTreeNode Fixed)
read (a ∷ b ∷ w ∷ []) = some (
    container LayoutDirection.horizontal (cons (leaf a) (cons (leaf b) nil)) (plus w ∷ plus w ∷ []))
read _ = none

abbrev pairs : Json Fixed
pairs = record { to_vec = written; from_slice = read }

canonical : Layout.validate two_panes ≡ none
unfolding Layout.validate check_weights
canonical = refl

writes : pairs.to_vec (to_wire_tree two_panes) ≡ some (4 ∷ 9 ∷ 500000 ∷ [])
unfolding to_wire_tree
writes = refl

reads : pairs.from_slice (4 ∷ 9 ∷ 500000 ∷ []) ≡ some (to_wire_tree two_panes)
unfolding to_wire_tree
reads = refl

receive-to_wire_tree_example :
    ((frame_layout_tree pairs (to_wire_tree two_panes) 3 >>= receive (decode_layout_tree pairs))
      ≡ ok (to_wire_tree two_panes))
    × (validate (to_wire_tree two_panes) ≡ ok tt)
    × (wire_ids (to_wire_tree two_panes) ≡ pane_ids two_panes)
receive-to_wire_tree_example =
    WireTree.receive-to_wire_tree pairs two_panes (4 ∷ 9 ∷ 500000 ∷ []) 3 (omega arith) canonical
      writes reads (omega arith)
