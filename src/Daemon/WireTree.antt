-- ===== src/Daemon/WireTree.antt =====
-- crates/oakterm-daemon/src/requests/layout.rs: a tab's layout tree on the wire.
use oakterm.Prelude.{
  ℕ, suc, ◌+◌, ◌≤◌, ◌<◌, ◌≡◌, refl, ap, true, false, List, [], ◌∷◌, ◌++◌, ltb, ◌==◌, none, some,
  length, arith,
}
use oakterm.F32.{F32}
use oakterm.Mux.Layout as Layout
use oakterm.Mux.Layout.{
  SplitDirection, LayoutNode, Children, size, is_canonical, pane_ids, children_ids,
}
use oakterm.Mux.Layout.Validate.{IsCanonical, AreCanonical, WeightsFrom, validate_iff}
use oakterm.Protocol.Delivery.{receive}
use oakterm.Protocol.Frame.{ok, ◌>>=◌, max_payload}
use oakterm.Protocol.LayoutTree.{
  LayoutTreeNode, LayoutDirection, Nodes, Json, leaf, container, nil, cons, count, has_invalid,
  validate, validate_all, decode_layout_tree, frame_layout_tree,
}
use oakterm.Protocol.LayoutTree.Laws.{receive-layout_tree}

abbrev to_wire_direction : SplitDirection → LayoutDirection
to_wire_direction SplitDirection.horizontal = LayoutDirection.horizontal
to_wire_direction SplitDirection.vertical = LayoutDirection.vertical

-- `c.children.iter().map(|ch| ch.weight)`
abbrev child_weights : {W : Type 0} → Children W → List W
child_weights Layout.nil = []
child_weights (Layout.cons _ w cs) = w ∷ child_weights cs

unfoldable mutual
  pub to_wire_tree : {W : Type 0} → LayoutNode W → LayoutTreeNode W
  to_wire_tree (Layout.leaf id) = leaf id
  to_wire_tree (Layout.container d cs) =
      container (to_wire_direction d) (to_wire_nodes cs) (child_weights cs)

  -- `c.children.iter().map(|ch| to_wire_tree(&ch.node))`
  pub to_wire_nodes : {W : Type 0} → Children W → Nodes W
  to_wire_nodes Layout.nil = nil
  to_wire_nodes (Layout.cons n _ cs) = cons (to_wire_tree n) (to_wire_nodes cs)

module _ {W : Type 0} where
  count-to_wire_nodes : (cs : Children W) → count (to_wire_nodes cs) ≡ size cs
  unfolding to_wire_tree
  count-to_wire_nodes Layout.nil = refl
  count-to_wire_nodes (Layout.cons n w cs) = ap suc (count-to_wire_nodes cs)

  length-child_weights : (cs : Children W) → length (child_weights cs) ≡ size cs
  length-child_weights Layout.nil = refl
  length-child_weights (Layout.cons n w cs) = ap suc (length-child_weights cs)

module _ {W : Type 0} ⦃f : F32 W⦄ where
  has_invalid-child_weights :
      (sum : W) (cs : Children W) → WeightsFrom sum cs → has_invalid (child_weights cs) ≡ false
  has_invalid-child_weights sum Layout.nil h = refl
  has_invalid-child_weights sum (Layout.cons n w cs) h =
      rw (h.0, h.1, has_invalid-child_weights (f.add sum w) cs h.2) refl

mutual
  unfolding to_wire_tree validate

  -- The wire accepts every tree in the multiplexer's canonical form.
  validate-to_wire_tree :
      {W : Type 0} ⦃f : F32 W⦄ (t : LayoutNode W)
      → IsCanonical t
      → validate (to_wire_tree t) ≡ ok tt
  validate-to_wire_tree (Layout.leaf _) h = refl
  validate-to_wire_tree ⦃f⦄ (Layout.container d cs) h =
      let same : (count (to_wire_nodes cs) == length (child_weights cs)) ≡ true =
        ground (arith, count-to_wire_nodes cs, length-child_weights cs) in
      let many : ltb (count (to_wire_nodes cs)) 2 ≡ false =
        ground (arith, count-to_wire_nodes cs, h.0) in
      rw
        (
          same,
          many,
          has_invalid-child_weights (f.of_ℕ 0) cs h.1,
          validate_all-to_wire_nodes d cs h.2,
        )
        refl

  validate_all-to_wire_nodes :
      {W : Type 0} ⦃f : F32 W⦄ (d : SplitDirection) (cs : Children W)
      → AreCanonical d cs
      → validate_all (to_wire_nodes cs) ≡ ok tt
  validate_all-to_wire_nodes d Layout.nil h = refl
  validate_all-to_wire_nodes d (Layout.cons n w cs) h =
      rw (validate-to_wire_tree n h.1, validate_all-to_wire_nodes d cs h.2) refl

-- The panes of a tree on the wire, in its order.
abbrev mutual
  pub wire_ids : {W : Type 0} → LayoutTreeNode W → List ℕ
  wire_ids (leaf id) = id ∷ []
  wire_ids (container _ ns _) = all_wire_ids ns

  pub all_wire_ids : {W : Type 0} → Nodes W → List ℕ
  all_wire_ids nil = []
  all_wire_ids (cons n ns) = wire_ids n ++ all_wire_ids ns

mutual
  unfolding to_wire_tree pane_ids

  wire_ids-to_wire_tree : {W : Type 0} (t : LayoutNode W) → wire_ids (to_wire_tree t) ≡ pane_ids t
  wire_ids-to_wire_tree (Layout.leaf _) = refl
  wire_ids-to_wire_tree (Layout.container d cs) = all_wire_ids-to_wire_nodes cs

  all_wire_ids-to_wire_nodes :
      {W : Type 0} (cs : Children W) → all_wire_ids (to_wire_nodes cs) ≡ children_ids cs
  all_wire_ids-to_wire_nodes Layout.nil = refl
  all_wire_ids-to_wire_nodes (Layout.cons n w cs) =
      rw (wire_ids-to_wire_tree n, all_wire_ids-to_wire_nodes cs) refl

module _ {W : Type 0} ⦃f : F32 W⦄ (json : Json W) where
  -- A layout tree in canonical form is answered with a frame, not with an error, from which the
  -- receiver decodes a tree that it accepts, with the same panes in the same order, if the JSON
  -- library reads the tree back from the text that it wrote of it, and the text fits a frame.
  pub receive-to_wire_tree :
      (t : LayoutNode W) (text : List ℕ) (serial : ℕ)
      → serial < 4294967296
      → Layout.validate t ≡ none
      → json.to_vec (to_wire_tree t) ≡ some text
      → json.from_slice text ≡ some (to_wire_tree t)
      → 4 + length text ≤ max_payload
      → ((frame_layout_tree json (to_wire_tree t) serial >>= receive (decode_layout_tree json))
          ≡ ok (to_wire_tree t))
        × (validate (to_wire_tree t) ≡ ok tt)
        × (wire_ids (to_wire_tree t) ≡ pane_ids t)
  receive-to_wire_tree t text serial numbered canonical writes reads fits =
      let valid = validate-to_wire_tree t ((validate_iff t).0 canonical) in
      (
        receive-layout_tree json (to_wire_tree t) text serial numbered valid writes reads fits,
        valid,
        wire_ids-to_wire_tree t,
      )
