-- ===== src/Mux/Examples/Layouts.antt =====
-- Layout trees to run the operations of layout.rs, ops.rs and geometry.rs on, and the theorems about
-- them at these trees.
use oakterm.Prelude.{ℕ, ◌≡◌, refl, ◌↔◌, ◌⊎◌, true, false, none}
use oakterm.Prelude.Counts.{Has}
use oakterm.Mux.Outcome.{ok, err, panicked, LayoutError, pane_not_found, pane_already_present}
use oakterm.Mux.Layout.{
  LayoutNode, horizontal, vertical, leaf, container, nil, cons, pane_ids, contains, flatten,
  validate, check_weights, IsFlat,
}
use oakterm.Mux.Layout.Flatten as Flatten
use oakterm.Mux.Layout.Validate as Validate
use oakterm.Mux.Layout.Members.{IsTiled}
use oakterm.Mux.Layout.Shape.{shape}
use oakterm.Mux.Geometry.{locate_split_site, node_at, pane_rect, touches_edge}
use oakterm.Mux.Geometry.Borders.{
  BorderExtents, border_extents, locate_border, extent_from, panes_share_border,
}
use oakterm.Mux.Geometry.Preview.{SplitPreview, split_preview}
use oakterm.Mux.Geometry.Preview.Answers as Preview
use oakterm.Mux.Geometry.Preview.Answers.{Beside}
use oakterm.Mux.Ops.{close, split, split_in, remove_leaf, renormalize, change_at, removed}
use oakterm.Mux.Ops.Split as Split
use oakterm.Mux.Ops.Close as Close
use oakterm.Mux.Ops.Removal.{Without}
use oakterm.Mux.Ops.Resize as Resize
use oakterm.Mux.Ops.Resize.{resize}
use oakterm.Mux.Ops.Swap.{swap, swap_leaves}
use oakterm.Mux.Ops.Swap.Trades as Trades
use oakterm.Mux.Ops.Swap.Trades.{Trades, blank}
use oakterm.Mux.Examples.Fixed.{Fixed, plus, fixed, fixed-ClampOrder}

program : Unit {0}
unfolding pane_ids contains flatten validate check_weights locate_split_site node_at pane_rect
    touches_edge border_extents locate_border extent_from panes_share_border close split split_in
    remove_leaf renormalize change_at resize swap swap_leaves shape
program = tt

abbrev half : Fixed
half = plus 500000

-- V[1, 2] beside 3.
abbrev columns : LayoutNode Fixed
columns = container horizontal (
    cons (container vertical (cons (leaf 1) half (cons (leaf 2) half nil))) half
      (cons (leaf 3) half nil))

-- H[1, H[2, 3]], which is not canonical.
abbrev nested : LayoutNode Fixed
nested = container horizontal (
    cons (leaf 1) half
      (cons (container horizontal (cons (leaf 2) half (cons (leaf 3) half nil))) half nil))

flatten-nested :
    flatten nested
    ≡ container horizontal
        (cons (leaf 1) half (cons (leaf 2) (plus 250000) (cons (leaf 3) (plus 250000) nil)))
unfolding program
flatten-nested = refl

pane_ids-flatten_example : pane_ids (flatten nested) ≡ pane_ids nested
pane_ids-flatten_example = Flatten.pane_ids-flatten nested

flatten-IsFlat_example : IsFlat (flatten nested)
flatten-IsFlat_example = Flatten.flatten-IsFlat nested

validate_iff_example : (validate columns ≡ none) ↔ Validate.IsCanonical columns
validate_iff_example = Validate.validate_iff columns

split_lem_example :
    (u : LayoutNode Fixed) × (split columns 2 7 horizontal ≡ ok u)
    × Split.InsertedAfter 2 7 (pane_ids columns) (pane_ids u)
    × (IsTiled columns → IsTiled u)
split_lem_example =
    Split.split_lem columns 2 7 horizontal (unfold program in refl) (unfold program in refl)

split-eq-err_example :
    (¬ (split columns 2 3 vertical ≡ panicked))
    × ((e : LayoutError)
        → (split columns 2 3 vertical ≡ err e
            ↔ (Has 3 (pane_ids columns) × (e ≡ pane_already_present 3))
              ⊎ ((¬ Has 3 (pane_ids columns))
                  × (¬ Has 2 (pane_ids columns))
                  × (e ≡ pane_not_found 2))))
split-eq-err_example = Split.split-eq-err columns 2 3 vertical

close-removed_example :
    (u : LayoutNode Fixed) × (hint : ℕ) × (close columns 2 ≡ ok (u, removed hint))
    × Without 2 (pane_ids columns) (pane_ids u)
    × (IsTiled columns → IsTiled u × Has hint (pane_ids u))
close-removed_example = Close.close-removed columns 2 refl (unfold program in refl)

abbrev single_pane : LayoutNode Fixed
single_pane = leaf 4

resize-border_extents_example :
    ((u : LayoutNode Fixed) × (b : BorderExtents Fixed) × (resize columns 2 3
          (plus 100000)
          (plus 50000)
        ≡ ok u)
      × (border_extents columns 2 3 ≡ ok b)
      × (shape u ≡ shape columns))
    ⊎ ((e : LayoutError) × (resize columns 2 3 (plus 100000) (plus 50000) ≡ err e)
        × (border_extents columns 2 3 ≡ err e))
resize-border_extents_example =
    Resize.resize-border_extents fixed-ClampOrder (plus 100000) (plus 50000) columns 2 3
      (refl, refl, refl)

swap_lem_example :
    ((¬ Has 2 (pane_ids columns)) × (swap columns 2 3 ≡ err (pane_not_found 2)))
    ⊎ (Has 2 (pane_ids columns)
        × (¬ Has 3 (pane_ids columns))
        × (swap columns 2 3 ≡ err (pane_not_found 3)))
    ⊎ (Has 2 (pane_ids columns)
        × Has 3 (pane_ids columns)
        × ((u : LayoutNode Fixed) × (swap columns 2 3 ≡ ok u)
            × Trades 2 3 (pane_ids columns) (pane_ids u)
            × (blank u ≡ blank columns)
            × (swap u 2 3 ≡ ok columns)))
swap_lem_example = Trades.swap_lem columns 2 3

split_preview_lem_example :
    ((contains columns 2 ≡ false) × (split_preview columns 2 vertical ≡ err (pane_not_found 2)))
    ⊎ ((contains columns 2 ≡ true)
        × ((p : SplitPreview Fixed) × (split_preview columns 2 vertical ≡ ok p)
            × Beside 2 p.shrunk_siblings (pane_ids columns)))
split_preview_lem_example = Preview.split_preview_lem columns 2 vertical
