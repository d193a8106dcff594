-- ===== src/Protocol/LayoutTree.antt =====
-- message.rs: the layout tree on the wire. The JSON library is a parameter: the bytes of a tree, if
-- it has any, and the tree of bytes, if they are the JSON of one.
pub mod Laws
use oakterm.Prelude.{
  ℕ, suc, ◌+◌, Bool, true, false, not, ◌||◌, Option, none, some, List, [], ◌∷◌, ◌++◌, if◌then◌else◌,
  ◌==◌, ltb, length,
}
use oakterm.F32.{F32}
use oakterm.Protocol.Bytes.{to_le}
use oakterm.Protocol.Frame.{Frame, IoResult, ok, err, ErrorKind, ◌>>=◌, u32_at, new}
use oakterm.Protocol.Kinds.{msg_layout_tree}
use oakterm.Protocol.Wire.{at_least, slice, u32_len}

pub data LayoutDirection : Type 0 where
  horizontal vertical : LayoutDirection

-- `Vec<LayoutTreeNode>` is `Nodes`.
mutual
  pub data LayoutTreeNode (W : Type 0) : Type 0 where
    leaf : ℕ → LayoutTreeNode W
    container : LayoutDirection → Nodes W → List W → LayoutTreeNode W

  pub data Nodes (W : Type 0) : Type 0 where
    nil : Nodes W
    cons : LayoutTreeNode W → Nodes W → Nodes W

abbrev pub count : {W : Type 0} → Nodes W → ℕ
count nil = 0
count (cons _ ns) = suc (count ns)

-- `weights.iter().find(|w| !w.is_finite() || **w <= 0.0)` finds one.
abbrev pub has_invalid : {W : Type 0} ⦃f : F32 W⦄ → List W → Bool
has_invalid [] = false
has_invalid ⦃f⦄ (w ∷ ws) = not (f.is_finite w) || f.le w (f.of_ℕ 0) || has_invalid ws

unfoldable mutual
  pub validate : {W : Type 0} ⦃f : F32 W⦄ → LayoutTreeNode W → IoResult (Unit {0})
  validate (leaf _) = ok tt
  validate (container _ ns ws) =
      let rest = validate_all ns in
      if not (count ns == length ws)
      then err ErrorKind.invalid_data
      else if ltb (count ns) 2
      then err ErrorKind.invalid_data
      else if has_invalid ws
      then err ErrorKind.invalid_data
      else rest

  pub validate_all : {W : Type 0} ⦃f : F32 W⦄ → Nodes W → IoResult (Unit {0})
  validate_all nil = ok tt
  validate_all (cons n ns) = validate n >>= λ _. validate_all ns

pub record Json (W : Type 0) : Type 0 where
  pub to_vec : LayoutTreeNode W → Option (List ℕ)
  pub from_slice : List ℕ → Option (LayoutTreeNode W)

-- `map_err(|e| io::Error::new(io::ErrorKind::InvalidData, e))`
abbrev or_invalid : {A : Type 0} → Option A → IoResult A
or_invalid none = err ErrorKind.invalid_data
or_invalid (some a) = ok a

module _ {W : Type 0} ⦃f : F32 W⦄ (json : Json W) where
  unfoldable pub encode_layout_tree : LayoutTreeNode W → IoResult (List ℕ)
  encode_layout_tree tree = validate tree >>= λ _.
      or_invalid (json.to_vec tree) >>= λ text. u32_len text >>= λ len. ok (to_le 4 len ++ text)

  -- `data.get(4..end)` is none out of range.
  unfoldable pub decode_layout_tree : List ℕ → IoResult (LayoutTreeNode W)
  decode_layout_tree bytes = at_least 4 bytes (
      u32_at bytes 0 >>= λ len. at_least (4 + len) bytes (
        slice bytes 4 len >>= λ text.
        or_invalid (json.from_slice text) >>= λ tree. validate tree >>= λ _. ok tree))

  unfoldable pub frame_layout_tree : LayoutTreeNode W → ℕ → IoResult Frame
  frame_layout_tree tree serial = encode_layout_tree tree >>= new msg_layout_tree serial
