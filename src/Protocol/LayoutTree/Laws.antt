-- ===== src/Protocol/LayoutTree/Laws.antt =====
-- message.rs: what the layout tree's encoder and decoder promise, whatever the JSON library does.
use oakterm.Prelude.{
  ℕ, ◌+◌, ◌≤◌, ◌<◌, ◌≡◌, refl, ◌∙◌, false, some, List, ◌++◌, ltb, length, arith, Option-cases, inl,
  inr, ◌⊎◌, Bool-cases, ◌==◌,
}
use oakterm.F32.{F32}
use oakterm.Protocol.Bytes.{to_le, from_le-four}
use oakterm.Protocol.Delivery.{receive, receive-encoded}
use oakterm.Protocol.Frame.{IoResult, ok, err, ErrorKind, ◌>>=◌, max_payload}
use oakterm.Protocol.Kinds.{msg_layout_tree}
use oakterm.Protocol.LayoutTree.{
  LayoutTreeNode, Nodes, leaf, container, nil, cons, count, has_invalid, Json, validate,
  validate_all, encode_layout_tree, decode_layout_tree, frame_layout_tree,
}
use oakterm.Protocol.Wire.{at_least}
use oakterm.Protocol.Wire.Behind.{u32_len-ok, take-all}
use oakterm.Protocol.Wire.Safety.{
  AnswersWith, found-Answers, at_least-Answers, u32_at-found, slice-found,
}

-- `validate` accepts a tree or calls it invalid.
abbrev Verdict : IoResult (Unit {0}) → Type 0
Verdict r = (r ≡ ok tt) ⊎ (r ≡ err ErrorKind.invalid_data)

mutual
  unfolding validate

  validate-Verdict : {W : Type 0} ⦃f : F32 W⦄ (t : LayoutTreeNode W) → Verdict (validate t)
  validate-Verdict (leaf _) = inl refl
  validate-Verdict (container d ns ws) = elim (Bool-cases (count ns == length ws)) [
    | inr other ↦ inr (rw other refl)
    | inl same ↦ elim (Bool-cases (ltb (count ns) 2)) [
      | inl few ↦ inr (rw (same, few) refl)
      | inr many ↦ elim (Bool-cases (has_invalid ws)) [
        | inl bad ↦ inr (rw (same, many, bad) refl)
        | inr good ↦ rw (same, many, good) (validate_all-Verdict ns)
      ]
    ]
  ]

  validate_all-Verdict : {W : Type 0} ⦃f : F32 W⦄ (ns : Nodes W) → Verdict (validate_all ns)
  validate_all-Verdict nil = inl refl
  validate_all-Verdict (cons n ns) = elim (validate-Verdict n) [
    | inl good ↦ rw good (validate_all-Verdict ns)
    | inr bad ↦ inr (rw bad refl)
  ]

module _ {W : Type 0} ⦃f : F32 W⦄ (json : Json W) where
  -- Whatever the JSON library makes of the bytes, the decoder returns no tree that `validate`
  -- refuses, and answers with one of the two errors otherwise.
  pub decode_layout_tree-Answers :
      (bytes : List ℕ) → AnswersWith (λ t. validate t ≡ ok tt) (decode_layout_tree json bytes)
  unfolding decode_layout_tree
  decode_layout_tree-Answers bytes = at_least-Answers bytes _ 4 _ λ h.
      found-Answers _ _ (u32_at-found bytes 0 (omega (arith, h))) λ n.
        at_least-Answers bytes _ (4 + n) _ λ h. found-Answers _ _ (slice-found bytes 4 n h) λ text.
          elim (Option-cases (json.from_slice text)) [
            | inl nothing ↦ rw nothing tt
            | inr (tree, is) ↦
                rw is
                  (elim (validate-Verdict tree) [ inl good ↦ rw good good | inr bad ↦ rw bad tt ])
          ]

  -- A tree that `validate` accepts is what the receiver decodes, if the JSON library reads the
  -- tree back from the text that it wrote of it, and the text fits a frame.
  pub receive-layout_tree :
      (t : LayoutTreeNode W) (text : List ℕ) (serial : ℕ)
      → serial < 4294967296
      → validate t ≡ ok tt
      → json.to_vec t ≡ some text
      → json.from_slice text ≡ some t
      → 4 + length text ≤ max_payload
      → (frame_layout_tree json t serial >>= receive (decode_layout_tree json)) ≡ ok t
  unfolding frame_layout_tree encode_layout_tree decode_layout_tree
  receive-layout_tree t text serial numbered valid writes reads fits =
      let bytes = to_le 4 (length text) ++ text in
      let sent : encode_layout_tree json t ≡ ok bytes =
        rw (valid, writes, u32_len-ok text (omega (arith, fits))) refl in
      let four : ltb (length bytes) 4 ≡ false = ground arith in
      let all : ltb (length bytes) (4 + length text) ≡ false = ground arith in
      receive-encoded (decode_layout_tree json) msg_layout_tree serial bytes (omega arith) numbered
        (omega (arith, fits)) (encode_layout_tree json t) sent
      ∙ rw
          (
            sent,
            at_least,
            four,
            from_le-four (length text) (omega (arith, fits)),
            all,
            take-all text,
            reads,
            valid,
          )
          refl
