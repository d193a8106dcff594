-- ===== src/Protocol/Examples/Decoders.antt =====
-- Every decoder at three bytes, with a JSON library that reads a container without children.
use oakterm.Prelude.{none, some, [], ◌∷◌}
use oakterm.Mux.Examples.Fixed.{Fixed, fixed}
use oakterm.Protocol.LayoutTree.{LayoutDirection, Json, container, nil}
use oakterm.Protocol.Messages.Safety as Safety
use oakterm.Protocol.Messages.Safety.{DecodersAnswer}

abbrev careless : Json Fixed
careless = record {
  to_vec = λ t. none;
  from_slice = λ b. some (container LayoutDirection.horizontal nil []);
}

decoders-Answer_example : DecodersAnswer careless (1 ∷ 255 ∷ 2 ∷ [])
decoders-Answer_example = Safety.decoders-Answer careless (1 ∷ 255 ∷ 2 ∷ [])
