-- ===== src/Protocol/Wire/Laws.antt =====
-- message.rs: what is read back at an offset, for the shared parts of the messages.
use oakterm.Prelude.{ℕ, ◌<◌, ◌≡◌, refl, ap, ◌∙◌, Bool, true, false, not, ◌==◌, length, arith}
use oakterm.Prelude.Integers.{ℤ, IsSigned, to_twos, of_twos, of_twos-to_twos, to_twos-lt}
use oakterm.Protocol.Bytes.{to_le, from_le, from_le-two, from_le-four}
use oakterm.Protocol.Wire.{Text, bool_byte}
use oakterm.Protocol.Utf8.{is_utf8}

pub from_le-eight : (n : ℕ) → n < 18446744073709551616 → from_le (to_le 8 n) ≡ n
from_le-eight n h = omega arith

pub i16-back : (z : ℤ) → IsSigned 32768 z → of_twos 32768 (from_le (to_le 2 (to_twos 32768 z))) ≡ z
i16-back z h =
    ap (of_twos 32768) (from_le-two (to_twos 32768 z) (to_twos-lt 32768 z h))
    ∙ of_twos-to_twos 32768 z h

pub i32-back :
    (z : ℤ)
    → IsSigned 2147483648 z
    → of_twos 2147483648 (from_le (to_le 4 (to_twos 2147483648 z))) ≡ z
i32-back z h =
    ap (of_twos 2147483648) (from_le-four (to_twos 2147483648 z) (to_twos-lt 2147483648 z h))
    ∙ of_twos-to_twos 2147483648 z h

pub i64-back :
    (z : ℤ)
    → IsSigned 9223372036854775808 z
    → of_twos 9223372036854775808 (from_le (to_le 8 (to_twos 9223372036854775808 z))) ≡ z
i64-back z h =
    ap (of_twos 9223372036854775808)
      (from_le-eight (to_twos 9223372036854775808 z) (to_twos-lt 9223372036854775808 z h))
    ∙ of_twos-to_twos 9223372036854775808 z h

pub bool-back : (b : Bool) → not (bool_byte b == 0) ≡ b
bool-back true = refl
bool-back false = refl

-- A text that a message can carry.
pub record IsText (s : Text) : Type 0 where
  pub size : length s < 65536
  pub utf8 : is_utf8 s ≡ true
