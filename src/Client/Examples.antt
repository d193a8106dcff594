-- ===== src/Client/Examples.antt =====
-- Motions in a region of four rows of three columns, of which each holds two words.
use oakterm.Prelude.{◌≡◌, refl, some, [], ◌∷◌, ◌==◌, leb, arith}
use oakterm.Prelude.Integers.{pos, negsuc}
use oakterm.Client.CopyMotion.{Motion, MotionBounds, Unicode, RowText, resolve, skip, run_end}
use oakterm.Client.CopyMotion.Bounds.{AreBounds, IsInside}
use oakterm.Client.CopyMotion.Words as Words
use oakterm.Client.CopyMotion.Words.{LandsOnWord}
use oakterm.Client.CopyMotion.Landing as Landing
use oakterm.Client.CopyMotion.Landing.{Lands, AreNarrow}

abbrev ascii : Unicode
ascii = record { is_whitespace = λ c. c == 32; is_alphanumeric = λ c. leb 97 c }

abbrev screen : RowText
screen = λ row. some (97 ∷ 32 ∷ 98 ∷ [])

abbrev region : MotionBounds
region = record { first_row = negsuc 1; last_row = pos 1; cols = 3; visible_rows = 2 }

region-AreBounds : AreBounds region
region-AreBounds = record {
  first = omega arith;
  last = omega arith;
  ordered = omega arith;
  cols = omega arith;
}

screen-AreNarrow : AreNarrow screen region
screen-AreNarrow row chars e = ground arith

-- The word at the right edge of row -1 goes on at the left edge of row 0, so that the next word is
-- behind the blank. Behind the last word of the region there is none.
word_by_word : resolve ascii screen region 20 Motion.word_forward (negsuc 0, 2) ≡ some (pos 0, 2)
unfolding resolve skip
word_by_word = refl

no_word : resolve ascii screen region 20 Motion.word_forward (pos 1, 2) ≡ some (pos 1, 2)
unfolding resolve skip
no_word = refl

word_back : resolve ascii screen region 20 Motion.word_backward (pos 0, 0) ≡ some (negsuc 0, 2)
unfolding resolve skip run_end
word_back = refl

page_down : resolve ascii screen region 20 Motion.page_down (pos 0, 2) ≡ some (pos 1, 2)
unfolding resolve
page_down = refl

inside : IsInside region (negsuc 0) 2
inside = record {
  signed = omega arith;
  from_first = omega arith;
  to_last = omega arith;
  within = omega arith;
}

resolve-Lands_example :
    Lands region (resolve ascii screen region 20 Motion.word_forward (negsuc 0, 2))
resolve-Lands_example =
    Landing.resolve-Lands ascii screen region region-AreBounds screen-AreNarrow (negsuc 0, 2) inside
      20 (omega arith) Motion.word_forward

resolve-LandsOnWord_example :
    LandsOnWord ascii screen region
      (pos 0, 1)
      (resolve ascii screen region 20 Motion.word_forward (pos 0, 1))
    × LandsOnWord ascii screen region
        (pos 0, 1)
        (resolve ascii screen region 20 Motion.word_backward (pos 0, 1))
    × LandsOnWord ascii screen region
        (pos 0, 1)
        (resolve ascii screen region 20 Motion.word_end (pos 0, 1))
resolve-LandsOnWord_example = Words.resolve-LandsOnWord ascii screen region 20 (pos 0, 1)
