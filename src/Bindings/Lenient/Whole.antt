-- ===== src/Bindings/Lenient/Whole.antt =====
-- The lenient decoder of src/bindings/base64/lenient.rs, as its callers use it.
use hashcodecs_rs.Common.{ℕ, ◌≤◌, ◌<◌, ◌≡◌, refl, inl, suc, Option, Bool, List, length, arith, All}
use hashcodecs_rs.Word.{IsByte}
use hashcodecs_rs.Base64.Encode.{usize_mod}
use hashcodecs_rs.Base64.Output.{Memory}
use hashcodecs_rs.Bindings.Lenient.{decode_lenient_to_ptr, lenient_decode_table}
use hashcodecs_rs.Bindings.Lenient.Machine.{machine, result}
use hashcodecs_rs.Bindings.Lenient.Rounds.{lenient_rounds-machine}
use hashcodecs_rs.Bindings.Lenient.Tables.{AreBytes, lenient_decode_table-Agrees}

-- For all characters of the caller, if any, with or without padding, whether or not it goes on
-- after padding, all bytes whose number is in usize, and an output with room for what the byte-by-
-- byte machine emits: decode_lenient_to_ptr with the table of these characters, which takes runs
-- of symbols and whole quanta at once, stores exactly the bytes of the machine and keeps the cells
-- behind; it returns their number if the machine accepts the text, and InvalidInput otherwise; it
-- does not panic or run out of rounds.
pub decode_lenient_to_ptr-machine :
    (altchars : Option (ℕ × ℕ)) (padded continue_after_padding : Bool) (input : List ℕ)
    (mem : Memory)
    → AreBytes altchars
    → All IsByte input
    → length input < usize_mod
    → let read =
        machine (lenient_decode_table altchars) padded continue_after_padding input 0 0 0 in
      length read.0 ≤ length mem
      → decode_lenient_to_ptr input
          (length mem)
          (lenient_decode_table altchars)
          altchars
          padded
          continue_after_padding
          mem
        ≡ result 0 mem read
unfolding decode_lenient_to_ptr
decode_lenient_to_ptr-machine altchars padded continue_after_padding input mem a b h fits =
    lenient_rounds-machine (length mem) (lenient_decode_table altchars) altchars padded
      continue_after_padding (lenient_decode_table-Agrees altchars a) (suc (length input))
      (omega arith) (record { written = 0; quad_pos = 0; leftchar = 0; pads = 0 }) input mem
      (omega arith) b (inl refl) refl (omega arith)
