-- ===== src/Tests/Instructions.antt =====
-- The DSP on the sample board.
use mdaq_midas.Common.{◌≡◌, ◌⊎◌, refl, [], true, arith}
use mdaq_midas.Bus.{World}
use mdaq_midas.Bus.Spec.{Returns}
use mdaq_midas.Dsp.{DspCode, Instruction, dsp_load, low_word, high_word, split_words}
use mdaq_midas.Dsp.Words.{split_words-words}
use mdaq_midas.Dsp.Load.{Refused, Loaded, dsp_load-Loaded}
use mdaq_midas.Tests.Board.{board, silent, silent-Responsive}

abbrev with_dsp : World
with_dsp = record { sc = record board { dsp_present = true }; trace = [] }

abbrev two_instructions : DspCode
two_instructions = record { src = 0x1000; dst = 0x20; size = 12 }

abbrev jump : Instruction
jump = record { v0 = 6; v1 = 0x3e; v2 = 0; v3 = 2; v4 = 0x81; v5 = 0xff }

jump_low : low_word jump ≡ 0x81ff
jump_low = refl

jump_high : high_word jump ≡ 0x63e0002
jump_high = refl

bytes_example : split_words (low_word jump) (high_word jump) ≡ jump
bytes_example =
    split_words-words jump
      (omega arith, omega arith, omega arith, omega arith, omega arith, omega arith)

load_example :
    Returns
      (λ res w'.
        ((w' ≡ with_dsp) × Refused silent with_dsp two_instructions res)
        ⊎ Loaded silent two_instructions with_dsp res w')
      (dsp_load two_instructions silent with_dsp)
load_example = dsp_load-Loaded two_instructions silent with_dsp silent-Responsive refl tt
