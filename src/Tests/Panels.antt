-- ===== src/Tests/Panels.antt =====
-- The front panels of the sample board.
use mdaq_midas.Common.{◌≡◌, refl, false, arith}
use mdaq_midas.Bus.Spec.{Returns}
use mdaq_midas.Front.{front_io, outputs}
use mdaq_midas.Front.Shown.{Shown, front_io-Shown}
use mdaq_midas.Tests.Board.{start, noisy}

-- Output 0 is set and output 1 cleared; the lower digits stay.
switched : outputs 0x6f 0x2000100 ≡ 0x5f
switched = refl

panel_example :
    Returns (λ _ w'. Shown 0x2400140 1 false noisy start w') (front_io 0x2400140 false noisy start)
panel_example = front_io-Shown 0x2400140 1 false noisy start (omega arith) refl tt
