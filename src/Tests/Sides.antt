-- ===== src/Tests/Sides.antt =====
-- The setup of the other side, and the thread, where a CAMAC controller has been put in the place of
-- the VME controller.
use mdaq_midas.Common.{ℕ, ◌≡◌, refl, [], ◌∷◌, true, false, ◌*◌, ◌^◌, arith, ◌==◌, if◌then◌else◌}
use mdaq_midas.Bus.{Device, Port, reg, Responsive}
use mdaq_midas.Bus.Spec.{Returns}
use mdaq_midas.Setup.{init_remote, ram_of, signature}
use mdaq_midas.Setup.Outcome.{Outcome}
use mdaq_midas.Setup.Sound.{init_remote-Recognised}
use mdaq_midas.Tests.Board.{start}

-- The link is up, and the identification is that of a CAMAC controller of version 1.
abbrev answer_of : Port → ℕ
answer_of (reg n) = if n == 0x800 then 0x01010103 else if n == 4 then 3 else 0
answer_of _ = 0

abbrev camac_board : Device
camac_board = record {
  answer = λ t p. answer_of p;
  access_ok = λ a n. true;
  patience = 1;
  hz = 100;
}

camac_board-Responsive : Responsive camac_board
camac_board-Responsive t = (0, omega arith, omega arith)

dimm : ram_of (signature (0x80 ∷ 8 ∷ 4 ∷ 0x0d ∷ 0x0a ∷ 2 ∷ 0x40 ∷ 0 ∷ [])) ≡ (512 * 2 ^ 20, true)
unfolding ram_of
dimm = refl

init_example : Returns (λ _ w'. Outcome false start w') (init_remote 0 camac_board start)
init_example = init_remote-Recognised camac_board camac_board-Responsive 0 start refl tt
