-- ===== src/Eeprom/Wire.antt =====
-- What the EEPROM sees of a trace: it takes the level of DI at each rising edge of SK while CS is
-- high, and a command is what it has taken between a rise and a fall of CS.
use mdaq_midas.Common.{
  ℕ, zero, suc, ◌==◌, Bool, true, false, not, ◌&&◌, if◌then◌else◌, List, [], ◌∷◌, ◌++◌, test_bit,
}
use mdaq_midas.Bus.{Port, plx, Access, put}

pub record Wire : Type 0 where
  pub sk : Bool
  pub cs : Bool
  pub taken : List Bool
  pub commands : List (List Bool)

abbrev pub idle : Wire
idle = record { sk = false; cs = false; taken = []; commands = [] }

-- A new level of the lines, as CNTRL has them: SK is bit 24, CS bit 25, DI bit 26.
abbrev pub on_select : ℕ → Wire → Wire
on_select v s = record {
  sk = test_bit 24 v;
  cs = true;
  taken = if test_bit 24 v && not s.sk then s.taken ++ test_bit 26 v ∷ [] else s.taken;
  commands = s.commands;
}

abbrev pub on_deselect : ℕ → Wire → Wire
on_deselect v s = record {
  sk = test_bit 24 v;
  cs = false;
  taken = [];
  commands = if s.cs then s.commands ++ s.taken ∷ [] else s.commands;
}

abbrev pub level : ℕ → Wire → Wire
level v s = if test_bit 25 v then on_select v s else on_deselect v s

abbrev pub observe : Port → ℕ → Wire → Wire
observe (plx n) v s = if n == 0x6c then level v s else s
observe _ v s = s

abbrev pub wire : List Access → Wire
wire [] = idle
wire (put p v ∷ t) = observe p v (wire t)
wire (_ ∷ t) = wire t

-- The n low digits of a number, the most significant first.
abbrev pub to_bits : ℕ → ℕ → List Bool
to_bits zero v = []
to_bits (suc n) v = test_bit n v ∷ to_bits n v
