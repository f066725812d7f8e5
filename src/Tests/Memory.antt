-- ===== src/Tests/Memory.antt =====
-- An EEPROM of which every digit is set.
use mdaq_midas.Common.{ℕ, ◌≡◌, true, List, ◌∷◌}
use mdaq_midas.Bus.{Access, get, put, Port, Device, plx_cntrl}

-- The line is low for the dummy digit after the address, and high for each digit that is clocked in
-- after a read.
abbrev line : List Access → Port → ℕ
line (put a x ∷ put b y ∷ get c z ∷ t) p = 0x08000000
line _ p = 0

abbrev ones : Device
ones = record { answer = line; access_ok = λ a n. true; patience = 1; hz = 100 }

-- At least three writes have been the last accesses.
abbrev Puts : List Access → Type 0
Puts t =
    (x : ℕ) × (y : ℕ) × (z : ℕ) × (l : List Access) × (t
      ≡ put plx_cntrl x ∷ put plx_cntrl y ∷ put plx_cntrl z ∷ l)
