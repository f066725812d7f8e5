-- ===== src/Eeprom/Reading.antt =====
-- What sis1100_read_eeprom_ (sis3100/sis1100-2.13/src/sis1100_eeprom.c) stores and returns.
use mdaq_midas.Common.{◌<◌, ◌⊎◌, List, ℕ, zero, suc, ◌+◌, ◌-◌, ◌*◌, ◌%◌, ◌^◌, ◌≡◌, [], ◌∷◌, ◌++◌}
use mdaq_midas.Bus.{Port, Device, World, half}
use mdaq_midas.Bus.Spec.{Returns}
use mdaq_midas.Eeprom.Bits.{cmd_read_word}

-- An EEPROM with the words mem, which the command for a long word reads two at a time.
abbrev pub Answers : (ℕ → ℕ) → Device → Type 0
Answers mem d =
    (offset old : ℕ) (v : World)
    → Returns (λ r _. r ≡ (0, mem offset * 2 ^ 16 + mem (offset + 1)))
        (cmd_read_word offset old d v)

abbrev pub IsSmall : (ℕ → ℕ) → Type 0
IsSmall mem = (i : ℕ) → mem i < 2 ^ 16

-- What the cache holds: nothing, or the two words of which the second is at `next`.
abbrev Cached : (ℕ → ℕ) → ℕ → ℕ → Type 0
Cached mem next cache = (next ≡ 0) ⊎ ((next % 2 ≡ 1) × (cache ≡ mem (next - 1) * 2 ^ 16 + mem next))

-- Where each word is stored, the newest first; an address is a u_int8_t.
abbrev pub words_of : (ℕ → ℕ) → ℕ → ℕ → ℕ → List (Port × ℕ)
words_of mem addr dst zero = []
words_of mem addr dst (suc n) =
    words_of mem ((addr + 1) % 2 ^ 8) (dst + 2) n ++ (half dst, mem addr) ∷ []

-- The cache serves the word at the address, and is right afterwards.
abbrev Served : (ℕ → ℕ) → ℕ → ℕ × ℕ × ℕ → Type 0
Served mem addr x = Cached mem x.0 x.1 × (x.2 ≡ mem addr)
