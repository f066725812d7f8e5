-- ===== src/Irq/Owner.antt =====
-- reserve_irq and release_irq of sis3100/sis1100-2.13/src/sis1100_irq_handler.c. A struct
-- sis1100_fdata is named by its place in sc->fdata.
use mdaq_midas.Common.{
  ℕ, zero, suc, ◌+◌, bit_and, bit_or, not32, ◌==◌, if◌then◌else◌, List, [], ◌∷◌, Option, none, some,
}
use mdaq_midas.Bus.{
  M, pure, ◌>>=◌, ◌>>◌, lock, unlock, gets, modify, Softc, Fdata, sem_fdata, hw_invalid,
}

abbrev pub ebusy : ℕ
ebusy = 16

abbrev pub slot : List (Option Fdata) → ℕ → Option Fdata
slot [] i = none
slot (f ∷ l) zero = f
slot (f ∷ l) (suc i) = slot l i

abbrev pub set_slot : List (Option Fdata) → ℕ → Fdata → List (Option Fdata)
set_slot [] i g = []
set_slot (f ∷ l) zero g = some g ∷ l
set_slot (f ∷ l) (suc i) g = f ∷ set_slot l i g

-- A struct that the memory does not have; every fd is in sc->fdata as long as its file is open.
abbrev no_fdata : Fdata
no_fdata = record { pid = 0; owned_irqs = 0; sig = 0; old_remote_hw = hw_invalid }

abbrev pub fdata_at : Softc → ℕ → Fdata
fdata_at sc i = elim (slot sc.fdata i) [ none ↦ no_fdata | some f ↦ f ]

abbrev pub set_fdata : ℕ → (Fdata → Fdata) → Softc → Softc
set_fdata i f sc = record sc { fdata = set_slot sc.fdata i (f (fdata_at sc i)) }

-- What another open file with these IRQs makes of the result so far.
abbrev pub claim : ℕ → ℕ → Fdata → ℕ → ℕ
claim pid mask f res =
    if bit_and f.owned_irqs mask == 0 then res else if f.pid == pid then res else ebusy

-- The loop of reserve_irq from place i on.
unfoldable pub scan : ℕ → ℕ → ℕ → List (Option Fdata) → ℕ → ℕ → ℕ
scan self pid mask [] i res = res
scan self pid mask (none ∷ l) i res = scan self pid mask l (i + 1) res
scan self pid mask (some f ∷ l) i res =
    scan self pid mask l (i + 1) (if i == self then res else claim pid mask f res)

-- reserve_irq
unfoldable pub reserve_irq : ℕ → ℕ → M ℕ
reserve_irq self mask = do
  lock sem_fdata
  res ← gets (λ sc. scan self (fdata_at sc self).pid mask sc.fdata 0 0)
  modify (λ sc.
      if res == 0
      then set_fdata self (λ f. record f { owned_irqs = bit_or f.owned_irqs mask }) sc
      else sc)
  unlock sem_fdata
  pure res

-- release_irq
unfoldable pub release_irq : ℕ → ℕ → M (Unit {0})
release_irq self mask = do
  lock sem_fdata
  modify
      (λ sc. set_fdata self (λ f. record f { owned_irqs = bit_and f.owned_irqs (not32 mask) }) sc)
  unlock sem_fdata
