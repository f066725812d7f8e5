-- ===== src/Bus/Monad.antt =====
-- Accesses, the device that answers them, and the monad in which the driver's functions run.
use mdaq_midas.Common.{ℕ, ◌%◌, ◌^◌, Bool, if◌then◌else◌, List, ◌∷◌, Option, none, some}
use mdaq_midas.Bus.State.{Softc}

-- What can be read or written: a register of the PLX bridge, a register of the sis1100 with or
-- without the byte order of the bus, user memory of one, two or four bytes, the clock.
pub data Port : Type 0 where
  plx reg raw byte half word : ℕ → Port
  jiffies now : Port

-- The locks of struct sis1100_softc.
pub data Lock : Type 0 where
  sem_hw sem_fdata sem_irqinfo lock_intcsr lock_doorbell lock_lemo_status lock_command : Lock
  lock_ddma mux_ddma : Lock

pub data Access : Type 0 where
  get put : Port → ℕ → Access
  acquire release : Lock → Access
  wake_local wake_handler start_link_timer dma0_hook_call : Access
  sync_block : ℕ → Access
  kill : ℕ → ℕ → Access
  wake_remote : Access

-- The hardware, user memory and the kernel.
pub record Device : Type 0 where
  pub answer : List Access → Port → ℕ
  pub access_ok : ℕ → ℕ → Bool
  pub patience : ℕ
  pub hz : ℕ

-- `trace` has the newest access first.
pub record World : Type 0 where
  pub sc : Softc
  pub trace : List Access

abbrev pub M : Type 0 → Type 0
M A = Device → World → Option (A × World)

abbrev pub pure : {A : Type 0} → A → M A
pure a d w = some (a, w)

infixl 5 ◌>>=◌ ◌>>◌
abbrev pub ◌>>=◌ : {A B : Type 0} → M A → (A → M B) → M B
◌>>=◌ m f d w = elim (m d w) [ none ↦ none | some (a, w') ↦ f a d w' ]

abbrev pub ◌>>◌ : {B : Type 0} → M (Unit {0}) → M B → M B
m >> k = m >>= λ _. k

abbrev pub log : Access → World → World
log a w = record w { trace = a ∷ w.trace }

-- A register or a piece of memory holds at most 32 bits.
abbrev pub value_at : Device → List Access → Port → ℕ
value_at d t p = d.answer t p % 2 ^ 32

abbrev pub read : Port → M ℕ
read p d w = some (value_at d w.trace p, log (get p (value_at d w.trace p)) w)

abbrev pub write : Port → ℕ → M (Unit {0})
write p v d w = some (tt, log (put p v) w)

abbrev pub lock : Lock → M (Unit {0})
lock l d w = some (tt, log (acquire l) w)

abbrev pub unlock : Lock → M (Unit {0})
unlock l d w = some (tt, log (release l) w)

abbrev pub signal : Access → M (Unit {0})
signal a d w = some (tt, log a w)

abbrev pub gets : {A : Type 0} → (Softc → A) → M A
gets f d w = some (f w.sc, w)

abbrev pub modify : (Softc → Softc) → M (Unit {0})
modify f d w = some (tt, record w { sc = f w.sc })

abbrev pub ask : {A : Type 0} → (Device → A) → M A
ask f d w = some (f d, w)

abbrev pub skip : M (Unit {0})
skip d w = some (tt, w)

-- `if (c) m`
abbrev pub when : Bool → M (Unit {0}) → M (Unit {0})
when c m d w = if c then m d w else some (tt, w)
