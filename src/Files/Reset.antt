-- ===== src/Files/Reset.antt =====
-- What the request SIS1100_RESET of sis3100/sis1100-2.13/src/sis1100_ioctl.c does to the link.
use mdaq_midas.Common.{
  List, ◌∷◌, ℕ, zero, suc, ◌≡◌, refl, ◌∙◌, Bool-cases, inl, inr, false, true-ne-false, sym,
}
use mdaq_midas.Bus.{p_balance, prot_error, Access, Device, World, log, get, put, sr, cr, value_at}
use mdaq_midas.Bus.Spec.{Returns, Returns-cases, held, Disciplined}
use mdaq_midas.Irq.{has}
use mdaq_midas.Ddma.{drain, flush_fifo, max_flush_words}
use mdaq_midas.Files.Requests.{ioctl_reset}

-- No lock has been taken or released, and no field of the softc changed.
abbrev Lockless : World → World → Type 0
Lockless w w' = (held w'.trace ≡ held w.trace) × (w'.sc ≡ w.sc)

drain-Lockless :
    (n status : ℕ) (d : Device) (w : World) → Returns (λ _ w'. Lockless w w') (drain n status d w)
unfolding drain
drain-Lockless zero status d w = (refl, refl)
drain-Lockless (suc n) status d w = elim (Bool-cases (has status 0x200000)) [
  | inl e ↦ rw e (drain-Lockless n _ d _)
  | inr e ↦ rw e (elim (Bool-cases (has status 0x100000)) [
    | inl f ↦ rw f (drain-Lockless n _ d _)
    | inr f ↦ rw f (refl, refl)
  ])
]

flush_fifo-Lockless : (d : Device) (w : World) → Returns (λ _ w'. Lockless w w') (flush_fifo d w)
unfolding flush_fifo
flush_fifo-Lockless d w =
    let w1 = log (put cr 2) w in
    let status = value_at d w1.trace sr in
    let w2 = log (get sr status) w1 in
    let (x, w3, eq, k) =
      Returns-cases _ (drain (suc max_flush_words) status d w2)
        (drain-Lockless (suc max_flush_words) status d w2) in
    rw (eq, Returns) k

-- The last accesses have been the write to p_balance and the read of prot_error, with sem_hw free.
abbrev pub Raced : World → Type 0
Raced w =
    (v : ℕ) × (t : List Access) × (w.trace ≡ get prot_error v ∷ put p_balance 0 ∷ t)
    × (held t ≡ false)

-- ioctl_reset always ends and returns 0, and leaves the softc as it was; but it does not take sem_hw:
-- if the caller does not hold it, then its last two accesses, the write of 0 to p_balance and the read of
-- prot_error, which belong to the transactions of the link, have been made while it was free.
pub ioctl_reset-races :
    (d : Device) (w : World)
    → held w.trace ≡ false
    → Returns
        (λ res w'. (res ≡ 0) × (w'.sc ≡ w.sc) × Raced w' × ¬ (Disciplined w'.trace))
        (ioctl_reset d w)
unfolding ioctl_reset
ioctl_reset-races d w free =
    let w1 = log (put cr 1) w in
    let (x, w2, eq, k) = Returns-cases _ (flush_fifo d w1) (flush_fifo-Lockless d w1) in
    rw (eq, Returns)
      (
        refl,
        k.1,
        (value_at d (put p_balance 0 ∷ w2.trace) prot_error, w2.trace, refl, k.0 ∙ free),
        λ dis. true-ne-false (sym dis.0 ∙ k.0 ∙ free),
      )
