-- ===== src/Remote/Registers.antt =====
-- sis1100_remote_reg_read and sis1100_remote_reg_write: the registers of the other side.
use mdaq_midas.Common.{
  ℕ, ◌+◌, ◌/◌, ◌^◌, bit_and, bit_or, bit_at, bit_at-or, bit_at-le, ◌≡◌, ◌≢◌, refl, inl, inr, ◌==◌,
  Bool, true, false, Bool-cases, ==→ne, ◌∷◌, [], arith,
}
use mdaq_midas.Bus.{
  Device, World, put, get, reg, acquire, log, Responsive, e_dlock, tc_hdr, tc_dal, sem_hw,
  read_prot_error, value_at,
}
use mdaq_midas.Bus.Spec.{
  Returns, Returns-cases, Returns-weaken, held, Disciplined, Quiet, Quiet-refl, Quiet-trans,
  Quiet-get, Touches-held, is_link, read_prot_error-Returns,
}
use mdaq_midas.Remote.Defs.{
  await_confirmation, le_dlock, reread, from_confirmation, remote_reg_read, remote_reg_write,
  lock_unless, unlock_unless,
}
use mdaq_midas.Remote.Cycle.{
  IsCycle, IsFinal, await-Returns, close-IsCycle, close_nested, digit_nine-IsFinal,
}

-- Whether the caller says that it holds sem_hw must be the truth.
abbrev pub SaysTruth : Bool → World → Type 0
SaysTruth locked w = held w.trace ≡ locked

-- On a responsive device, when `locked` says whether the caller holds sem_hw: the write of a
-- register of the other side ends with a final code, has written this register alone and changed
-- no field of the softc, and sem_hw is as before, taken and freed if it was free.
pub remote_reg_write-IsCycle :
    (offs v : ℕ) (locked : Bool) (d : Device) (w : World)
    → Responsive d
    → SaysTruth locked w
    → Disciplined w.trace
    → Returns
        (λ e w'. IsCycle w (put (reg (offs + 0x800)) v ∷ []) e w')
        (remote_reg_write offs v locked d w)
unfolding remote_reg_write lock_unless unlock_unless
remote_reg_write-IsCycle offs v false d w r free dis =
    let w0 = log (put (reg (offs + 0x800)) v) (log (acquire sem_hw) w) in
    let (e, w1, eq, h) = Returns-cases _ (await_confirmation d w0) (await-Returns d w0 r) in
    rw (eq, Returns)
      (close-IsCycle {w = w} (put (reg (offs + 0x800)) v ∷ []) e refl refl refl refl
        (Touches-held (is_link (reg (offs + 0x800))) refl, (free, dis)) free h.0 h.1)
remote_reg_write-IsCycle offs v true d w r holds dis =
    let w0 = log (put (reg (offs + 0x800)) v) w in
    let (e, w1, eq, h) = Returns-cases _ (await_confirmation d w0) (await-Returns d w0 r) in
    rw (eq, Returns)
      (close_nested {w = w} (put (reg (offs + 0x800)) v ∷ []) e refl refl holds refl
        (Touches-held (is_link (reg (offs + 0x800))) holds, dis) holds h.0 h.1)

confirmed_digit : (head : ℕ) → bit_at 9 (bit_or (bit_and (head / 2 ^ 24) 0xff) 0x200) ≡ 1
unfolding bit_at
confirmed_digit head = omega (
  arith,
  bit_at-or 9 (bit_and (head / 2 ^ 24) 0xff) 0x200,
  bit_at-le 9 (bit_and (head / 2 ^ 24) 0xff),
)

confirmed-IsFinal : (head : ℕ) → IsFinal (bit_or (bit_and (head / 2 ^ 24) 0xff) 0x200)
confirmed-IsFinal head = digit_nine-IsFinal _ (confirmed_digit head)

from_confirmation-Returns :
    (head val : ℕ) (d : Device) (w : World)
    → Returns (λ r w'. IsFinal r.0 × Quiet w w') (from_confirmation head val d w)
unfolding from_confirmation
from_confirmation-Returns head val d w = elim (Bool-cases (bit_and head 0x300 == 0x300)) [
  | inl e ↦ rw e (confirmed-IsFinal head, Quiet-refl w)
  | inr e ↦ rw e (omega arith, Quiet-get tc_dal _ w)
]

reread-Returns :
    (error val : ℕ) (d : Device) (w : World)
    → error ≢ e_dlock
    → Returns (λ r w'. IsFinal r.0 × Quiet w w') (reread error val d w)
unfolding reread
reread-Returns error val d w h =
    let head = value_at d w.trace tc_hdr in
    let w1 = log (get tc_hdr head) w in
    elim (Bool-cases (error == le_dlock)) [
      | inl e ↦
          rw (e, Returns)
            (Returns-weaken (λ r w'. IsFinal r.0 × Quiet w1 w') (λ r w'. IsFinal r.0 × Quiet w w')
              (from_confirmation head val d w1) (from_confirmation-Returns head val d w1)
              λ r w' h'. (h'.0, Quiet-trans (Quiet-get tc_hdr head w) h'.1))
      | inr e ↦ rw e ((h, ==→ne _ _ e), Quiet-refl w)
    ]

-- On a responsive device, when `locked` says whether the caller holds sem_hw: the read of a register
-- of the other side ends with a final code, writes no register and changes no field of the softc,
-- and sem_hw is as before, taken and freed if it was free.
pub remote_reg_read-IsCycle :
    (offs : ℕ) (locked : Bool) (d : Device) (w : World)
    → Responsive d
    → SaysTruth locked w
    → Disciplined w.trace
    → Returns (λ r w'. IsCycle w [] r.0 w') (remote_reg_read offs locked d w)
unfolding remote_reg_read lock_unless unlock_unless
remote_reg_read-IsCycle offs false d w r free dis =
    let w0 = log (acquire sem_hw) w in
    let v = value_at d w0.trace (reg (offs + 0x800)) in
    let w1 = log (get (reg (offs + 0x800)) v) w0 in
    let (e, w2, eq, h) = Returns-cases _ (read_prot_error d w1) (read_prot_error-Returns d w1 r) in
    let (x, w3, eq', h') = Returns-cases _ (reread e v d w2) (reread-Returns e v d w2 h.0) in
    rw (eq, eq', Returns)
      (close-IsCycle {w = w} {w0 = w0} [] x.0 refl refl refl refl (free, dis) free h'.0
        (Quiet-trans (Quiet-trans (Quiet-get (reg (offs + 0x800)) v w0) h.1) h'.1))
remote_reg_read-IsCycle offs true d w r holds dis =
    let v = value_at d w.trace (reg (offs + 0x800)) in
    let w1 = log (get (reg (offs + 0x800)) v) w in
    let (e, w2, eq, h) = Returns-cases _ (read_prot_error d w1) (read_prot_error-Returns d w1 r) in
    let (x, w3, eq', h') = Returns-cases _ (reread e v d w2) (reread-Returns e v d w2 h.0) in
    rw (eq, eq', Returns)
      (close_nested {w = w} {w0 = w} [] x.0 refl refl holds refl dis holds h'.0
        (Quiet-trans (Quiet-trans (Quiet-get (reg (offs + 0x800)) v w) h.1) h'.1))
