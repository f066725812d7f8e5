-- ===== src/Vme/Outcome.antt =====
-- What a caller of the library gets, and what it does to the link.
use mdaq_midas.Common.{
  ℕ, ◌*◌, ◌%◌, ◌^◌, ◌≡◌, ◌≢◌, refl, ap, ◌∙◌, ◌==◌, true, false, Bool-cases, inl, inr, ==→ne, ==→eq,
  List, [], ◌∷◌, ◌++◌, Option, none, some,
}
use mdaq_midas.Bus.{
  Access, Device, World, put, Responsive, t_adl, reg, hw_invalid, hw_eq, subdev_remote,
}
use mdaq_midas.Bus.Spec.{Returns, Returns-cases, writes, held, Disciplined}
use mdaq_midas.Remote.{header, with_am, tmp_read, tmp_write, spread, remote_reg_write}
use mdaq_midas.Remote.Cycle.{IsCycle, opening}
use mdaq_midas.Remote.Single.{tmp_read-IsCycle, tmp_write-IsCycle, write_sent}
use mdaq_midas.Remote.Registers.{remote_reg_write-IsCycle}
use mdaq_midas.Vme.Requests.{
  VmeReq, if_linked, ioctl_vme_read, ioctl_vme_write, ioctl_ctrl_write, ctrl_write_remote,
}
use mdaq_midas.Vme.Library.{minus_one, read_result, single_read, single_write}
use mdaq_midas.Vme.Control.{s3100_control_write, vmesysreset}

-- What a read returns and stores, by the error and the datum of its transaction: without an error 0
-- and the low `size` bytes of the datum, and else the error and nothing.
abbrev pub IsAnswer : ℕ → ℕ × ℕ → ℕ × Option ℕ → Type 0
IsAnswer size x r = (x.0 ≡ 0 → r ≡ (0, some (x.1 % 2 ^ (8 * size)))) × (x.0 ≢ 0 → r ≡ (x.0, none))

-- A transaction that has ended: what it has sent, and that nothing else has changed.
pub record IsTransfer (w : World) (sent : List Access) (w' : World) : Type 0 where
  pub same_sc : w'.sc ≡ w.sc
  pub sends : writes w'.trace ≡ sent ++ writes w.trace
  pub same_held : held w'.trace ≡ held w.trace
  pub disciplined : Disciplined w'.trace

IsCycle-IsTransfer :
    (w : World) (sent : List Access) (e : ℕ) (w' : World)
    → IsCycle w sent e w'
    → IsTransfer w sent w'
IsCycle-IsTransfer w sent e w' c = record {
  same_sc = c.same_sc;
  sends = c.sends;
  same_held = c.same_held;
  disciplined = c.disciplined;
}

read_result-IsAnswer :
    (req : VmeReq) → IsAnswer req.size (req.error, req.data_) (read_result (0, req))
unfolding read_result
read_result-IsAnswer req = elim (Bool-cases (req.error == 0)) [
  | inl e ↦ rw e ((λ _. refl), (λ ne. absurd (ne (==→eq req.error 0 e))))
  | inr e ↦ rw e ((λ z. absurd (==→ne req.error 0 e z)), (λ _. refl))
]

-- Without a link (remote_hw is invalid) a read of the library fails with -1, stores nothing and does
-- not touch the hardware.
pub single_read-unlinked :
    (size am adr : ℕ) (d : Device) (w : World)
    → hw_eq w.sc.remote_hw hw_invalid ≡ true
    → Returns (λ r w'. (r ≡ (minus_one, none)) × (w' ≡ w)) (single_read size am adr d w)
unfolding single_read ioctl_vme_read read_result
single_read-unlinked size am adr d w e = rw (e, if_linked, Returns) (refl, refl)

-- With a link, a responsive device and sem_hw free, a read of the library ends, after one tmp_read
-- from the given address. If tmp_read has reported no error, it returns 0 and stores the low `size`
-- bytes of the datum of tmp_read; else it returns the error of tmp_read and stores nothing. It has sent
-- the address modifier, a read header with the byte enables, and the address, in this order and once,
-- has changed no field of the softc and has freed sem_hw.
pub single_read-linked :
    (size am adr : ℕ) (d : Device) (w : World)
    → hw_eq w.sc.remote_hw hw_invalid ≡ false
    → Responsive d
    → held w.trace ≡ false
    → Disciplined w.trace
    → Returns
        (λ r w'.
          ((x : ℕ × ℕ) × (tmp_read adr (some am) size 1 0 d w ≡ some (x, w')) × IsAnswer size x r)
          × IsTransfer w
              (put t_adl adr ∷ opening (some am) (with_am (some am) (header 0x00000002 size 1 adr)))
              w')
        (single_read size am adr d w)
unfolding single_read ioctl_vme_read
single_read-linked size am adr d w e r free dis =
    let (x, w1, eq, h) =
      Returns-cases _ (tmp_read adr (some am) size 1 0 d w)
        (tmp_read-IsCycle adr (some am) size 1 0 d w r free dis) in
    rw (e, if_linked, eq, Returns)
      (
        (
          x,
          eq,
          read_result-IsAnswer
              record { size = size; am = some am; addr = adr; data_ = x.1; error = x.0 },
        ),
        IsCycle-IsTransfer w _ x.0 w1 h,
      )

-- With a link, a responsive device and sem_hw free, a write of the library ends. It has sent the
-- address modifier, a write header with the byte enables, the datum's low `size` bytes on every lane,
-- and the address, in this order and once, has changed no field of the softc and has freed sem_hw.
pub single_write-linked :
    (size am adr v : ℕ) (d : Device) (w : World)
    → hw_eq w.sc.remote_hw hw_invalid ≡ false
    → Responsive d
    → held w.trace ≡ false
    → Disciplined w.trace
    → Returns
        (λ _ w'.
          IsTransfer w (write_sent adr (some am) size 1 (spread size (v % 2 ^ (8 * size)))) w')
        (single_write size am adr v d w)
unfolding single_write ioctl_vme_write
single_write-linked size am adr v d w e r free dis =
    let (x, w1, eq, h) =
      Returns-cases _ (tmp_write adr (some am) size 1 (v % 2 ^ (8 * size)) d w)
        (tmp_write-IsCycle adr (some am) size 1 (v % 2 ^ (8 * size)) d w r free dis) in
    rw (e, if_linked, eq, Returns) (IsCycle-IsTransfer w _ x w1 h)

control_write-sends :
    (v : ℕ) (d : Device) (w : World)
    → Responsive d
    → held w.trace ≡ false
    → Disciplined w.trace
    → Returns
        (λ r w'. (r ≡ 0) × IsTransfer w (put (reg 0x900) v ∷ []) w')
        (s3100_control_write subdev_remote 0x100 v d w)
unfolding s3100_control_write ioctl_ctrl_write ctrl_write_remote
control_write-sends v d w r free dis =
    let (x, w1, eq, h) =
      Returns-cases _ (remote_reg_write 0x100 v false d w)
        (remote_reg_write-IsCycle 0x100 v false d w r free dis) in
    rw (eq, Returns) (refl, IsCycle-IsTransfer w _ x w1 h)

-- On a responsive device with sem_hw free, vmesysreset on the VME controller's handle returns 0: it
-- sets and then clears the reset bit of register 0x100 of the controller, and writes nothing else.
-- It does so whatever error the link reports for either write, since s3100_control_write does not
-- look at the struct's error field.
pub vmesysreset-sends :
    (d : Device) (w : World)
    → Responsive d
    → held w.trace ≡ false
    → Disciplined w.trace
    → Returns
        (λ r w'. (r ≡ 0) × IsTransfer w (put (reg 0x900) 0x20000 ∷ put (reg 0x900) 0x2 ∷ []) w')
        (vmesysreset subdev_remote d w)
unfolding vmesysreset
vmesysreset-sends d w r free dis =
    let (x, w1, eq, (z, h)) =
      Returns-cases _ (s3100_control_write subdev_remote 0x100 0x2 d w)
        (control_write-sends 0x2 d w r free dis) in
    let (y, w2, eq', (z', h')) =
      Returns-cases _ (s3100_control_write subdev_remote 0x100 0x20000 d w1)
        (control_write-sends 0x20000 d w1 r (h.same_held ∙ free) h.disciplined) in
    rw (eq, z, eq', z', Returns)
      (
        refl,
        record {
          same_sc = h'.same_sc ∙ h.same_sc;
          sends = h'.sends ∙ ap (λ t. put (reg 0x900) 0x20000 ∷ t) h.sends;
          same_held = h'.same_held ∙ h.same_held;
          disciplined = h'.disciplined;
        },
      )
