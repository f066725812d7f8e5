-- ===== src/Irq/Ctl.antt =====
-- sis1100_irq_ctl (sis3100/sis1100-2.13/src/sis1100_irq_handler.c) as a whole.
use mdaq_midas.Common.{
  ℕ, ◌≡◌, ◌≢◌, refl, sym, ◌==◌, false, Bool-cases, inl, inr, ==→eq, ==→ne, bit_and, not32, List,
  ◌∷◌, Option, some,
}
use mathlib.Core.Path.{subst}
use mdaq_midas.Bus.{
  Softc, Fdata, Device, World, log, acquire, release, Responsive, hw_vme, hw_eq, when, sem_irqinfo,
}
use mdaq_midas.Bus.Spec.{Returns-both, Returns, Returns-cases, held, Disciplined}
use mdaq_midas.Irq.Owner.{slot, set_slot, fdata_at, reserve_irq, release_irq}
use mdaq_midas.Irq.Far.{if_any}
use mdaq_midas.Irq.Control.{
  IrqCtl, enable_irq, disable_irq, enable_far, disable_far, local_mask, subscribe, ack_irqs,
  irq_ctl_enable, irq_ctl_on, irq_ctl_off, irq_ctl,
}
use mdaq_midas.Irq.Exclusive.{
  Exclusive, Exclusive-set, fdata_at_lem, reserve_irq-Exclusive, release_irq-Exclusive,
}
use mdaq_midas.Irq.Ack.{ack_irqs-Acked}
use mdaq_midas.Irq.Sides.{
  Fine, enable_far-Fine, disable_far-Fine, enable_local-Fine, disable_local-Fine,
}

-- The caller's IRQs and process stay when its signal is set.
subscribe-Exclusive :
    (self : ℕ) (ctl : IrqCtl) (sc : Softc) (f : Fdata)
    → slot sc.fdata self ≡ some f
    → Exclusive sc.fdata
    → Exclusive (subscribe self ctl sc).fdata
subscribe-Exclusive self ctl sc f at old =
    subst (λ g. Exclusive (set_slot sc.fdata self (signed g))) (sym (fdata_at_lem sc self at))
      (Exclusive-set sc.fdata self f (signed f) at old
        λ b j h ne sh bg bh. old b self j f h at sh bg bh)
  where
    signed : Fdata → Fdata
    signed g = record g { sig = ctl.signal; old_remote_hw = sc.remote_hw }

-- The owners are exclusive, and sem_hw is free.
pub record Sound (w : World) : Type 0 where
  pub exclusive : Exclusive w.sc.fdata
  pub free : held w.trace ≡ false
  pub disciplined : Disciplined w.trace

release_irq-frees :
    (self mask : ℕ) (d : Device) (w : World)
    → held w.trace ≡ false
    → Disciplined w.trace
    → Returns (λ _ w'. (held w'.trace ≡ false) × Disciplined w'.trace) (release_irq self mask d w)
unfolding release_irq
release_irq-frees self mask d w free dis = (free, dis)

reserve_irq-frees :
    (self mask : ℕ) (d : Device) (w : World)
    → held w.trace ≡ false
    → Disciplined w.trace
    → Returns (λ _ w'. (held w'.trace ≡ false) × Disciplined w'.trace) (reserve_irq self mask d w)
unfolding reserve_irq
reserve_irq-frees self mask d w free dis = (free, dis)

release_irq-Sound :
    (self mask : ℕ) (f : Fdata) (fd : List (Option Fdata)) (d : Device) (w : World)
    → slot fd self ≡ some f
    → Exclusive fd
    → Fine fd w
    → Returns (λ _ w'. Sound w') (release_irq self mask d w)
release_irq-Sound self mask f fd d w at old k =
    let (x, w1, eq, ((e, s), (free, dis))) = Returns-cases _ (release_irq self mask d w) (
      Returns-both _ _ (release_irq self mask d w)
        (release_irq-Exclusive self mask f d w (subst (λ l. slot l self ≡ some f) (sym k.fdata) at)
          (subst Exclusive (sym k.fdata) old))
        (release_irq-frees self mask d w k.free k.disciplined)) in
    rw (eq, Returns) (record { exclusive = e; free = free; disciplined = dis })

-- Disabling: the caller's IRQs of the mask are disabled on both sides and given back.
irq_ctl_off-Sound :
    (self : ℕ) (ctl : IrqCtl) (f : Fdata) (d : Device) (w : World)
    → Responsive d
    → slot w.sc.fdata self ≡ some f
    → Sound w
    → Returns (λ res w'. (res ≡ 0) × Sound w') (irq_ctl_off self ctl d w)
unfolding irq_ctl_off
irq_ctl_off-Sound self ctl f d w r at s =
    let k1 : Fine fd w1 = record { fdata = refl; free = s.free; disciplined = s.disciplined } in
    let (x, w2, eq2, k2) =
      Returns-cases _ (disable_far w.sc.remote_hw irqs d w1)
        (disable_far-Fine fd d r w.sc.remote_hw irqs w1 k1) in
    let vme = hw_eq w.sc.remote_hw hw_vme in
    let (y, w3, eq3, k3) =
      Returns-cases _ (when vme (if_any (local_mask irqs) (disable_irq 0 (local_mask irqs))) d w2)
        (disable_local-Fine fd d r vme (local_mask irqs) w2 k2) in
    let (z, w4, eq4, s4) =
      Returns-cases _ (release_irq self ctl.irq_mask d w3)
        (release_irq-Sound self ctl.irq_mask f fd d w3 at s.exclusive k3) in
    rw (eq2, eq3, eq4, Returns) (refl, s4)
  where
    fd : List (Option Fdata)
    fd = w.sc.fdata

    irqs : ℕ
    irqs = bit_and (fdata_at w.sc self).owned_irqs ctl.irq_mask

    w1 : World
    w1 = record w { sc = record w.sc { autoack_mask = bit_and w.sc.autoack_mask (not32 irqs) } }

-- Enabling after a successful reservation, from the state w that it has left.
enabled :
    (self : ℕ) (ctl : IrqCtl) (g : Fdata) (d : Device) (w : World)
    → Responsive d
    → slot w.sc.fdata self ≡ some g
    → Sound w
    → Returns (λ res w'. (res ≡ 0) × Sound w') (irq_ctl_enable self ctl d w)
unfolding irq_ctl_enable
enabled self ctl g d w r at s =
    let (x, w1, eq1, a) =
      Returns-cases _ (ack_irqs ctl.irq_mask d (log (acquire sem_irqinfo) w))
        (ack_irqs-Acked ctl.irq_mask d (log (acquire sem_irqinfo) w) r s.free s.disciplined) in
    let w2 = record w1 { sc = subscribe self ctl w1.sc; trace = release sem_irqinfo ∷ w1.trace } in
    let fd = w2.sc.fdata in
    let exclusive : Exclusive fd =
      subscribe-Exclusive self ctl w1.sc g (subst (λ l. slot l self ≡ some g) (sym a.same_fdata) at)
        (subst Exclusive (sym a.same_fdata) s.exclusive) in
    let (y, w3, eq3, k3) = Returns-cases _ (enable_far w1.sc.remote_hw ctl.irq_mask d w2) (
      enable_far-Fine fd d r w1.sc.remote_hw ctl.irq_mask w2
        (record { fdata = refl; free = a.free; disciplined = a.disciplined })) in
    let vme = hw_eq w1.sc.remote_hw hw_vme in
    let m = local_mask ctl.irq_mask in
    let (z, w4, eq4, k4) =
      Returns-cases _ (when vme (if_any m (enable_irq 0 m)) d w3)
        (enable_local-Fine fd d r vme m w3 k3) in
    rw (eq1, eq3, eq4, Returns)
      (
        refl,
        record {
          exclusive = subst Exclusive (sym k4.fdata) exclusive;
          free = k4.free;
          disciplined = k4.disciplined;
        },
      )

irq_ctl_on-Sound :
    (self : ℕ) (ctl : IrqCtl) (f : Fdata) (d : Device) (w : World)
    → Responsive d
    → slot w.sc.fdata self ≡ some f
    → Sound w
    → Returns (λ res w'. Sound w' × (res ≢ 0 → w'.sc.fdata ≡ w.sc.fdata)) (irq_ctl_on self ctl d w)
unfolding irq_ctl_on
irq_ctl_on-Sound self ctl f d w r at s =
    let (res, w1, eq, ((e, got, lost), (free, dis))) =
      Returns-cases _ (reserve_irq self ctl.irq_mask d w) (
        Returns-both _ _ (reserve_irq self ctl.irq_mask d w)
          (reserve_irq-Exclusive self ctl.irq_mask f d w at s.exclusive)
          (reserve_irq-frees self ctl.irq_mask d w s.free s.disciplined)) in
    let s1 : Sound w1 = record { exclusive = e; free = free; disciplined = dis } in
    elim (Bool-cases (res == 0)) [
      | inl z ↦
          let (x, w2, eq2, (zero, s2)) =
            Returns-cases _ (irq_ctl_enable self ctl d w1)
              (enabled self ctl _ d w1 r (got (==→eq res 0 z)) s1) in
          rw (eq, z, eq2, Returns) (s2, (λ n. absurd (n zero)))
      | inr z ↦ rw (eq, z, Returns) (s1, (λ _. lost (==→ne res 0 z)))
    ]

-- sis1100_irq_ctl, called for an open file, on a responsive device and with sem_hw free, ends,
-- whether it is to enable or to disable, whatever the kind of the other side. If no IRQ was owned by
-- two processes, none is afterwards; the link is touched only under sem_hw, which is free again; and a
-- result other than 0 has left the data of all files as they were.
pub irq_ctl-Sound :
    (self : ℕ) (ctl : IrqCtl) (f : Fdata) (d : Device) (w : World)
    → Responsive d
    → slot w.sc.fdata self ≡ some f
    → Sound w
    → Returns (λ res w'. Sound w' × (res ≢ 0 → w'.sc.fdata ≡ w.sc.fdata)) (irq_ctl self ctl d w)
unfolding irq_ctl
irq_ctl-Sound self ctl f d w r at s = elim (Bool-cases (ctl.signal == 0)) [
  | inl e ↦
      let (x, w1, eq, (zero, s1)) =
        Returns-cases _ (irq_ctl_off self ctl d w) (irq_ctl_off-Sound self ctl f d w r at s) in
      rw (e, eq, Returns) (s1, (λ n. absurd (n zero)))
  | inr e ↦ rw e (irq_ctl_on-Sound self ctl f d w r at s)
]
