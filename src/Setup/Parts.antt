-- ===== src/Setup/Parts.antt =====
-- The parts of which the setup of the VME and the CAMAC controller consists (sis3100rem_init.c,
-- sis5100rem_init.c of sis3100/sis1100-2.13/src) end and keep the lock discipline.
use mdaq_midas.Common.{
  ℕ, refl, ◌∙◌, ◌==◌, Bool, true, false, not, if◌then◌else◌, Bool-cases, inl, inr, Option, some,
}
use mdaq_midas.Bus.{Softc, Device, World, M, Responsive, dsp_sc, vme_irq_sc, when, ◌>>=◌}
use mdaq_midas.Bus.Spec.{Returns, Returns-cases}
use mdaq_midas.Remote.{remote_reg_read, remote_reg_write}
use mdaq_midas.Irq.{put_far}
use mdaq_midas.Remote.Registers.{remote_reg_write-IsCycle}
use mdaq_midas.Irq.Under.{Same, Same-eq, Under, nested_locking}
use mdaq_midas.Setup.Sdram.{init_sdram}
use mdaq_midas.Setup.Sides.{
  kind, has_dsp, set_dsp, reset_vme, equip_vme, sis3100_set_timeouts, sis3100_get_timeouts,
  with_timer, long_timer, berr_timer,
}
use mdaq_midas.Setup.Keeps.{
  Holds, Under-start, Under-sc, part_then, put_far-Holds, get_far-Holds, init_sdram-Holds,
  set_ram-Same,
}

pub set_dsp-Same : (b : Bool) (sc : Softc) → Same sc (set_dsp b sc)
set_dsp-Same b sc = record {
  same_fdata = refl;
  same_pending = refl;
  same_hw = refl;
  same_ident = refl;
}

module _ (d : Device) (r : Responsive d) where
  pub has_dsp-Holds : Holds d has_dsp
  unfolding has_dsp
  has_dsp-Holds w h dis =
      part_then d (λ _ w'. Under w w') (remote_reg_read dsp_sc true) _ (get_far-Holds d r dsp_sc)
        (Under-start w h dis) λ x w1 k1. k1

  get_timeouts-Holds : Holds d sis3100_get_timeouts
  unfolding sis3100_get_timeouts
  get_timeouts-Holds w h dis =
      part_then d (λ _ w'. Under w w') (remote_reg_read 0x100 true) _ (get_far-Holds d r 0x100)
        (Under-start w h dis) λ x w1 k1. k1

  write_far-Holds : (offs v : ℕ) → Holds d (remote_reg_write offs v true)
  write_far-Holds offs v w h dis =
      let (x, w1, eq, c) =
        Returns-cases _ (remote_reg_write offs v true d w)
          (remote_reg_write-IsCycle offs v true d w r h dis) in
      rw (eq, Returns)
        (record {
          same = Same-eq w.sc w1.sc c.same_sc;
          holds = c.same_held ∙ h;
          locking = nested_locking h c;
          disciplined = c.disciplined;
        })

  set_timeouts-Holds : (berr arb : Option ℕ) → Holds d (sis3100_set_timeouts berr arb)
  unfolding sis3100_set_timeouts
  set_timeouts-Holds berr arb w h dis =
      part_then d (λ _ w'. Under w w') (remote_reg_read 0x100 true) _ (get_far-Holds d r 0x100)
        (Under-start w h dis) λ x w1 k1. after_read x.0 x.1 w1 k1
    where
      after_read :
          (res bits : ℕ) (w1 : World)
          → Under w w1
          → Returns
              (λ _ w'. Under w w')
              (let all = with_timer 12 long_timer arb (with_timer 14 berr_timer berr bits) in
                if not (res == 0)
                then some (res, w1)
                else if all == 0
                then some (res, w1)
                else (remote_reg_write 0x100 all true >>= λ error.
                      sis3100_get_timeouts >>= λ times. λ d w. some (error, w))
                    d w1)
      after_read res bits w1 k1 =
          let all = with_timer 12 long_timer arb (with_timer 14 berr_timer berr bits) in
          elim (Bool-cases (not (res == 0))) [
            | inl e ↦ rw e k1
            | inr e ↦ rw e (elim (Bool-cases (all == 0)) [
              | inl z ↦ rw z k1
              | inr z ↦ rw z (
                  part_then d (λ _ w'. Under w w') (remote_reg_write 0x100 all true) _
                    (write_far-Holds 0x100 all) k1
                    λ e w2 k2.
                      part_then d (λ _ w'. Under w w') sis3100_get_timeouts _ get_timeouts-Holds k2
                        λ t w3 k3. k3)
            ])
          ]

  pub reset_vme-Holds : Holds d reset_vme
  unfolding reset_vme
  reset_vme-Holds w h dis =
      part_then d (λ _ w'. Under w w') (put_far vme_irq_sc 0x00fe0001) _ (put_far-Holds d r _ _)
        (Under-start w h dis)
        λ _ w1 k1.
          part_then d (λ _ w'. Under w w') (put_far 0x100 8) _ (put_far-Holds d r _ _) k1
            λ _ w2 k2.
              part_then d (λ _ w'. Under w w') (sis3100_set_timeouts (some 5000) (some 10)) _
                (set_timeouts-Holds (some 5000) (some 10)) k2 λ _ w3 k3. k3

  pub equip_vme-Holds : (ident : ℕ) → Holds d (equip_vme ident)
  unfolding equip_vme
  equip_vme-Holds ident w h dis = elim (Bool-cases (kind ident == 0x00010100)) [
    | inl e ↦ rw e (
        part_then d (λ _ w'. Under w w') init_sdram _ (init_sdram-Holds d r) (Under-start w h dis)
          λ _ w1 k1.
            part_then d (λ _ w'. Under w w') has_dsp _ has_dsp-Holds k1
              λ b w2 k2. Under-sc _ (set_dsp-Same b w2.sc) k2)
    | inr e ↦
        rw e (
          Under-sc _ (set_dsp-Same false _)
            (Under-sc _ (set_ram-Same 0 w.sc) (Under-start w h dis)))
  ]

  pub when-Holds : (b : Bool) (m : M (Unit {0})) → Holds d m → Holds d (when b m)
  when-Holds true m hm w h dis = hm w h dis
  when-Holds false m hm w h dis = Under-start w h dis
