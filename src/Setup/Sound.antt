-- ===== src/Setup/Sound.antt =====
-- sis1100_init_remote and sis1100_synch_handler as a whole (sis3100/sis1100-2.13/src/sis1100_init_remote.c,
-- sis1100_synch_handler.c).
use mdaq_midas.Common.{
  ℕ, ◌≡◌, refl, bit_and, ltb, ◌==◌, Bool, true, false, not, Bool-cases, inl, inr, ◌∷◌, arith, ==→eq,
}
use mdaq_midas.Bus.{
  Softc, get, put, acquire, release, sem_hw, Device, World, M, log, value_at, Responsive, when,
  ◌>>=◌, ◌>>◌, modify, write, pure, sr, cr, p_balance, prot_error, plx,
}
use mdaq_midas.Bus.Spec.{Returns, Returns-cases, Returns-weaken, held, Disciplined}
use mdaq_midas.Remote.{remote_reg_read}
use mdaq_midas.Irq.{enable_irq, if_any}
use mdaq_midas.Irq.Under.{Same, Under, Under-lock}
use mdaq_midas.Ddma.{flush_fifo}
use mdaq_midas.Setup.Sides.{
  sis1100rem_init, sis3100rem_init, sis5100rem_init, zellvd_rem_init, pandapixel_rem_init,
  psf4ad_rem_init,
}
use mdaq_midas.Setup.Init.{
  update_swapping, set_endian, init_side, identified, set_up, clear_and_ask, ask_again, init_remote,
  synch_handler,
}
use mdaq_midas.Setup.Known.{
  Side, pci-Side, vme-Side, camac-Side, lvd-Side, pandapixel-Side, psf4ad-Side,
}
use mdaq_midas.Setup.Keeps.{
  Holds, Under-start, Under-get, Under-put, Under-sc, part_then, part_last, get_far-Holds,
  flush_fifo-Holds,
}
use mdaq_midas.Setup.Outcome.{
  Outcome, Under-Outcome, Outcome-after, entered, left, unlinked, same_start,
}

set_endian-Same : (b : Bool) (sc : Softc) → Same sc (set_endian b sc)
set_endian-Same b sc = record {
  same_fdata = refl;
  same_pending = refl;
  same_hw = refl;
  same_ident = refl;
}

module _ (d : Device) (r : Responsive d) (reset : ℕ) where
  -- A setup function, after which the byte order is noted.
  with_endian :
      (typ : ℕ) (m : M ℕ) (big : Bool) (w : World)
      → Returns (Side typ w) (m d w)
      → Returns (Side typ w) ((m >>= λ res. modify (set_endian big) >> pure res) d w)
  with_endian typ m big w s =
      let (res, w1, eq, (k, ok)) = Returns-cases _ (m d w) s in
      rw (eq, Returns) (Under-sc _ (set_endian-Same big w1.sc) k, ok)

  init_side-Side :
      (typ : ℕ) (w : World)
      → held w.trace ≡ true
      → Disciplined w.trace
      → Returns (Side typ w) (init_side typ reset d w)
  unfolding init_side
  init_side-Side typ w h dis = elim (Bool-cases (typ == 1)) [
    | inl a ↦
        rw (==→eq typ 1 a)
          (with_endian 1 (sis1100rem_init reset) true w (pci-Side d r reset w h dis))
    | inr a ↦ rw a (elim (Bool-cases (typ == 2)) [
      | inl b ↦
          rw (==→eq typ 2 b)
            (with_endian 2 (sis3100rem_init reset) true w (vme-Side d r reset w h dis))
      | inr b ↦ rw b (elim (Bool-cases (typ == 3)) [
        | inl c ↦
            rw (==→eq typ 3 c)
              (with_endian 3 (sis5100rem_init reset) true w (camac-Side d r reset w h dis))
        | inr c ↦ rw c (elim (Bool-cases (typ == 4)) [
          | inl e ↦
              rw (==→eq typ 4 e)
                (with_endian 4 (zellvd_rem_init reset) false w (lvd-Side d r reset w h dis))
          | inr e ↦ rw e (elim (Bool-cases (typ == 5)) [
            | inl f ↦ rw (==→eq typ 5 f) (
                with_endian 5 (pandapixel_rem_init reset) false w
                  (pandapixel-Side d r reset w h dis))
            | inr f ↦ rw f (elim (Bool-cases (typ == 6)) [
              | inl g ↦
                  rw (==→eq typ 6 g)
                    (with_endian 6 (psf4ad_rem_init reset) false w (psf4ad-Side d r reset w h dis))
              | inr g ↦ rw g (
                Under-sc _ (set_endian-Same true w.sc) (Under-start w h dis),
                λ z. absurd (omega (arith, z)),
              )
            ])
          ])
        ])
      ])
    ])
  ]

update_swapping-Holds : (d : Device) → Holds d update_swapping
unfolding update_swapping
update_swapping-Holds d w h dis =
    Under-put (plx 0x0c) _ (Under-put cr _ (Under-get (plx 0x0c) _ (Under-start w h dis)))

module _ (d : Device) (r : Responsive d) where
  set_up-Outcome :
      (reset ident : ℕ) (w : World)
      → held w.trace ≡ true
      → Disciplined w.trace
      → Returns (λ _ w'. Outcome true w w') (set_up reset ident d w)
  unfolding set_up
  set_up-Outcome reset ident w h dis =
      let v : World = record w { sc = identified ident w.sc } in
      let typ = bit_and ident 0xff in
      let (res, w1, eq, (k, ok)) =
        Returns-cases _ (init_side typ reset d v) (init_side-Side d r reset typ v h dis) in
      rw (eq, Returns)
        (elim (Bool-cases (res == 0)) [
          | inl e ↦ rw e (
              part_then d (λ _ w'. Outcome true w w') update_swapping _ (update_swapping-Holds d) k
                λ _ w2 k2. entered w w2 ident k2 (ok (==→eq res 0 e)))
          | inr e ↦ rw e (left w w1 ident k)
        ])

  clear_and_ask-Holds : Holds d clear_and_ask
  unfolding clear_and_ask
  clear_and_ask-Holds w h dis =
      part_then d (λ _ w'. Under w w') flush_fifo _ (flush_fifo-Holds d r) (Under-start w h dis)
        λ res w1 k1.
          part_last d (remote_reg_read 0 true) (get_far-Holds d r 0)
            (Under-get prot_error _ (Under-put p_balance 0 k1))

  ask_again-Holds : (res ident : ℕ) → Holds d (ask_again res ident)
  unfolding ask_again
  ask_again-Holds res ident w h dis = elim (Bool-cases (res == 0)) [
    | inl e ↦ rw e (Under-start w h dis)
    | inr e ↦
        rw e (
          part_last d clear_and_ask clear_and_ask-Holds
            (Under-put cr 0x10000 (Under-start w h dis)))
  ]

  -- What follows the first answer.
  after_answer :
      (reset res ident : ℕ) (u w : World)
      → Under u w
      → Returns
          (λ _ w'. Outcome true u w')
          ((when
              (not (res == 0x101))
              (ask_again res ident >>= λ answer. when (answer.0 == 0) (set_up reset answer.1)))
            d w)
  after_answer reset res ident u w k = elim (Bool-cases (not (res == 0x101))) [
    | inr e ↦ rw e (Under-Outcome k)
    | inl e ↦ rw e (
        part_then d (λ _ w'. Outcome true u w') (ask_again res ident) _ (ask_again-Holds res ident)
          k
          λ answer w1 k1. elim (Bool-cases (answer.0 == 0)) [
            | inr f ↦ rw f (Under-Outcome k1)
            | inl f ↦ rw f (
                Returns-weaken _ _ (set_up reset answer.1 d w1)
                  (set_up-Outcome reset answer.1 w1 k1.holds k1.disciplined)
                  λ _ w2 o. Outcome-after k1 o)
          ])
  ]

  opened :
      (reset : ℕ) (w : World)
      → held w.trace ≡ false
      → Disciplined w.trace
      → Returns
          (λ _ w'. Under w w')
          (when (ltb 1 reset) (write cr 0x10000) d (log (acquire sem_hw) w))
  opened reset w free dis = elim (Bool-cases (ltb 1 reset)) [
    | inl e ↦ rw e (Under-put cr 0x10000 (Under-lock w free dis))
    | inr e ↦ rw e (Under-lock w free dis)
  ]

closed : {w w' : World} → Outcome true w w' → Outcome false w (log (release sem_hw) w')
closed o = record {
  same_fdata = o.same_fdata;
  same_pending = o.same_pending;
  recognised = o.recognised;
  lock = refl;
  disciplined = (o.lock, o.disciplined);
}

-- sis1100_init_remote, on a responsive device and with sem_hw free, ends, whatever the other side
-- answers. The data of all files and the pending IRQs are as before. sc->remote_hw is as before, or it
-- is the type in the identification that the softc now has, and this identification is accepted: it
-- is in the list of known hardware and firmware, with a version that is not too old, or it is of the
-- two boards for which the driver has no such list. The link is touched only under sem_hw, which is
-- free again.
pub init_remote-Recognised :
    (d : Device) (r : Responsive d) (reset : ℕ) (w : World)
    → held w.trace ≡ false
    → Disciplined w.trace
    → Returns (λ _ w'. Outcome false w w') (init_remote reset d w)
unfolding init_remote
init_remote-Recognised d r reset w free dis =
    let (x, w1, eq1, k1) =
      Returns-cases _ (when (ltb 1 reset) (write cr 0x10000) d (log (acquire sem_hw) w))
        (opened d r reset w free dis) in
    let (answer, w2, eq2, k2) =
      Returns-cases _ (clear_and_ask d w1)
        (part_last d clear_and_ask (clear_and_ask-Holds d r) k1) in
    let (y, w3, eq3, o) =
      Returns-cases _
        (when (not (answer.0 == 0x101))
          (ask_again answer.0 answer.1 >>= λ answer. when (answer.0 == 0) (set_up reset answer.1)) d
          w2)
        (after_answer d r reset answer.0 answer.1 w w2 k2) in
    rw (eq1, ◌>>=◌) (rw (eq2, ◌>>=◌) (rw (eq3, Returns) (closed o)))

pub synch_handler-Recognised :
    (d : Device) (r : Responsive d) (w : World)
    → held w.trace ≡ false
    → Disciplined w.trace
    → Returns (λ res w'. (res ≡ 0) × Outcome false w w') (synch_handler d w)
unfolding synch_handler enable_irq if_any
synch_handler-Recognised d r w free dis =
    let t = put cr 0x8110 ∷ put sr 0x8110 ∷ w.trace in
    let status = value_at d t sr in
    let v : World = record w { trace = get sr status ∷ t } in
    elim (Bool-cases (bit_and status 3 == 3)) [
      | inr e ↦ rw e (refl, same_start v.trace (unlinked v free (tt, (tt, (tt, dis)))))
      | inl e ↦
          let (x, w1, eq, o) =
            Returns-cases _ (init_remote 0 d v)
              (init_remote-Recognised d r 0 v free (tt, (tt, (tt, dis)))) in
          rw (e, eq, Returns) (refl, same_start v.trace o)
    ]
