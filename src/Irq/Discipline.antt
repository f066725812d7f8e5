-- ===== src/Irq/Discipline.antt =====
-- The functions of sis3100rem_irq.c and sis5100rem_irq.c (sis3100/sis1100-2.13/src) end, keep the
-- lock discipline, and leave what is known of IRQs and their owners alone.
use mdaq_midas.Common.{
  ℕ, zero, suc, ◌*◌, ◌/◌, ◌%◌, ◌^◌, ◌≡◌, refl, ◌∙◌, ◌==◌, false, not, if◌then◌else◌, Bool-cases,
  inl, inr, bit_and, bit_or, not32,
}
use mdaq_midas.Bus.{
  Device, World, M, ◌>>=◌, log, put, t_hdr, t_am, t_adl, in_latch_irq, vme_irq_sc, lam_enable,
  Responsive, modify, read_prot_error,
}
use mdaq_midas.Bus.Spec.{Returns, Returns-cases, held, Disciplined, read_prot_error-Returns}
use mdaq_midas.Remote.{shl32}
use mdaq_midas.Irq.Far.{
  acknowledge, store_vector, fetch_vectors, reorder, sis3100_vme_irqs, sis3100_ext_irqs,
  sis5100_lam_irqs, sis5100_ext_irqs, sis3100rem_irq_handler, sis3100rem_enable_irqs,
  sis3100rem_disable_irqs, sis3100rem_irq_ack, sis5100rem_irq_handler, sis5100rem_enable_irqs,
  sis5100rem_disable_irqs, sis5100rem_irq_ack,
}
use mdaq_midas.Irq.Under.{
  Same-trans, Same-eq, Under, Freed, Under-trans, Under-refl, Under-lock, Under-unlock, Under-then,
  held_locking,
}
use mdaq_midas.Irq.Steps.{put_then, maybe_then, maybes_then, lams_then}

-- From a state in which sem_hw is free, a function ends in one in which it is free again.
abbrev pub Safe : {A : Type 0} → Device → M A → Type 0
Safe d m =
    (w : World) → held w.trace ≡ false → Disciplined w.trace → Returns (λ _ w'. Freed w w') (m d w)

module _ (d : Device) (r : Responsive d) where
  pub enable_vme-Safe : (mask : ℕ) → Safe d (sis3100rem_enable_irqs mask)
  unfolding sis3100rem_enable_irqs
  enable_vme-Safe mask w free dis =
      let vme = bit_and mask sis3100_vme_irqs in
      let ext = bit_and mask sis3100_ext_irqs in
      maybe_then d r (λ _ w'. Freed w w') vme vme_irq_sc vme w _ _ (Under-lock w free dis)
        λ w1 k1.
          maybes_then d r (λ _ w'. Freed w w') ext in_latch_irq (shl32 ext 16) in_latch_irq
            (ext / 2 ^ 8) w _ w1 k1
            λ w2 k2.
              put_then d r (λ _ w'. Freed w w') vme_irq_sc 0x8000 w _ w2 k2
                λ w3 k3. Under-unlock free k3

  pub disable_vme-Safe : (mask : ℕ) → Safe d (sis3100rem_disable_irqs mask)
  unfolding sis3100rem_disable_irqs
  disable_vme-Safe mask w free dis =
      let vme = bit_and mask sis3100_vme_irqs in
      let ext = bit_and mask sis3100_ext_irqs in
      maybe_then d r (λ _ w'. Freed w w') vme vme_irq_sc (shl32 vme 16) w _ _
        (Under-lock w free dis)
        λ w1 k1.
          maybe_then d r (λ _ w'. Freed w w') ext in_latch_irq (shl32 ext 8) w _ w1 k1
            λ w2 k2. Under-unlock free k2

  pub ack_vme-Safe : (mask : ℕ) → Safe d (sis3100rem_irq_ack mask)
  unfolding sis3100rem_irq_ack
  ack_vme-Safe mask w free dis =
      let vme = bit_and mask sis3100_vme_irqs in
      let ext = bit_and mask sis3100_ext_irqs in
      maybe_then d r (λ _ w'. Freed w w') vme vme_irq_sc vme w _ _ (Under-lock w free dis)
        λ w1 k1.
          maybe_then d r (λ _ w'. Freed w w') ext in_latch_irq (ext / 2 ^ 8) w _ w1 k1
            λ w2 k2.
              put_then d r (λ _ w'. Freed w w') vme_irq_sc 0x8000 w _ w2 k2
                λ w3 k3. Under-unlock free k3

  pub enable_camac-Safe : (mask : ℕ) → Safe d (sis5100rem_enable_irqs mask)
  unfolding sis5100rem_enable_irqs
  enable_camac-Safe mask w free dis =
      let ext = bit_and mask sis5100_ext_irqs in
      lams_then d r (λ _ w'. Freed w w') w _ _ (Under-lock w free dis)
        λ e enabled w1 k1.
          let lams = bit_or enabled (bit_and mask sis5100_lam_irqs) in
          maybe_then d r (λ _ w'. Freed w w') lams lam_enable lams w _ w1 k1
            λ w2 k2.
              maybes_then d r (λ _ w'. Freed w w') ext in_latch_irq ext in_latch_irq (ext / 2 ^ 24)
                w _ w2 k2
                λ w3 k3.
                  put_then d r (λ _ w'. Freed w w') in_latch_irq 0x8000 w _ w3 k3
                    λ w4 k4. Under-unlock free k4

  pub disable_camac-Safe : (mask : ℕ) → Safe d (sis5100rem_disable_irqs mask)
  unfolding sis5100rem_disable_irqs
  disable_camac-Safe mask w free dis =
      let ext = bit_and mask sis5100_ext_irqs in
      lams_then d r (λ _ w'. Freed w w') w _ _ (Under-lock w free dis)
        λ e enabled w1 k1.
          let left = bit_and enabled (not32 (bit_and mask sis5100_lam_irqs)) in
          maybe_then d r (λ _ w'. Freed w w') left lam_enable left w _ w1 k1
            λ w2 k2.
              maybe_then d r (λ _ w'. Freed w w') ext in_latch_irq (bit_or ext (ext / 2 ^ 8)) w _ w2
                k2 λ w3 k3. Under-unlock free k3

  pub ack_camac-Safe : (mask : ℕ) → Safe d (sis5100rem_irq_ack mask)
  unfolding sis5100rem_irq_ack
  ack_camac-Safe mask w free dis =
      let ext = bit_and mask sis5100_ext_irqs in
      lams_then d r (λ _ w'. Freed w w') w _ _ (Under-lock w free dis)
        λ e enabled w1 k1.
          let lams = bit_or enabled (bit_and mask sis5100_lam_irqs) in
          maybe_then d r (λ _ w'. Freed w w') lams lam_enable lams w _ w1 k1
            λ w2 k2.
              maybe_then d r (λ _ w'. Freed w w') ext in_latch_irq (ext / 2 ^ 24) w _ w2 k2
                λ w3 k3.
                  put_then d r (λ _ w'. Freed w w') in_latch_irq 0x8000 w _ w3 k3
                    λ w4 k4. Under-unlock free k4

  handler_camac-Safe : (bell : ℕ) → Safe d (sis5100rem_irq_handler bell)
  unfolding sis5100rem_irq_handler
  handler_camac-Safe doorbell w free dis =
      let bell = reorder doorbell in
      let ext = bit_and bell sis5100_ext_irqs in
      lams_then d r (λ _ w'. Freed w w') w _ _ (Under-lock w free dis)
        λ e enabled w1 k1.
          let left = bit_and enabled (not32 (bit_and bell sis5100_lam_irqs)) in
          maybe_then d r (λ _ w'. Freed w w') left lam_enable left w _ w1 k1
            λ w2 k2.
              maybe_then d r (λ _ w'. Freed w w') ext in_latch_irq (bit_or ext (ext / 2 ^ 8)) w _ w2
                k2
                λ w3 k3.
                  put_then d r (λ _ w'. Freed w w') in_latch_irq 0x8000 w _ w3 k3
                    λ w4 k4. Under-unlock free k4

  acknowledge-Under :
      (level : ℕ) {u : World} (w : World)
      → Under u w
      → Returns (λ _ w'. Under w w') (acknowledge level d w)
  unfolding acknowledge
  acknowledge-Under level w k =
      let w0 = log (put t_adl (level * 2)) (
        log (put t_am 0x403f)
          (log (put t_hdr (if level % 2 == 1 then 0x0c010802 else 0x03010802)) w)) in
      let (e, w1, eq, (ne, q)) =
        Returns-cases _ (read_prot_error d w0) (read_prot_error-Returns d w0 r) in
      let holds1 = q.same_held ∙ k.holds in
      let dis1 = q.keeps k.holds (k.holds, (k.holds, (k.holds, k.disciplined))) in
      let same1 = Same-eq w.sc w1.sc q.same_sc in
      rw (eq, Returns)
        (elim (Bool-cases (e == 0)) [
          | inl z ↦ rw z (record {
            same = same1;
            holds = holds1;
            locking = held_locking k.holds q.same_locks;
            disciplined = (holds1, dis1);
          })
          | inr z ↦ rw z (record {
            same = same1;
            holds = holds1;
            locking = held_locking k.holds q.same_locks;
            disciplined = dis1;
          })
        ])

  fetch_one-Under :
      (level : ℕ) {u : World} (w : World)
      → Under u w
      → Returns
          (λ _ w'. Under w w')
          ((acknowledge level >>= λ v. modify (store_vector level v)) d w)
  fetch_one-Under level w k =
      let (v, w1, eq, k1) = Returns-cases _ (acknowledge level d w) (acknowledge-Under level w k) in
      rw (eq, Returns)
        (record {
          same = Same-trans k1.same (record {
            same_fdata = refl;
            same_pending = refl;
            same_hw = refl;
            same_ident = refl;
          });
          holds = k1.holds;
          locking = k1.locking;
          disciplined = k1.disciplined;
        })

  fetch_vectors-Under :
      (irqs n : ℕ) {u : World} (w : World)
      → Under u w
      → Returns (λ _ w'. Under w w') (fetch_vectors irqs n d w)
  unfolding fetch_vectors
  fetch_vectors-Under irqs zero w k = Under-refl k
  fetch_vectors-Under irqs (suc n) w k = elim (Bool-cases (not (bit_and irqs (2 ^ suc n) == 0))) [
    | inl e ↦
        let (x, w1, eq, k1) =
          Returns-cases _ ((acknowledge (suc n) >>= λ v. modify (store_vector (suc n) v)) d w)
            (fetch_one-Under (suc n) w k) in
        let (y, w2, eq', k2) =
          Returns-cases _ (fetch_vectors irqs n d w1) (fetch_vectors-Under irqs n w1 k1) in
        rw (e, eq, eq', Returns) (Under-trans k1 k2)
    | inr e ↦ rw e (fetch_vectors-Under irqs n w k)
  ]

  handler_vme-Safe : (bell : ℕ) → Safe d (sis3100rem_irq_handler bell)
  unfolding sis3100rem_irq_handler
  handler_vme-Safe bell w free dis =
      let new_irqs = bit_and bell (not32 w.sc.pending_irqs) in
      let vme = bit_and bell sis3100_vme_irqs in
      let ext = bit_and bell sis3100_ext_irqs in
      maybe_then d r (λ _ w'. Freed w w') vme vme_irq_sc (shl32 vme 16) w _ _
        (Under-lock w free dis)
        λ w1 k1.
          Under-then (λ _ w'. Freed w w') w (fetch_vectors new_irqs 7 d w1) _ k1
            (fetch_vectors-Under new_irqs 7 w1 k1)
            λ _ w2 k2.
              maybe_then d r (λ _ w'. Freed w w') ext in_latch_irq
                (bit_or (shl32 ext 8) (shl32 ext 16)) w _ w2 k2
                λ w3 k3.
                  put_then d r (λ _ w'. Freed w w') vme_irq_sc 0x8000 w _ w3 k3
                    λ w4 k4. Under-unlock free k4

-- The functions that the requests about IRQs and the interrupt thread call, on a responsive device
-- and with sem_hw free, for every mask: each of the eight functions of sis3100rem_irq.c and
-- sis5100rem_irq.c that handle, enable, disable and acknowledge IRQs ends; it touches the link only
-- while it holds sem_hw, which it takes once and frees; and it changes neither the pending IRQs nor
-- any file's data nor the kind of the other side.
pub far-Safe :
    (d : Device)
    → Responsive d
    → (mask : ℕ)
    → Safe d (sis3100rem_irq_handler mask)
      × Safe d (sis3100rem_enable_irqs mask)
      × Safe d (sis3100rem_disable_irqs mask)
      × Safe d (sis3100rem_irq_ack mask)
      × Safe d (sis5100rem_irq_handler mask)
      × Safe d (sis5100rem_enable_irqs mask)
      × Safe d (sis5100rem_disable_irqs mask)
      × Safe d (sis5100rem_irq_ack mask)
far-Safe d r mask = (
  handler_vme-Safe d r mask,
  enable_vme-Safe d r mask,
  disable_vme-Safe d r mask,
  ack_vme-Safe d r mask,
  handler_camac-Safe d r mask,
  enable_camac-Safe d r mask,
  disable_camac-Safe d r mask,
  ack_camac-Safe d r mask,
)
