-- ===== src/Setup/Calm.antt =====
-- The handlers that the thread of sis1100_irq_thread.c (sis3100/sis1100-2.13/src) calls end, and
-- leave the pending IRQs and the files alone.
use mdaq_midas.Common.{ℕ, ◌≡◌, refl, ◌∙◌, Bool-cases, inl, inr, false}
use mdaq_midas.Bus.{
  Device, World, M, pure, Responsive, ◌>>=◌, HwType, hw_vme, hw_camac, hw_lvd, hw_pandapixel,
  hw_invalid, hw_pci, hw_psf4ad,
}
use mdaq_midas.Bus.Spec.{Returns, Returns-bind, Returns-weaken, held, Disciplined}
use mdaq_midas.Irq.{has, lemo_handler, sis1100_mbx0_irq, zellvd_ddma_irq}
use mdaq_midas.Irq.Discipline.{Safe, far-Safe}
use mdaq_midas.Setup.Init.{synch_handler}
use mdaq_midas.Setup.Thread.{far_handler, serve_doorbell, if_command, handle, new_doorbells}
use mdaq_midas.Setup.Sound.{synch_handler-Recognised}

-- A handler has run.
pub record Handled (w w' : World) : Type 0 where
  pub same_fdata : w'.sc.fdata ≡ w.sc.fdata
  pub same_pending : w'.sc.pending_irqs ≡ w.sc.pending_irqs
  pub free : held w'.trace ≡ false
  pub disciplined : Disciplined w'.trace

Handled-trans : {u v w : World} → Handled u v → Handled v w → Handled u w
Handled-trans a b = record {
  same_fdata = b.same_fdata ∙ a.same_fdata;
  same_pending = b.same_pending ∙ a.same_pending;
  free = b.free;
  disciplined = b.disciplined;
}

-- From a state in which sem_hw is free, a handler ends in one in which it is free again.
pub record Calm {A : Type 0} (d : Device) (m : M A) : Type 0 where
  pub ends :
      (w : World)
      → held w.trace ≡ false
      → Disciplined w.trace
      → Returns (λ _ w'. Handled w w') (m d w)

Calm-bind :
    {A B : Type 0} {d : Device} {m : M A} {f : A → M B}
    → Calm d m
    → ((a : A) → Calm d (f a))
    → Calm d (m >>= f)
Calm-bind {d = d} {m} {f} h k = record {
  ends = λ w free dis.
      Returns-bind (λ _ w'. Handled w w') (λ _ w'. Handled w w') m f d w (h.ends w free dis)
        λ a w1 k1.
          Returns-weaken _ _ (f a d w1) ((k a).ends w1 k1.free k1.disciplined)
            λ _ w2 k2. Handled-trans k1 k2;
}

-- A step that touches no register and changes only other fields of the softc.
still : {A : Type 0} {d : Device} (a : A) → Calm d (pure a)
still a = record {
  ends = λ w free dis. record {
    same_fdata = refl;
    same_pending = refl;
    free = free;
    disciplined = dis;
  };
}

Calm-if : {d : Device} (command m : ℕ) {h : M ℕ} → Calm d h → Calm d (if_command command m h)
unfolding if_command
Calm-if {d} command m {h} k = record {
  ends = λ w free dis. elim (Bool-cases (has command m)) [
    | inl e ↦ rw e (k.ends w free dis)
    | inr e ↦
        rw e (record { same_fdata = refl; same_pending = refl; free = free; disciplined = dis })
  ];
}

Safe-Calm : {A : Type 0} {d : Device} {m : M A} → Safe d m → Calm d m
Safe-Calm {d = d} {m} h = record {
  ends = λ w free dis. Returns-weaken _ _ (m d w) (h w free dis) λ _ w' f. record {
    same_fdata = f.same.same_fdata;
    same_pending = f.same.same_pending;
    free = f.free;
    disciplined = f.disciplined;
  };
}

module _ (d : Device) (r : Responsive d) where
  bells-Calm : (bell : ℕ) → Calm d (new_doorbells bell)
  bells-Calm bell = record {
    ends = λ w free dis. record {
      same_fdata = refl;
      same_pending = refl;
      free = free;
      disciplined = dis;
    };
  }

  far_handler-Calm : (hw : HwType) (bell : ℕ) → Calm d (far_handler hw bell)
  unfolding far_handler
  far_handler-Calm hw_vme bell = Safe-Calm (far-Safe d r bell).0
  far_handler-Calm hw_camac bell = Safe-Calm (far-Safe d r bell).4
  far_handler-Calm hw_lvd bell = bells-Calm bell
  far_handler-Calm hw_pandapixel bell = bells-Calm bell
  far_handler-Calm hw_invalid bell = still 0
  far_handler-Calm hw_pci bell = still 0
  far_handler-Calm hw_psf4ad bell = still 0

  serve_doorbell-Calm : Calm d serve_doorbell
  unfolding serve_doorbell
  serve_doorbell-Calm = record {
    ends = λ w free dis.
        let hw = w.sc.remote_hw in
        let bell = w.sc.doorbell in
        Returns-weaken _ _ (far_handler hw bell d _) ((far_handler-Calm hw bell).ends _ free dis)
          λ _ w' k. record {
            same_fdata = k.same_fdata;
            same_pending = k.same_pending;
            free = k.free;
            disciplined = k.disciplined;
          };
  }

  lemo_handler-Calm : Calm d lemo_handler
  unfolding lemo_handler
  lemo_handler-Calm = record {
    ends = λ w free dis. record {
      same_fdata = refl;
      same_pending = refl;
      free = free;
      disciplined = dis;
    };
  }

  synch_handler-Calm : Calm d synch_handler
  synch_handler-Calm = record {
    ends = λ w free dis.
        Returns-weaken _ _ (synch_handler d w) (synch_handler-Recognised d r w free dis) λ _ w' o.
          record {
            same_fdata = o.1.same_fdata;
            same_pending = o.1.same_pending;
            free = o.1.lock;
            disciplined = o.1.disciplined;
          };
  }

  -- Every handler at once.
  pub handle-Calm : (command : ℕ) → Calm d (handle command)
  unfolding handle
  handle-Calm command = Calm-bind (Calm-if command 1 serve_doorbell-Calm) λ far.
      Calm-bind (Calm-if command 4 lemo_handler-Calm) λ lemo.
        Calm-bind (Calm-if command 8 (still sis1100_mbx0_irq)) λ mbx.
          Calm-bind (Calm-if command 16 synch_handler-Calm)
            λ up. Calm-bind (Calm-if command 64 (still zellvd_ddma_irq)) λ ddma. still _
