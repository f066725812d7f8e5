-- ===== src/Setup/Outcome.antt =====
-- What sis1100_init_remote (sis3100/sis1100-2.13/src/sis1100_init_remote.c) may do to the softc.
use mdaq_midas.Common.{ℕ, ◌≡◌, refl, sym, ◌∙◌, bit_and, Bool, true, false, inl, inr, ◌⊎◌, List}
use mathlib.Core.Path.{subst}
use mdaq_midas.Bus.{Softc, Access, World}
use mdaq_midas.Bus.Spec.{held, Disciplined}
use mdaq_midas.Irq.Under.{Under}
use mdaq_midas.Setup.Init.{hw_of, identified}
use mdaq_midas.Setup.Known.{Accepted}

-- The other side is as before, or is the one of which the softc has the identification, and that is
-- accepted.
abbrev pub Recognised : Softc → Softc → Type 0
Recognised s s' =
    (s'.remote_hw ≡ s.remote_hw)
    ⊎ ((s'.remote_hw ≡ hw_of (bit_and s'.remote_ident 0xff))
        × Accepted (bit_and s'.remote_ident 0xff) s'.remote_ident)

-- What sis1100_init_remote does to the softc and the link; `b` says whether sem_hw is held.
pub record Outcome (b : Bool) (w w' : World) : Type 0 where
  pub same_fdata : w'.sc.fdata ≡ w.sc.fdata
  pub same_pending : w'.sc.pending_irqs ≡ w.sc.pending_irqs
  pub recognised : Recognised w.sc w'.sc
  pub lock : held w'.trace ≡ b
  pub disciplined : Disciplined w'.trace

pub Under-Outcome : {u w : World} → Under u w → Outcome true u w
Under-Outcome k = record {
  same_fdata = k.same.same_fdata;
  same_pending = k.same.same_pending;
  recognised = inl k.same.same_hw;
  lock = k.holds;
  disciplined = k.disciplined;
}

pub Outcome-after : {u v w : World} → Under u v → Outcome true v w → Outcome true u w
Outcome-after {u} {v} {w} k o = record {
  same_fdata = o.same_fdata ∙ k.same.same_fdata;
  same_pending = o.same_pending ∙ k.same.same_pending;
  recognised = elim o.recognised [ inl e ↦ inl (e ∙ k.same.same_hw) | inr a ↦ inr a ];
  lock = o.lock;
  disciplined = o.disciplined;
}

-- An accepted other side is entered into the softc.
pub entered :
    (w v : World) (ident : ℕ)
    → Under (record w { sc = identified ident w.sc }) v
    → Accepted (bit_and ident 0xff) ident
    → Outcome true w (record v { sc = record v.sc { remote_hw = hw_of (bit_and ident 0xff) } })
entered w v ident k ok = record {
  same_fdata = k.same.same_fdata;
  same_pending = k.same.same_pending;
  recognised = inr (
      subst
        (λ i. (hw_of (bit_and ident 0xff) ≡ hw_of (bit_and i 0xff)) × Accepted (bit_and i 0xff) i)
        (sym k.same.same_ident) (refl, ok));
  lock = k.holds;
  disciplined = k.disciplined;
}

pub left :
    (w v : World) (ident : ℕ) → Under (record w { sc = identified ident w.sc }) v → Outcome true w v
left w v ident k = record {
  same_fdata = k.same.same_fdata;
  same_pending = k.same.same_pending;
  recognised = inl k.same.same_hw;
  lock = k.holds;
  disciplined = k.disciplined;
}

pub unlinked : (w : World) → held w.trace ≡ false → Disciplined w.trace → Outcome false w w
unlinked w free dis = record {
  same_fdata = refl;
  same_pending = refl;
  recognised = inl refl;
  lock = free;
  disciplined = dis;
}

-- An outcome does not depend on the accesses before it.
pub same_start :
    {w w' : World} (t : List Access)
    → Outcome false (record w { trace = t }) w'
    → Outcome false w w'
same_start t o = record {
  same_fdata = o.same_fdata;
  same_pending = o.same_pending;
  recognised = o.recognised;
  lock = o.lock;
  disciplined = o.disciplined;
}
