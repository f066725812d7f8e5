-- ===== src/Irq/Keeps.antt =====
-- What it means that the interrupt routine sis1100_intr loses no event, and the rules by which that
-- is shown of its parts.
use mdaq_midas.Common.{
  ℕ, ◌≤◌, ◌≡◌, refl, Bool, true, false, ◌==◌, if◌then◌else◌, List, [], ◌∷◌, Option, none, some,
  arith, bit_and, bit_or, bit_at, bit_at-or,
}
use mdaq_midas.Bus.{
  Softc, Device, World, M, when, Port, plx, reg, get, put, acquire, release, Access, wake_local,
  wake_handler, start_link_timer, dma0_hook_call, sync_block, kill, wake_remote,
}
use mdaq_midas.Bus.Spec.{Returns-then, Returns}
use mdaq_midas.Irq.Intr.{irq_lemo_in_chg}

-- Every digit of a is a digit of b.
infix 40 ◌⊑◌
abbrev pub ◌⊑◌ : ℕ → ℕ → Type 0
a ⊑ b = (i : ℕ) → bit_at i a ≤ bit_at i b

pub ⊑-refl : (a : ℕ) → a ⊑ a
⊑-refl a i = omega arith

pub ⊑-trans : (a b c : ℕ) → a ⊑ b → b ⊑ c → a ⊑ c
⊑-trans a b c p q i = omega (arith, p i, q i)

pub ⊑-or_left : (a b : ℕ) → a ⊑ bit_or a b
⊑-or_left a b i = omega (arith, bit_at-or i a b)

pub ⊑-or_right : (a b : ℕ) → b ⊑ bit_or a b
⊑-or_right a b i = omega (arith, bit_at-or i a b)

-- Nothing that waits to be handled is forgotten.
pub record Grows (s s' : Softc) : Type 0 where
  pub doorbells : s.doorbell ⊑ s'.doorbell
  pub lemos : s.lemo_status ⊑ s'.lemo_status
  pub events : s.got_irqs ⊑ s'.got_irqs
  pub commands : s.command ⊑ s'.command

abbrev If : Bool → Type 0 → Type 0
If true A = A
If false A = Unit

-- What a write acknowledges stands in the softc: a doorbell in `doorbell`, a change at a LEMO input
-- in `lemo_status`.
abbrev pub Stored : Port → ℕ → Softc → Type 0
Stored (plx n) v sc = If (n == 0x64) (v ⊑ sc.doorbell)
Stored (reg n) v sc = If (n == 0x4) (bit_and v irq_lemo_in_chg ⊑ sc.lemo_status)
Stored p v sc = Unit

abbrev pub Recorded : List Access → Softc → Type 0
Recorded [] sc = Unit
Recorded (put p v ∷ t) sc = Stored p v sc × Recorded t sc
Recorded (_ ∷ t) sc = Recorded t sc

-- From one state to a later one nothing is lost.
pub record Keeps (w w' : World) : Type 0 where
  pub grows : Grows w.sc w'.sc
  pub recorded : Recorded w.trace w.sc → Recorded w'.trace w'.sc

pub Grows-refl : (s : Softc) → Grows s s
Grows-refl s = record {
  doorbells = ⊑-refl s.doorbell;
  lemos = ⊑-refl s.lemo_status;
  events = ⊑-refl s.got_irqs;
  commands = ⊑-refl s.command;
}

pub Grows-trans : {r s t : Softc} → Grows r s → Grows s t → Grows r t
Grows-trans a b = record {
  doorbells = ⊑-trans _ _ _ a.doorbells b.doorbells;
  lemos = ⊑-trans _ _ _ a.lemos b.lemos;
  events = ⊑-trans _ _ _ a.events b.events;
  commands = ⊑-trans _ _ _ a.commands b.commands;
}

pub Keeps-trans : {u v w : World} → Keeps u v → Keeps v w → Keeps u w
Keeps-trans a b = record {
  grows = Grows-trans a.grows b.grows;
  recorded = λ r. b.recorded (a.recorded r);
}

pub Keeps-refl : (w : World) → Keeps w w
Keeps-refl w = record { grows = Grows-refl w.sc; recorded = λ r. r }

If-map : (b : Bool) {A B : Type 0} → (A → B) → If b A → If b B
If-map true f a = f a
If-map false f a = tt

Stored-Grows : (p : Port) (v : ℕ) {s s' : Softc} → Grows s s' → Stored p v s → Stored p v s'
Stored-Grows (plx n) v g h = If-map (n == 0x64) (λ e. ⊑-trans _ _ _ e g.doorbells) h
Stored-Grows (reg n) v g h = If-map (n == 0x4) (λ e. ⊑-trans _ _ _ e g.lemos) h
Stored-Grows _ v g h = tt

pub Recorded-Grows : (t : List Access) {s s' : Softc} → Grows s s' → Recorded t s → Recorded t s'
Recorded-Grows [] g h = tt
Recorded-Grows (put p v ∷ t) g h = (Stored-Grows p v g h.0, Recorded-Grows t g h.1)
Recorded-Grows (get p v ∷ t) g h = Recorded-Grows t g h
Recorded-Grows (acquire l ∷ t) g h = Recorded-Grows t g h
Recorded-Grows (release l ∷ t) g h = Recorded-Grows t g h
Recorded-Grows (wake_local ∷ t) g h = Recorded-Grows t g h
Recorded-Grows (wake_handler ∷ t) g h = Recorded-Grows t g h
Recorded-Grows (start_link_timer ∷ t) g h = Recorded-Grows t g h
Recorded-Grows (dma0_hook_call ∷ t) g h = Recorded-Grows t g h
Recorded-Grows (sync_block b ∷ t) g h = Recorded-Grows t g h
Recorded-Grows (kill p s ∷ t) g h = Recorded-Grows t g h
Recorded-Grows (wake_remote ∷ t) g h = Recorded-Grows t g h

-- Both branches of a test.
pub if-Returns :
    {A : Type 0} (P : A → World → Type 0) (c : Bool) (m n : M A) (d : Device) (w : World)
    → (c ≡ true → Returns P (m d w))
    → (c ≡ false → Returns P (n d w))
    → Returns P ((if c then m else n) d w)
if-Returns P true m n d w t e = t refl
if-Returns P false m n d w t e = e refl

pub when-Returns :
    (P : Unit {0} → World → Type 0) (c : Bool) (m : M (Unit {0})) (d : Device) (w : World)
    → (c ≡ true → Returns P (m d w))
    → (c ≡ false → P tt w)
    → Returns P (when c m d w)
when-Returns P true m d w t e = t refl
when-Returns P false m d w t e = e refl

-- A sequence keeps what its parts keep; u is the state at the start of the whole.
pub Keeps-then :
    {A B : Type 0} (u : World) (out : Option (A × World)) (f : A → World → Option (B × World))
    (w : World)
    → Keeps u w
    → Returns (λ _ w'. Keeps w w') out
    → ((a : A) (w' : World) → Keeps u w' → Returns (λ _ w'. Keeps u w') (f a w'))
    → Returns (λ _ w'. Keeps u w') (elim out [ none ↦ none | some (a, w) ↦ f a w ])
Keeps-then u out f w k h g =
    Returns-then (λ _ w'. Keeps w w') (λ _ w'. Keeps u w') out f h
      λ a w' e. g a w' (Keeps-trans k e)
