-- ===== src/Setup/Signals.antt =====
-- Whom the thread of sis1100_irq_thread.c (sis3100/sis1100-2.13/src) informs.
use mdaq_midas.Common.{
  ℕ, zero, suc, ◌≡◌, refl, ap, ◌∙◌, bit_or, if◌then◌else◌, Bool-cases, inl, inr, false, true, List,
  [], sym, not, ◌&&◌, ◌||◌, ◌≢◌, ◌<◌, ◌≤◌, ◌⊎◌, ◌%◌, ◌/◌, ◌^◌, ◌==◌, ltb, bit_and, bit_at,
  bit_at-and, bit_at-le, bit_at-zero, arith, ==→eq, ==→ne, ne→==, true-ne-false, Bool, ◌∷◌, Option,
  none, some,
}
use mdaq_midas.Bus.{
  Access, acquire, release, kill, wake_remote, sem_irqinfo, sem_fdata, lock_command, Device, World,
  log, Responsive, ◌>>=◌, Fdata, HwType, hw_eq,
}
use mdaq_midas.Bus.Spec.{Returns, Returns-cases, Returns-weaken, held, Disciplined}
use mdaq_midas.Setup.Thread.{
  concerned, inform, add_pending, handle, irq_thread_pass, thread_round, irq_thread,
}
use mdaq_midas.Setup.Calm.{handle-Calm}

-- The process of a file is to be told: as an int its signal is positive, and one of the new IRQs is
-- its own, or the type of the other side is another than the one that it knew.
abbrev pub Concerned : ℕ → HwType → Fdata → Type 0
Concerned new_irqs hw fd =
    (0 < fd.sig)
    × (fd.sig < 2 ^ 31)
    × (((i : ℕ) × (bit_at i new_irqs ≡ 1) × (bit_at i fd.owned_irqs ≡ 1))
        ⊎ (hw_eq fd.old_remote_hw hw ≡ false))

-- The signals of a list of files are those of the concerned processes, in the order of the files.
abbrev pub Signals : ℕ → HwType → List (Option Fdata) → List Access → Type 0
Signals new_irqs hw [] l = l ≡ []
Signals new_irqs hw (none ∷ fds) l = Signals new_irqs hw fds l
Signals new_irqs hw (some fd ∷ fds) l =
    (Concerned new_irqs hw fd
      × (m : List Access) × (l ≡ kill fd.pid fd.sig ∷ m)
      × Signals new_irqs hw fds m)
    ⊎ (¬ (Concerned new_irqs hw fd) × Signals new_irqs hw fds l)

-- The signals that `inform` sends.
abbrev messages : ℕ → HwType → List (Option Fdata) → List Access
messages new_irqs hw [] = []
messages new_irqs hw (none ∷ l) = messages new_irqs hw l
messages new_irqs hw (some fd ∷ l) =
    if concerned new_irqs hw fd
    then kill fd.pid fd.sig ∷ messages new_irqs hw l
    else messages new_irqs hw l

either : (a b : Bool) → (a || b) ≡ true → (a ≡ true) ⊎ (b ≡ true)
either true b e = inl refl
either false b e = inr e

or-true : (a : Bool) → (a || true) ≡ true
or-true true = refl
or-true false = refl

both : (a b : Bool) → (a && b) ≡ true → (a ≡ true) × (b ≡ true)
both true b e = (refl, e)
both false b e = absurd (true-ne-false (sym e))

not-true : (b : Bool) → not b ≡ true → b ≡ false
not-true false e = refl
not-true true e = absurd (true-ne-false (sym e))

some_digit : (n a : ℕ) → a ≤ n → a ≢ 0 → (i : ℕ) × (bit_at i a ≡ 1)
unfolding bit_at
some_digit zero a le ne = absurd (omega (arith, ne))
some_digit (suc n) a le ne = elim (Bool-cases (a % 2 == 1)) [
  | inl e ↦ (0, ==→eq (a % 2) 1 e)
  | inr e ↦
      let (i, h) =
        some_digit n (a / 2) (omega (arith, ne)) (omega (arith, ne, ==→ne (a % 2) 1 e)) in
      (suc i, h)
]

shared_digit : (a b : ℕ) → bit_and a b ≢ 0 → (i : ℕ) × (bit_at i a ≡ 1) × (bit_at i b ≡ 1)
shared_digit a b ne =
    let (i, h) = some_digit (bit_and a b) (bit_and a b) (omega arith) ne in
    (
      i,
      omega (arith, h, bit_at-and i a b, bit_at-le i a, bit_at-le i b),
      omega (arith, h, bit_at-and i a b, bit_at-le i a, bit_at-le i b),
    )

shared-nonzero : (a b i : ℕ) → bit_at i a ≡ 1 → bit_at i b ≡ 1 → bit_and a b ≢ 0
shared-nonzero a b i p q e =
    absurd (omega (arith, bit_at-and i a b, ap (bit_at i) e, bit_at-zero i, p, q))

ltb→lt : (a b : ℕ) → ltb a b ≡ true → a < b
ltb→lt a b h = ground arith

lt→ltb : (a b : ℕ) → a < b → ltb a b ≡ true
lt→ltb a b h = ground arith

-- The test of the code is exact.
concerned-Concerned :
    (new_irqs : ℕ) (hw : HwType) (fd : Fdata)
    → concerned new_irqs hw fd ≡ true
    → Concerned new_irqs hw fd
concerned-Concerned new_irqs hw fd e =
    let shared = bit_and new_irqs fd.owned_irqs in
    let reason = not (shared == 0) || not (hw_eq fd.old_remote_hw hw) in
    let (e1, e') = both (ltb 0 fd.sig && ltb fd.sig (2 ^ 31)) reason e in
    let (a, b) = both (ltb 0 fd.sig) (ltb fd.sig (2 ^ 31)) e1 in
    let c = e' in
    (
      ltb→lt 0 fd.sig a,
      ltb→lt fd.sig (2 ^ 31) b,
      elim (either (not (shared == 0)) (not (hw_eq fd.old_remote_hw hw)) c) [
        | inl x ↦ inl (shared_digit new_irqs fd.owned_irqs (==→ne shared 0 (not-true _ x)))
        | inr y ↦ inr (not-true (hw_eq fd.old_remote_hw hw) y)
      ],
    )

Concerned-concerned :
    (new_irqs : ℕ) (hw : HwType) (fd : Fdata)
    → Concerned new_irqs hw fd
    → concerned new_irqs hw fd ≡ true
Concerned-concerned new_irqs hw fd (a, b, inl (i, p, q)) =
    rw
      (
        lt→ltb 0 fd.sig a,
        lt→ltb fd.sig (2 ^ 31) b,
        ne→== (bit_and new_irqs fd.owned_irqs) 0 (shared-nonzero new_irqs fd.owned_irqs i p q),
      )
      refl
Concerned-concerned new_irqs hw fd (a, b, inr h) =
    rw (lt→ltb 0 fd.sig a, lt→ltb fd.sig (2 ^ 31) b, h)
      (or-true (not (bit_and new_irqs fd.owned_irqs == 0)))

messages-Signals :
    (new_irqs : ℕ) (hw : HwType) (fds : List (Option Fdata))
    → Signals new_irqs hw fds (messages new_irqs hw fds)
messages-Signals new_irqs hw [] = refl
messages-Signals new_irqs hw (none ∷ fds) = messages-Signals new_irqs hw fds
messages-Signals new_irqs hw (some fd ∷ fds) = elim (Bool-cases (concerned new_irqs hw fd)) [
  | inl e ↦ rw e (
      inl (
        concerned-Concerned new_irqs hw fd e,
        messages new_irqs hw fds,
        refl,
        messages-Signals new_irqs hw fds,
      ))
  | inr e ↦ rw e (
      inr (
        (λ c. true-ne-false (sym (Concerned-concerned new_irqs hw fd c) ∙ e)),
        messages-Signals new_irqs hw fds,
      ))
]

-- A trace, after these accesses.
abbrev pub noted : List Access → List Access → List Access
noted [] t = t
noted (a ∷ l) t = noted l (a ∷ t)

inform-messages :
    (new_irqs : ℕ) (hw : HwType) (l : List (Option Fdata)) (d : Device) (w : World)
    → inform new_irqs hw l d w
      ≡ some (tt, record w { trace = noted (messages new_irqs hw l) w.trace })
unfolding inform
inform-messages new_irqs hw [] d w = refl
inform-messages new_irqs hw (none ∷ l) d w = inform-messages new_irqs hw l d w
inform-messages new_irqs hw (some fd ∷ l) d w = elim (Bool-cases (concerned new_irqs hw fd)) [
  | inl e ↦ rw e (inform-messages new_irqs hw l d (log (kill fd.pid fd.sig) w))
  | inr e ↦ rw e (inform-messages new_irqs hw l d w)
]

-- Signals take no lock and touch no register.
messages-Disciplined :
    (new_irqs : ℕ) (hw : HwType) (l : List (Option Fdata)) (t : List Access)
    → Disciplined t
    → (held (noted (messages new_irqs hw l) t) ≡ held t)
      × Disciplined (noted (messages new_irqs hw l) t)
messages-Disciplined new_irqs hw [] t dis = (refl, dis)
messages-Disciplined new_irqs hw (none ∷ l) t dis = messages-Disciplined new_irqs hw l t dis
messages-Disciplined new_irqs hw (some fd ∷ l) t dis =
    elim (Bool-cases (concerned new_irqs hw fd)) [
      | inl e ↦ rw e (messages-Disciplined new_irqs hw l (kill fd.pid fd.sig ∷ t) dis)
      | inr e ↦ rw e (messages-Disciplined new_irqs hw l t dis)
    ]

-- What one pass of the thread does.
pub record Pass (command : ℕ) (d : Device) (w w' : World) : Type 0 where
  pub new_irqs : ℕ
  pub handled : World
  pub reported : handle command d (log (acquire sem_irqinfo) w) ≡ some (new_irqs, handled)
  pub same_fdata : w'.sc.fdata ≡ w.sc.fdata
  pub pending : w'.sc.pending_irqs ≡ bit_or w.sc.pending_irqs new_irqs
  pub signals : List Access
  pub exactly : Signals new_irqs w'.sc.remote_hw w.sc.fdata signals
  pub informed :
      w'.trace
      ≡ wake_remote
        ∷ release sem_fdata
        ∷ noted signals (acquire sem_fdata ∷ release sem_irqinfo ∷ handled.trace)
  pub free : held w'.trace ≡ false
  pub disciplined : Disciplined w'.trace

pub irq_thread_pass-Pass :
    (d : Device) (r : Responsive d) (command : ℕ) (w : World)
    → held w.trace ≡ false
    → Disciplined w.trace
    → Returns (λ _ w'. Pass command d w w') (irq_thread_pass command d w)
unfolding irq_thread_pass
irq_thread_pass-Pass d r command w free dis =
    let (new_irqs, v, eq, k) =
      Returns-cases _ (handle command d (log (acquire sem_irqinfo) w))
        ((handle-Calm d r command).ends (log (acquire sem_irqinfo) w) free dis) in
    let t = acquire sem_fdata ∷ release sem_irqinfo ∷ v.trace in
    let s = add_pending new_irqs v.sc in
    let (same, safe) = messages-Disciplined new_irqs s.remote_hw s.fdata t k.disciplined in
    let told = inform-messages new_irqs s.remote_hw s.fdata d (record v { sc = s; trace = t }) in
    rw (eq, told, Returns)
      (record {
        new_irqs = new_irqs;
        handled = v;
        reported = eq;
        same_fdata = k.same_fdata;
        pending = ap (λ p. bit_or p new_irqs) k.same_pending;
        signals = messages new_irqs s.remote_hw w.sc.fdata;
        exactly = messages-Signals new_irqs s.remote_hw w.sc.fdata;
        informed =
            ap (λ l. wake_remote ∷ release sem_fdata ∷ noted (messages new_irqs s.remote_hw l) t)
              k.same_fdata;
        free = same ∙ k.free;
        disciplined = safe;
      })

-- The thread goes on from round to round.
pub irq_thread-returns :
    (d : Device) (r : Responsive d) (n : ℕ) (w : World)
    → held w.trace ≡ false
    → Disciplined w.trace
    → Returns
        (λ _ w'. (w'.sc.fdata ≡ w.sc.fdata) × (held w'.trace ≡ false) × Disciplined w'.trace)
        (irq_thread n d w)
unfolding irq_thread thread_round
irq_thread-returns d r zero w free dis = (refl, free, dis)
irq_thread-returns d r (suc n) w free dis =
    let u : World = record w {
      sc = record w.sc { command = 0 };
      trace = release lock_command ∷ acquire lock_command ∷ w.trace;
    } in
    let (x, v, eq, p) =
      Returns-cases _ (irq_thread_pass w.sc.command d u)
        (irq_thread_pass-Pass d r w.sc.command u free dis) in
    rw (eq, ◌>>=◌)
      (Returns-weaken _ _ (irq_thread n d v) (irq_thread-returns d r n v p.free p.disciplined)
        λ _ w' h. (h.0 ∙ p.same_fdata, h.1, h.2))
