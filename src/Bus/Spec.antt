-- ===== src/Bus/Spec.antt =====
-- How results and traces are specified: total postconditions, the writes of a trace, and the rule
-- that the transaction registers of the link are touched only under sem_hw.
use mdaq_midas.Common.{
  ℕ, zero, suc, ◌≡◌, ◌≢◌, refl, ◌∙◌, Bool, true, false, ◌&&◌, ◌||◌, leb, List, [], ◌∷◌, Option,
  none, some,
}
use mdaq_midas.Bus.Monad.{
  Port, reg, raw, sem_hw, Access, get, put, acquire, release, Device, World, M, log, ◌>>=◌,
}
use mdaq_midas.Bus.Regs.{prot_error}
use mdaq_midas.Bus.Poll.{e_dlock, polled, Responsive, read_prot_error, read_prot_error-Settled}

-- The run ends, and its result and final state satisfy P.
abbrev pub Returns : {A : Type 0} → (A → World → Type 0) → Option (A × World) → Type 0
Returns P none = ⊥
Returns P (some (a, w)) = P a w

abbrev pub writes : List Access → List Access
writes [] = []
writes (put p v ∷ t) = put p v ∷ writes t
writes (_ ∷ t) = writes t

-- Whether sem_hw is held after a trace.
abbrev pub held : List Access → Bool
held [] = false
held (acquire sem_hw ∷ t) = true
held (release sem_hw ∷ t) = false
held (_ ∷ t) = held t

-- How sem_hw has been taken and released, the newest first.
abbrev pub locks : List Access → List Access
locks [] = []
locks (acquire sem_hw ∷ t) = acquire sem_hw ∷ locks t
locks (release sem_hw ∷ t) = release sem_hw ∷ locks t
locks (_ ∷ t) = locks t

-- The same after sem_hw has been taken once, unless it was held,
abbrev pub taken_once : Bool → List Access → List Access
taken_once true ls = ls
taken_once false ls = acquire sem_hw ∷ ls

-- and after it has been taken once and released, unless it was held.
abbrev pub freed_once : Bool → List Access → List Access
freed_once true ls = ls
freed_once false ls = release sem_hw ∷ acquire sem_hw ∷ ls

-- The registers of the link's transactions, and those of the other side.
abbrev pub is_link : Port → Bool
is_link (reg n) = leb 0x80 n && leb n 0xac || leb 0x800 n
is_link (raw n) = leb 0x80 n && leb n 0xac
is_link _ = false

abbrev pub Touches : Bool → Bool → Type 0
Touches true h = h ≡ true
Touches false h = Unit

-- Such a register is touched only while sem_hw is held; sem_hw is not taken twice, and is released
-- only by its holder.
abbrev pub Disciplined : List Access → Type 0
Disciplined [] = Unit
Disciplined (get p v ∷ t) = Touches (is_link p) (held t) × Disciplined t
Disciplined (put p v ∷ t) = Touches (is_link p) (held t) × Disciplined t
Disciplined (acquire sem_hw ∷ t) = (held t ≡ false) × Disciplined t
Disciplined (release sem_hw ∷ t) = (held t ≡ true) × Disciplined t
Disciplined (_ ∷ t) = Disciplined t

-- Nothing has been written, no lock taken or released, nothing touched that must not be.
pub record Quiet (w w' : World) : Type 0 where
  pub same_sc : w'.sc ≡ w.sc
  pub same_writes : writes w'.trace ≡ writes w.trace
  pub same_held : held w'.trace ≡ held w.trace
  pub same_locks : locks w'.trace ≡ locks w.trace
  pub keeps : held w.trace ≡ true → Disciplined w.trace → Disciplined w'.trace

pub writes-polled : (k : ℕ) (t : List Access) → writes (polled k t) ≡ writes t
writes-polled zero t = refl
writes-polled (suc k) t = writes-polled k (get prot_error e_dlock ∷ t)

pub held-polled : (k : ℕ) (t : List Access) → held (polled k t) ≡ held t
held-polled zero t = refl
held-polled (suc k) t = held-polled k (get prot_error e_dlock ∷ t)

pub locks-polled : (k : ℕ) (t : List Access) → locks (polled k t) ≡ locks t
locks-polled zero t = refl
locks-polled (suc k) t = locks-polled k (get prot_error e_dlock ∷ t)

pub polled-Disciplined :
    (k : ℕ) (t : List Access) → held t ≡ true → Disciplined t → Disciplined (polled k t)
polled-Disciplined zero t h c = c
polled-Disciplined (suc k) t h c = polled-Disciplined k (get prot_error e_dlock ∷ t) h (h, c)

-- The busy wait on a responsive device: it ends, with a code that is not transient, and has only
-- read.
pub read_prot_error-Returns :
    (d : Device) (w : World)
    → Responsive d
    → Returns (λ e w'. (e ≢ e_dlock) × Quiet w w') (read_prot_error d w)
read_prot_error-Returns d w r =
    let s = read_prot_error-Settled d w r in
    rw s.returns (
      s.final,
      record {
        same_sc = refl;
        same_writes = writes-polled s.rounds w.trace;
        same_held = held-polled s.rounds w.trace;
        same_locks = locks-polled s.rounds w.trace;
        keeps = λ h c. (held-polled s.rounds w.trace ∙ h, polled-Disciplined s.rounds w.trace h c);
      },
    )

-- To go on from a run whose postcondition is known: its result, its state, and what holds of them.
pub Returns-cases :
    {A : Type 0} (P : A → World → Type 0) (out : Option (A × World))
    → Returns P out
    → (a : A) × (w : World) × (out ≡ some (a, w)) × P a w
Returns-cases P none h = absurd h
Returns-cases P (some (a, w)) h = (a, w, refl, h)

bind_cases :
    {A B : Type 0} (P : A → World → Type 0) (Q : B → World → Type 0) (f : A → M B) (d : Device)
    (out : Option (A × World))
    → Returns P out
    → ((a : A) (w : World) → P a w → Returns Q (f a d w))
    → Returns Q (elim out [ none ↦ none | some (a, w) ↦ f a d w ])
bind_cases P Q f d none h k = absurd h
bind_cases P Q f d (some (a, w)) h k = k a w h

-- A sequence returns when its first part does, and its second from each state in which that ends.
pub Returns-bind :
    {A B : Type 0} (P : A → World → Type 0) (Q : B → World → Type 0) (m : M A) (f : A → M B)
    (d : Device) (w : World)
    → Returns P (m d w)
    → ((a : A) (w' : World) → P a w' → Returns Q (f a d w'))
    → Returns Q ((m >>= f) d w)
Returns-bind P Q m f d w h k = bind_cases P Q f d (m d w) h k

-- Returns-bind, for what is left of a sequence when its first part has been run.
pub Returns-then :
    {A B : Type 0} (P : A → World → Type 0) (Q : B → World → Type 0) (out : Option (A × World))
    (f : A → World → Option (B × World))
    → Returns P out
    → ((a : A) (w : World) → P a w → Returns Q (f a w))
    → Returns Q (elim out [ none ↦ none | some (a, w) ↦ f a w ])
Returns-then P Q none f h k = absurd h
Returns-then P Q (some (a, w)) f h k = k a w h

pub Returns-weaken :
    {A : Type 0} (P Q : A → World → Type 0) (out : Option (A × World))
    → Returns P out
    → ((a : A) (w : World) → P a w → Q a w)
    → Returns Q out
Returns-weaken P Q none h k = absurd h
Returns-weaken P Q (some (a, w)) h k = k a w h

-- Two postconditions of one run.
pub Returns-both :
    {A : Type 0} (P Q : A → World → Type 0) (out : Option (A × World))
    → Returns P out
    → Returns Q out
    → Returns (λ a w. P a w × Q a w) out
Returns-both P Q none p q = p
Returns-both P Q (some (a, w)) p q = (p, q)

pub Touches-held : (b : Bool) {h : Bool} → h ≡ true → Touches b h
Touches-held true e = e
Touches-held false e = tt

pub Quiet-refl : (w : World) → Quiet w w
Quiet-refl w = record {
  same_sc = refl;
  same_writes = refl;
  same_held = refl;
  same_locks = refl;
  keeps = λ h c. c;
}

pub Quiet-trans : {u v w : World} → Quiet u v → Quiet v w → Quiet u w
Quiet-trans a b = record {
  same_sc = b.same_sc ∙ a.same_sc;
  same_writes = b.same_writes ∙ a.same_writes;
  same_held = b.same_held ∙ a.same_held;
  same_locks = b.same_locks ∙ a.same_locks;
  keeps = λ h c. b.keeps (a.same_held ∙ h) (a.keeps h c);
}

-- A read changes nothing.
pub Quiet-get : (p : Port) (v : ℕ) (w : World) → Quiet w (log (get p v) w)
Quiet-get p v w = record {
  same_sc = refl;
  same_writes = refl;
  same_held = refl;
  same_locks = refl;
  keeps = λ h c. (Touches-held (is_link p) h, c);
}
