-- ===== src/Bus/Poll.antt =====
-- The busy wait `do { error=sis1100readreg(sc, prot_error); } while (error==sis1100_e_dlock);`
-- that ends every transaction on the optical link.
use mdaq_midas.Common.{
  ℕ, zero, suc, ◌<◌, ◌≡◌, ◌≢◌, refl, ◌∙◌, ◌==◌, Bool-cases, inl, inr, if◌then◌else◌, List, ◌∷◌,
  Option, none, some, arith, ==→eq, ==→ne, ne→==,
}
use mdaq_midas.Bus.Monad.{Access, get, Device, World, M, log, value_at}
use mdaq_midas.Bus.Regs.{prot_error}

abbrev pub e_dlock : ℕ
e_dlock = 0x005

pub poll : ℕ → M ℕ
poll zero d w = none
poll (suc n) d w =
    let error = value_at d w.trace prot_error in
    let w' = log (get prot_error error) w in
    let again = poll n d w' in if error == e_dlock then again else some (error, w')

pub read_prot_error : M ℕ
unfolding poll
read_prot_error d w = poll d.patience d w

-- What the loop leaves in the trace: k rounds that saw the transient code, and the last.
abbrev pub polled : ℕ → List Access → List Access
polled zero t = t
polled (suc k) t = polled k (get prot_error e_dlock ∷ t)

-- The device answers with another code after k rounds.
abbrev pub answers_after : Device → List Access → ℕ → ℕ
answers_after d t k = value_at d (polled k t) prot_error

-- Whatever was done before, a device that is responsive gives up the transient code in time.
abbrev pub Responsive : Device → Type 0
Responsive d = (t : List Access) → (k : ℕ) × (k < d.patience) × (answers_after d t k ≢ e_dlock)

-- The result of a loop that ended.
pub record Settled (d : Device) (w : World) (out : Option (ℕ × World)) : Type 0 where
  pub rounds : ℕ
  pub code : ℕ
  pub returns : out ≡ some (code, record w { trace = get prot_error code ∷ polled rounds w.trace })
  pub answered : code ≡ answers_after d w.trace rounds
  pub final : code ≢ e_dlock

poll-again :
    (n : ℕ) (d : Device) (w : World)
    → value_at d w.trace prot_error ≡ e_dlock
    → poll (suc n) d w ≡ poll n d (log (get prot_error e_dlock) w)
unfolding poll
poll-again n d w e = rw e

poll-done :
    (n : ℕ) (d : Device) (w : World)
    → value_at d w.trace prot_error ≢ e_dlock
    → poll (suc n) d w
      ≡ some (value_at d w.trace prot_error, log (get prot_error (value_at d w.trace prot_error)) w)
unfolding poll
poll-done n d w e = rw (ne→== _ _ e)

Settled-done :
    (n : ℕ) (d : Device) (w : World)
    → value_at d w.trace prot_error ≢ e_dlock
    → Settled d w (poll (suc n) d w)
Settled-done n d w e = record {
  rounds = 0;
  code = value_at d w.trace prot_error;
  returns = poll-done n d w e;
  answered = refl;
  final = e;
}

Settled-again :
    (n : ℕ) (d : Device) (w : World)
    → value_at d w.trace prot_error ≡ e_dlock
    → Settled d (log (get prot_error e_dlock) w) (poll n d (log (get prot_error e_dlock) w))
    → Settled d w (poll (suc n) d w)
Settled-again n d w e s = record {
  rounds = suc s.rounds;
  code = s.code;
  returns = poll-again n d w e ∙ s.returns;
  answered = s.answered;
  final = s.final;
}

-- A device that answers after k rounds ends the loop, if the loop follows more than k rounds.
poll-Settled :
    (n k : ℕ) (d : Device) (w : World)
    → k < n
    → answers_after d w.trace k ≢ e_dlock
    → Settled d w (poll n d w)
poll-Settled zero k d w lt h = absurd (omega arith)
poll-Settled (suc n) zero d w lt h = Settled-done n d w h
poll-Settled (suc n) (suc k) d w lt h =
    elim (Bool-cases (value_at d w.trace prot_error == e_dlock)) [
      | inl e ↦
          Settled-again n d w (==→eq _ _ e)
            (poll-Settled n k d (log (get prot_error e_dlock) w) (omega arith) h)
      | inr e ↦ Settled-done n d w (==→ne _ _ e)
    ]

-- On a responsive device the busy wait ends, with a code that is not the transient one.
pub read_prot_error-Settled :
    (d : Device) (w : World) → Responsive d → Settled d w (read_prot_error d w)
unfolding read_prot_error
read_prot_error-Settled d w r = let (k, lt, h) = r w.trace in poll-Settled d.patience k d w lt h
