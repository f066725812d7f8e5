-- ===== src/Remote/Cycle.antt =====
-- The wait for a confirmation, and what it means that a transaction has ended well.
use mdaq_midas.Common.{
  ℕ, ◌/◌, ◌^◌, bit_and, bit_or, ◌≡◌, ◌≢◌, sym, ap, ◌∙◌, inl, inr, arith, ◌==◌, true, false,
  Bool-cases, ==→ne, bit_at, bit_at-or, bit_at-le, ◌++◌, [], Option, none, some, List, ◌∷◌,
}
use mdaq_midas.Bus.{
  Access, Device, World, put, release, acquire, sem_hw, log, e_dlock, Responsive, t_hdr, t_am,
  raw_t_hdr, read_prot_error,
}
use mdaq_midas.Bus.Spec.{
  Returns, writes, held, locks, freed_once, Disciplined, Quiet, read_prot_error-Returns,
  Returns-bind, Returns-weaken, Quiet-refl, Quiet-trans, Quiet-get,
}
use mdaq_midas.Remote.Defs.{le_dlock, confirmation_error, resolve, await_confirmation}

-- A code that the caller can act on: neither of the two transient ones.
abbrev pub IsFinal : ℕ → Type 0
IsFinal e = (e ≢ e_dlock) × (e ≢ le_dlock)

-- An error confirmation is told from the transient codes by digit 9.
error_digit : (head : ℕ) → bit_at 9 (bit_or 0x200 (head / 2 ^ 24)) ≡ 1
unfolding bit_at
error_digit head = omega (arith, bit_at-or 9 0x200 (head / 2 ^ 24), bit_at-le 9 (head / 2 ^ 24))

pub digit_nine-IsFinal : (e : ℕ) → bit_at 9 e ≡ 1 → IsFinal e
unfolding bit_at
digit_nine-IsFinal e h = (
  λ p. absurd (omega (arith, h, ap (bit_at 9) p)),
  λ p. absurd (omega (arith, h, ap (bit_at 9) p)),
)

confirmation_error-IsFinal : (head : ℕ) → IsFinal (confirmation_error head)
unfolding confirmation_error
confirmation_error-IsFinal head = elim (Bool-cases (bit_and head 0x300 == 0x300)) [
  | inl e ↦ rw e (digit_nine-IsFinal _ (error_digit head))
  | inr e ↦ rw e (omega arith)
]

resolve-Returns :
    (error : ℕ) (d : Device) (w : World)
    → error ≢ e_dlock
    → Returns (λ e w'. IsFinal e × Quiet w w') (resolve error d w)
unfolding resolve
resolve-Returns error d w h = elim (Bool-cases (error == le_dlock)) [
  | inl e ↦ rw e (confirmation_error-IsFinal _, Quiet-get raw_t_hdr _ w)
  | inr e ↦ rw e ((h, ==→ne _ _ e), Quiet-refl w)
]

-- On a responsive device the wait for the confirmation ends with a final code, and only reads.
pub await-Returns :
    (d : Device) (w : World)
    → Responsive d
    → Returns (λ e w'. IsFinal e × Quiet w w') (await_confirmation d w)
unfolding await_confirmation
await-Returns d w r =
    Returns-bind (λ e w'. (e ≢ e_dlock) × Quiet w w') _ read_prot_error resolve d w
      (read_prot_error-Returns d w r)
      λ e w1 h.
        Returns-weaken (λ e' w2. IsFinal e' × Quiet w1 w2) _ (resolve e d w1)
          (resolve-Returns e d w1 h.0) λ e' w2 h'. (h'.0, Quiet-trans h.1 h'.1)

-- A transaction that has ended: `sent` are its writes, the newest first; sem_hw has been taken once
-- and freed, unless the caller holds it, and is as before.
pub record IsCycle (w : World) (sent : List Access) (e : ℕ) (w' : World) : Type 0 where
  pub final : IsFinal e
  pub same_sc : w'.sc ≡ w.sc
  pub sends : writes w'.trace ≡ sent ++ writes w.trace
  pub same_held : held w'.trace ≡ held w.trace
  pub locking : locks w'.trace ≡ freed_once (held w.trace) (locks w.trace)
  pub disciplined : Disciplined w'.trace

-- The address modifier and the header, as every transaction starts.
abbrev pub opening : Option ℕ → ℕ → List Access
opening none head = put t_hdr head ∷ []
opening (some am) head = put t_hdr head ∷ put t_am am ∷ []

-- From the world w0 in which everything is sent, over one w1 that has only seen reads.
pub close-IsCycle :
    {w w0 w1 : World} (sent : List Access) (e : ℕ)
    → w0.sc ≡ w.sc
    → writes w0.trace ≡ sent ++ writes w.trace
    → held w0.trace ≡ true
    → locks w0.trace ≡ acquire sem_hw ∷ locks w.trace
    → Disciplined w0.trace
    → held w.trace ≡ false
    → IsFinal e
    → Quiet w0 w1
    → IsCycle w sent e (log (release sem_hw) w1)
close-IsCycle sent e a b c l dis free f q = record {
  final = f;
  same_sc = q.same_sc ∙ a;
  sends = q.same_writes ∙ b;
  same_held = sym free;
  locking = rw free (ap (λ t. release sem_hw ∷ t) (q.same_locks ∙ l));
  disciplined = (q.same_held ∙ c, q.keeps c dis);
}

-- The same for a caller that holds sem_hw already and keeps it.
pub close_nested :
    {w w0 w1 : World} (sent : List Access) (e : ℕ)
    → w0.sc ≡ w.sc
    → writes w0.trace ≡ sent ++ writes w.trace
    → held w0.trace ≡ true
    → locks w0.trace ≡ locks w.trace
    → Disciplined w0.trace
    → held w.trace ≡ true
    → IsFinal e
    → Quiet w0 w1
    → IsCycle w sent e w1
close_nested sent e a b c l dis holds f q = record {
  final = f;
  same_sc = q.same_sc ∙ a;
  sends = q.same_writes ∙ b;
  same_held = q.same_held ∙ c ∙ sym holds;
  locking = rw holds (q.same_locks ∙ l);
  disciplined = q.keeps c dis;
}

-- The world after taking sem_hw and writing the opening.
abbrev pub opened : Option ℕ → ℕ → World → World
opened none head w = log (put t_hdr head) (log (acquire sem_hw) w)
opened (some am) head w = log (put t_hdr head) (log (put t_am am) (log (acquire sem_hw) w))
