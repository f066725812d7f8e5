-- ===== src/Block/Errors.antt =====
-- The errors that sis1100_write_loop (sis3100/sis1100-2.13/src/sis1100_write_loop.c) gets to see, as they
-- are read off the trace.
use mdaq_midas.Common.{
  ℕ, zero, suc, ◌/◌, ◌^◌, ◌≡◌, ◌≢◌, refl, ap, ◌∙◌, ◌⊎◌, inl, inr, Bool, true, false, not, ◌&&◌,
  ◌||◌, ◌==◌, if◌then◌else◌, bit_and, bit_or, Bool-cases, ==→ne, ne→==, List, [], ◌∷◌, ◌++◌, Option,
  none, some,
}
use mdaq_midas.Bus.{Access, get, reg, Device, World, value_at, e_dlock, polled, prot_error, sr}
use mdaq_midas.Bus.Spec.{Returns}
use mdaq_midas.Block.Send.{int_geb, wait_rounds, wait_for_fifo}

-- The last access has been a read of the status register.
abbrev pub follows_sr : List Access → Bool
follows_sr (get (reg n) v ∷ t) = n == 4
follows_sr _ = false

-- The error that a code of prot_error stands for: the two transient codes stand for none, but not
-- where the status register has announced an error.
abbrev pub code_of : Bool → ℕ → ℕ
code_of true v = v
code_of false v = if v == 0x005 || v == 0x105 then 0 else v

-- The error of a confirmation.
abbrev pub confirmation : ℕ → ℕ
confirmation head =
    if bit_and head 0x300 == 0x300 then bit_or (bit_and (head / 2 ^ 24) 0xff) 0x200 else 0

abbrev pub add_error : ℕ → List ℕ → List ℕ
add_error e es = if e == 0 then es else e ∷ es

-- The errors that prot_error and confirmations have reported, the newest first.
abbrev pub troubles : List Access → List ℕ
troubles [] = []
troubles (get (reg n) v ∷ t) =
    if n == 0xac
    then add_error (code_of (follows_sr t) v) (troubles t)
    else if n == 0x9c
    then add_error (confirmation v) (troubles t)
    else troubles t
troubles (_ ∷ t) = troubles t

-- e is the first of the errors es, of which the newest comes first, or 0 if there is none.
abbrev pub First : ℕ → List ℕ → Type 0
First e es = ((e ≡ 0) × (es ≡ [])) ⊎ ((e ≢ 0) × (l : List ℕ) × (es ≡ l ++ e ∷ []))

-- If the run ends, its result and final state satisfy P.
abbrev pub IfReturns : {A : Type 0} → (A → World → Type 0) → Option (A × World) → Type 0
IfReturns P none = Unit
IfReturns P (some (a, w)) = P a w

pub IfReturns-then :
    {A B : Type 0} (P : A → World → Type 0) (Q : B → World → Type 0) (out : Option (A × World))
    (f : A → World → Option (B × World))
    → IfReturns P out
    → ((a : A) (w : World) → P a w → IfReturns Q (f a w))
    → IfReturns Q (elim out [ none ↦ none | some (a, w) ↦ f a w ])
IfReturns-then P Q none f h k = tt
IfReturns-then P Q (some (a, w)) f h k = k a w h

pub IfReturns-weaken :
    {A : Type 0} (P Q : A → World → Type 0) (out : Option (A × World))
    → IfReturns P out
    → ((a : A) (w : World) → P a w → Q a w)
    → IfReturns Q out
IfReturns-weaken P Q none h k = tt
IfReturns-weaken P Q (some (a, w)) h k = k a w h

-- What a run that ends satisfies besides.
pub IfReturns-both :
    {A : Type 0} (P Q : A → World → Type 0) (out : Option (A × World))
    → IfReturns P out
    → Returns Q out
    → Returns (λ a w. P a w × Q a w) out
IfReturns-both P Q none p q = absurd q
IfReturns-both P Q (some (a, w)) p q = (p, q)

-- A part that ends with the error e, which is the only new one, or none if it is 0.
abbrev pub Reports : World → ℕ → World → Type 0
Reports w e w' = troubles w'.trace ≡ add_error e (troubles w.trace)

wait_rounds-Reports :
    (n fifolen cc : ℕ) (d : Device) (w : World)
    → IfReturns (λ r w'. Reports w r.0 w') (wait_rounds n fifolen cc d w)
unfolding wait_rounds
wait_rounds-Reports zero fifolen cc d w = tt
wait_rounds-Reports (suc n) fifolen cc d w = elim (Bool-cases (int_geb cc fifolen)) [
  | inr e ↦ rw e refl
  | inl e ↦ rw e (elim (Bool-cases (bit_and (value_at d w.trace sr) 0x4000 == 0)) [
    | inr f ↦ rw f refl
    | inl f ↦ rw f (wait_rounds-Reports n fifolen _ d _)
  ])
]

pub wait_for_fifo-Reports :
    (fifolen cc : ℕ) (d : Device) (w : World)
    → IfReturns (λ r w'. Reports w r.0 w') (wait_for_fifo fifolen cc d w)
unfolding wait_for_fifo
wait_for_fifo-Reports fifolen cc d w = wait_rounds-Reports d.patience fifolen cc d w

pub follows-polled :
    (k : ℕ) (t : List Access) → follows_sr t ≡ false → follows_sr (polled k t) ≡ false
follows-polled zero t h = h
follows-polled (suc k) t h = follows-polled k (get prot_error e_dlock ∷ t) refl

pub troubles-polled :
    (k : ℕ) (t : List Access) → follows_sr t ≡ false → troubles (polled k t) ≡ troubles t
troubles-polled zero t h = refl
troubles-polled (suc k) t h = troubles-polled k (get prot_error e_dlock ∷ t) refl ∙ rw h refl

-- Since u some errors have been reported, of which f is the first, or none, and f is 0.
abbrev pub Known : World → ℕ → World → Type 0
Known u f w = (es : List ℕ) × (troubles w.trace ≡ es ++ troubles u.trace) × First f es

First-add :
    (e f : ℕ) (es : List ℕ)
    → First f es
    → First (if not (e == 0) && f == 0 then e else f) (add_error e es)
First-add e f es h = elim (Bool-cases (e == 0)) [
  | inl z ↦ rw z h
  | inr z ↦ rw z (elim h [
    | inl (a, b) ↦ rw a (inr (==→ne e 0 z, [], ap (λ l. e ∷ l) b))
    | inr (a, l, b) ↦ rw (ne→== f 0 a) (inr (a, e ∷ l, ap (λ l. e ∷ l) b))
  ])
]

add_error-append : (e : ℕ) (es ts : List ℕ) → add_error e (es ++ ts) ≡ add_error e es ++ ts
add_error-append e es ts = elim (Bool-cases (e == 0)) [ inl z ↦ rw z refl | inr z ↦ rw z refl ]

pub Known-add :
    (u w w' : World) (e f : ℕ)
    → Reports w e w'
    → Known u f w
    → Known u (if not (e == 0) && f == 0 then e else f) w'
Known-add u w w' e f h (es, same, first) = (
  add_error e es,
  h ∙ ap (add_error e) same ∙ add_error-append e es (troubles u.trace),
  First-add e f es first,
)
