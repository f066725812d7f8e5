-- ===== src/Block/Room.antt =====
-- The waits of sis1100_write_loop (sis3100/sis1100-2.13/src/sis1100_write_loop.c): for room in the
-- FIFO, and for the outstanding words.
use mdaq_midas.Common.{
  ℕ, zero, suc, ◌<◌, ◌≡◌, ◌≢◌, refl, sym, ◌∙◌, false, not, ◌&&◌, ◌==◌, bit_and, if◌then◌else◌,
  Bool-cases, inl, inr, List, ◌∷◌, arith, ne→==, some,
}
use mdaq_midas.Bus.{
  Access, get, put, Port, Device, World, log, value_at, sr, p_balance, prot_error, tc_hdr,
  Responsive, read_prot_error, ◌>>=◌,
}
use mdaq_midas.Bus.Spec.{Returns, Returns-cases, Returns-weaken}
use mdaq_midas.Block.Part.{Part, Part-get, Part-put, read_prot_error-Part}
use mdaq_midas.Block.Send.{int_geb, wait_rounds, wait_for_fifo, confirm, settle, le_to}
use mdaq_midas.Remote.{le_dlock}

-- The trace after one round of the wait, and after k of them.
abbrev pub waited_once : Device → List Access → List Access
waited_once d t =
    let t' = get sr (value_at d t sr) ∷ t in get p_balance (value_at d t' p_balance) ∷ t'

abbrev pub waited : Device → ℕ → List Access → List Access
waited d zero t = t
waited d (suc k) t = waited d k (waited_once d t)

-- The balance that round k reads.
abbrev pub balance_at : Device → List Access → ℕ
balance_at d t = value_at d (get sr (value_at d t sr) ∷ t) p_balance

-- Whatever was done before, the device works off its FIFO while it is asked for the balance.
abbrev pub Draining : Device → ℕ → Type 0
Draining d fifolen =
    (t : List Access)
    → (k : ℕ) × (suc k < d.patience) × (int_geb (balance_at d (waited d k t)) fifolen ≡ false)

-- The wait for room ends, and has only read.
module _ (d : Device) (fifolen : ℕ) {u : World} {l : List (Port × ℕ)} {ds xs : List ℕ} where
  room_at_once :
      (n cc : ℕ) (w : World)
      → 0 < n
      → int_geb cc fifolen ≡ false
      → Part u w l ds xs
      → Returns (λ _ w'. Part u w' l ds xs) (wait_rounds n fifolen cc d w)
  unfolding wait_rounds
  room_at_once zero cc w lt h p = absurd (omega arith)
  room_at_once (suc n) cc w lt h p = rw h p

  one_round :
      (n cc : ℕ) (w : World)
      → Part u w l ds xs
      → (Part u (record w { trace = waited_once d w.trace }) l ds xs
          → Returns
              (λ _ w'. Part u w' l ds xs)
              (wait_rounds n fifolen
                (balance_at d w.trace)
                d
                (record w { trace = waited_once d w.trace })))
      → Returns (λ _ w'. Part u w' l ds xs) (wait_rounds (suc n) fifolen cc d w)
  unfolding wait_rounds
  one_round n cc w p more = elim (Bool-cases (int_geb cc fifolen)) [
    | inr e ↦ rw e p
    | inl e ↦ rw e (elim (Bool-cases (bit_and (value_at d w.trace sr) 0x4000 == 0)) [
      | inl f ↦ rw f (more (Part-get p_balance _ refl (Part-get sr (value_at d w.trace sr) refl p)))
      | inr f ↦ rw f (Part-get prot_error _ refl (Part-get sr (value_at d w.trace sr) refl p))
    ])
  ]

  wait_rounds-Part :
      (n k cc : ℕ) (w : World)
      → suc k < n
      → int_geb (balance_at d (waited d k w.trace)) fifolen ≡ false
      → Part u w l ds xs
      → Returns (λ _ w'. Part u w' l ds xs) (wait_rounds n fifolen cc d w)
  wait_rounds-Part zero k cc w lt h p = absurd (omega arith)
  wait_rounds-Part (suc n) zero cc w lt h p = one_round n cc w p (
      room_at_once n (balance_at d w.trace) (record w { trace = waited_once d w.trace })
        (omega arith) h)
  wait_rounds-Part (suc n) (suc k) cc w lt h p = one_round n cc w p (
      wait_rounds-Part n k (balance_at d w.trace) (record w { trace = waited_once d w.trace })
        (omega arith) h)

  pub wait_for_fifo-Part :
      (cc : ℕ) (w : World)
      → Draining d fifolen
      → Part u w l ds xs
      → Returns (λ _ w'. Part u w' l ds xs) (wait_for_fifo fifolen cc d w)
  unfolding wait_for_fifo
  wait_for_fifo-Part cc w drain p =
      let (k, lt, h) = drain w.trace in wait_rounds-Part d.patience k cc w lt h p

-- The first error counts, and what has been done is as it was.
abbrev pub Kept : World → List (Port × ℕ) → List ℕ → List ℕ → ℕ → ℕ → World → Type 0
Kept u l ds xs first e w' = (first ≢ 0 → e ≡ first) × Part u w' l ds xs

first_error : (first e : ℕ) → first ≢ 0 → (if not (e == 0) && first == 0 then e else first) ≡ first
first_error first e ne = elim (Bool-cases (e == 0)) [
  | inl g ↦ rw g refl
  | inr g ↦ rw (g, ne→== first 0 ne) refl
]

-- The wait for the outstanding words ends, and reports the first error.
module _ (d : Device) (r : Responsive d) {u : World} {l : List (Port × ℕ)} {ds xs : List ℕ} where
  confirm-Part :
      (e : ℕ) (w : World) → Part u w l ds xs → Returns (λ _ w'. Part u w' l ds xs) (confirm e d w)
  unfolding confirm
  confirm-Part e w p = elim (Bool-cases (e == le_dlock)) [
    | inl g ↦ rw g (Part-get tc_hdr _ refl p)
    | inr g ↦ rw g p
  ]

  end_of_round :
      (n balance e first : ℕ) (v : World)
      → ((f : ℕ) (v : World) → Part u v l ds xs → Returns (Kept u l ds xs f) (settle n f d v))
      → Part u v l ds xs
      → Returns (Kept u l ds xs first) (
          let first' = if not (e == 0) && first == 0 then e else first in
          let more = settle n first' d v in if balance == 0 then some (first', v) else more)
  end_of_round n balance e first v go q =
      let first' : ℕ = if not (e == 0) && first == 0 then e else first in
      elim (Bool-cases (balance == 0)) [
        | inl z ↦ rw z (first_error first e, q)
        | inr z ↦ rw z (
            Returns-weaken _ _ (settle n first' d v) (go first' v q) λ x w' k. (
              (λ ne. k.0 (λ y. ne (sym (first_error first e ne) ∙ y)) ∙ first_error first e ne),
              k.1,
            ))
      ]

  pub settle-Kept :
      (n first : ℕ) (w : World)
      → Part u w l ds xs
      → Returns (Kept u l ds xs first) (settle n first d w)
  unfolding settle
  settle-Kept zero first w p = ((λ _. refl), p)
  settle-Kept (suc n) first w p =
      let balance = value_at d w.trace p_balance in
      let w1 = log (get p_balance balance) w in
      let (code, w2, eq, (ne, p2)) =
        Returns-cases _ (read_prot_error d w1)
          (read_prot_error-Part d w1 r (Part-get p_balance balance refl p)) in
      let (e, w3, eq3, p3) = Returns-cases _ (confirm code d w2) (confirm-Part code w2 p2) in
      rw (eq, ◌>>=◌)
        (rw (eq3, ◌>>=◌)
          (elim (Bool-cases (e == le_to)) [
            | inl g ↦ rw g (
                end_of_round n balance e first (log (put p_balance 0) w3) (settle-Kept n)
                  (Part-put 0xa8 0 refl refl p3))
            | inr g ↦ rw g (end_of_round n balance e first w3 (settle-Kept n) p3)
          ]))
