-- ===== src/Block/Report.antt =====
-- Which error sis1100_write_loop (sis3100/sis1100-2.13/src/sis1100_write_loop.c) reports.
use mdaq_midas.Common.{
  ℕ, zero, suc, ◌+◌, ◌%◌, ◌^◌, ◌≡◌, ◌≢◌, refl, ap, ◌∙◌, ◌⊎◌, inl, inr, Bool, true, false, not, ◌&&◌,
  ◌||◌, ◌==◌, if◌then◌else◌, Bool-cases, ==→eq, ==→ne, ne→==, List, [], ◌∷◌, Option, none, some,
}
use mdaq_midas.Bus.{
  Access, get, put, acquire, Device, World, log, value_at, e_dlock, p_balance, sr, sem_hw,
  Responsive, read_prot_error, read_prot_error-Settled, ◌>>=◌, ◌>>◌, pure, unlock, t_am,
}
use mdaq_midas.Bus.Spec.{Returns, held, Disciplined}
use mdaq_midas.Remote.{le_dlock, write_am}
use mdaq_midas.Block.Loop.{cell, next_addr}
use mdaq_midas.Block.Send.{
  fifo_len, open_block, send_cell, send_cells, wait_for_fifo, confirm, settle, le_to, max_rounds,
  send_block, write_loop,
}
use mdaq_midas.Block.Room.{Draining}
use mdaq_midas.Block.Errors.{
  follows_sr, code_of, add_error, troubles, IfReturns, IfReturns-then, Reports, Known, Known-add,
  IfReturns-weaken, IfReturns-both, wait_for_fifo-Reports, follows-polled, troubles-polled,
}
use mdaq_midas.Block.Written.{Written, write_loop-Written}

module _ (d : Device) (r : Responsive d) where
  read_prot_error-Reports :
      (w : World)
      → follows_sr w.trace ≡ false
      → IfReturns
          (λ e w'.
            (e ≢ e_dlock) × (troubles w'.trace ≡ add_error (code_of false e) (troubles w.trace)))
          (read_prot_error d w)
  read_prot_error-Reports w h =
      let s = read_prot_error-Settled d w r in
      rw s.returns (
        s.final,
        rw (follows-polled s.rounds w.trace h)
            (ap (add_error (code_of false s.code)) (troubles-polled s.rounds w.trace h)),
      )

  confirm-Reports :
      (e : ℕ) (es : List ℕ) (w : World)
      → e ≢ e_dlock
      → troubles w.trace ≡ add_error (code_of false e) es
      → IfReturns (λ e' w'. troubles w'.trace ≡ add_error e' es) (confirm e d w)
  unfolding confirm
  confirm-Reports e es w ne h = elim (Bool-cases (e == le_dlock)) [
    | inl z ↦ rw z (ap (add_error _) (h ∙ ap (λ x. add_error (code_of false x) es) (==→eq e _ z)))
    | inr z ↦ rw z (h ∙ ap (λ x. add_error x es) (same z))
  ]
    where
      same : (e == le_dlock) ≡ false → code_of false e ≡ e
      same z = rw (ne→== e e_dlock ne, z) refl

  end_of_round :
      (n balance first : ℕ) (u v : World)
      → ((v : World) → Known u first v → IfReturns (λ e w'. Known u e w') (settle n first d v))
      → Known u first v
      → IfReturns
          (λ e w'. Known u e w')
          (let more = settle n first d v in if balance == 0 then some (first, v) else more)
  end_of_round n balance first u v go k = elim (Bool-cases (balance == 0)) [
    | inl z ↦ rw z k
    | inr z ↦ rw z (go v k)
  ]

  settle-Known :
      (n first : ℕ) (u w : World)
      → Known u first w
      → IfReturns (λ e w'. Known u e w') (settle n first d w)
  unfolding settle
  settle-Known zero first u w k = k
  settle-Known (suc n) first u w k =
      let balance = value_at d w.trace p_balance in
      let w1 = log (get p_balance balance) w in
      IfReturns-then _ _ (read_prot_error d w1) _ (read_prot_error-Reports w1 refl) λ code w2 h2.
        IfReturns-then _ _ (confirm code d w2) _
          (confirm-Reports code (troubles w.trace) w2 h2.0 h2.1)
          λ e w3 h3.
            let first' : ℕ = if not (e == 0) && first == 0 then e else first in
            let k' : Known u first' w3 = Known-add u w w3 e first h3 k in
            elim (Bool-cases (e == le_to)) [
              | inl g ↦ rw g (
                  end_of_round n balance first' u (log (put p_balance 0) w3)
                    (settle-Known n first' u) k')
              | inr g ↦ rw g (end_of_round n balance first' u w3 (settle-Known n first' u) k')
            ]

-- A part in which no error is seen.
abbrev Silent : World → World → Type 0
Silent w w' = troubles w'.trace ≡ troubles w.trace

loaded-Silent : (size a v : ℕ) (t : List Access) → troubles (get (cell size a) v ∷ t) ≡ troubles t
loaded-Silent size a v t = elim (Bool-cases (size == 1)) [
  | inl e ↦ rw e refl
  | inr e ↦ elim (Bool-cases (size == 2)) [ inl f ↦ rw (e, f) refl | inr f ↦ rw (e, f) refl ]
]

send_cell-Silent :
    (size : ℕ) (fifo_mode : Bool) (head addr data_ : ℕ) (d : Device) (w : World)
    → IfReturns (λ _ w'. Silent w w') (send_cell size fifo_mode head addr data_ d w)
unfolding send_cell
send_cell-Silent size true head addr data_ d w = loaded-Silent size data_ _ w.trace
send_cell-Silent size false head addr data_ d w = elim (Bool-cases (size == 4)) [
  | inl e ↦ rw e (loaded-Silent size data_ _ w.trace)
  | inr e ↦ rw e (loaded-Silent size data_ _ w.trace)
]

open_block-Silent :
    (size : ℕ) (fifo_mode : Bool) (head addr : ℕ) (d : Device) (w : World)
    → IfReturns (λ _ w'. Silent w w') (open_block size fifo_mode head addr d w)
unfolding open_block
open_block-Silent size true head addr d w = elim (Bool-cases (size == 4)) [
  | inl e ↦ rw e refl
  | inr e ↦ rw e refl
]
open_block-Silent size false head addr d w = elim (Bool-cases (size == 4)) [
  | inl e ↦ rw e refl
  | inr e ↦ rw e refl
]

send_cells-Reports :
    (n size : ℕ) (fifo_mode : Bool) (head fifolen addr data_ cc : ℕ) (d : Device) (u w : World)
    → Silent u w
    → IfReturns
        (λ e w'. Reports u e w')
        (send_cells n size fifo_mode head fifolen addr data_ cc d w)
unfolding send_cells
send_cells-Reports zero size fifo_mode head fifolen addr data_ cc d u w h = h
send_cells-Reports (suc n) size fifo_mode head fifolen addr data_ cc d u w h =
    IfReturns-then _ _ (send_cell size fifo_mode head addr data_ d w) _
      (send_cell-Silent size fifo_mode head addr data_ d w)
      λ _ w1 h1.
        IfReturns-then _ _ (wait_for_fifo fifolen ((cc + 1) % 2 ^ 32) d w1) _
          (wait_for_fifo-Reports fifolen ((cc + 1) % 2 ^ 32) d w1)
          λ x w2 h2.
            let seen = h2 ∙ ap (add_error x.0) (h1 ∙ h) in
            elim (Bool-cases (x.0 == 0)) [
              | inr z ↦ rw z seen
              | inl z ↦ rw z (
                  send_cells-Reports n size fifo_mode head fifolen (next_addr fifo_mode size addr)
                    (data_ + size) x.1 d u w2
                    (seen ∙ ap (λ e. add_error e (troubles u.trace)) (==→eq x.0 0 z)))
            ]

Reports-Known : (u w : World) (e : ℕ) → Reports u e w → Known u e w
Reports-Known u w e h = elim (Bool-cases (e == 0)) [
  | inl z ↦
      ([], h ∙ ap (λ x. add_error x (troubles u.trace)) (==→eq e 0 z), inl (==→eq e 0 z, refl))
  | inr z ↦ (e ∷ [], h ∙ alone (ne→== e 0 (==→ne e 0 z)), inr (==→ne e 0 z, [], refl))
]
  where
    alone : (e == 0) ≡ false → add_error e (troubles u.trace) ≡ e ∷ troubles u.trace
    alone z = rw z refl

module _ (d : Device) (r : Responsive d) (size : ℕ) (fifo_mode : Bool) (addr data_ count : ℕ)
    (u : World) where
  send_block-Known :
      (head fifolen : ℕ) (w : World)
      → Silent u w
      → IfReturns
          (λ e w'. Known u e w')
          (send_block size fifo_mode head fifolen addr data_ count d w)
  unfolding send_block
  send_block-Known head fifolen w h = elim (Bool-cases (size == 1 || size == 2 || size == 4)) [
    | inr z ↦
        rw z (settle-Known d r max_rounds 0 u (log (put sr 0x8000) w) ([], h, inl (refl, refl)))
    | inl z ↦
        let v = log (put sr 0x8000) w in
        rw z (
          IfReturns-then (λ e w'. Known u e w') _
            ((open_block size fifo_mode head addr
                >> send_cells count size fifo_mode head fifolen addr data_ 0)
              d v)
            _
            (IfReturns-then _ _ (open_block size fifo_mode head addr d v) _
              (open_block-Silent size fifo_mode head addr d v)
              λ _ w1 h1.
                IfReturns-weaken _ _
                  (send_cells count size fifo_mode head fifolen addr data_ 0 d w1)
                  (send_cells-Reports count size fifo_mode head fifolen addr data_ 0 d u w1
                    (h1 ∙ h))
                  λ e w' k. Reports-Known u w' e k)
            λ first w2 k. settle-Known d r max_rounds first u w2 k)
  ]

  after_am-Known :
      (head fifolen : ℕ) (w : World)
      → Silent u w
      → IfReturns
          (λ (r : ℕ × ℕ) w'. Known u r.1 w')
          ((send_block size fifo_mode head fifolen addr data_ count >>= λ error.
              unlock sem_hw >> pure (if error == 0 then count else 0, error))
            d w)
  after_am-Known head fifolen w h =
      IfReturns-then _ _ (send_block size fifo_mode head fifolen addr data_ count d w) _
        (send_block-Known head fifolen w h) λ e w1 k. k

write_loop-Known :
    (addr : ℕ) (am : Option ℕ) (size space : ℕ) (fifo_mode : Bool) (count data_ : ℕ) (d : Device)
    (w : World)
    → Responsive d
    → IfReturns
        (λ (r : ℕ × ℕ) w'. Known w r.1 w')
        (write_loop addr am size space fifo_mode count data_ d w)
unfolding write_loop write_am
write_loop-Known addr none size space fifo_mode count data_ d w r =
    after_am-Known d r size fifo_mode addr data_ count w _ _ (log (acquire sem_hw) w) refl
write_loop-Known addr (some am) size space fifo_mode count data_ d w r =
    after_am-Known d r size fifo_mode addr data_ count w _ _
      (log (put t_am am) (log (acquire sem_hw) w)) refl

-- sis1100_write_loop, for words of 1, 2 or 4 bytes, on a responsive device that works off its FIFO,
-- with sem_hw free. It ends. It has sent k words, for some k up to `count`: it has loaded k words, in
-- order and without a gap from the start of the user's buffer, and the data on the link are these,
-- each spread over the lanes, in the same order; the cycles are at consecutive addresses, or there
-- is one cycle in FIFO mode. *prot_error is the first error that it has seen, in prot_error or in a
-- confirmation that it has read, and 0 if it has seen none; the two transient codes of prot_error are
-- errors only where the status register has announced one. If it is 0, k is the whole count and is
-- reported as written; if not, 0 is reported. It has changed no field of the softc, touched the link
-- only under sem_hw, and freed it.
pub write_loop-Sends :
    (addr : ℕ) (am : Option ℕ) (size space : ℕ) (fifo_mode : Bool) (count data_ : ℕ) (d : Device)
    (w : World)
    → Responsive d
    → Draining d (fifo_len am w.sc.sendfifo_size)
    → (size ≡ 1) ⊎ (size ≡ 2) ⊎ (size ≡ 4)
    → held w.trace ≡ false
    → Disciplined w.trace
    → Returns
        (λ r w'. Known w r.1 w' × Written count size fifo_mode addr data_ w r w')
        (write_loop addr am size space fifo_mode count data_ d w)
write_loop-Sends addr am size space fifo_mode count data_ d w r drain si free dis =
    IfReturns-both _ _ (write_loop addr am size space fifo_mode count data_ d w)
      (write_loop-Known addr am size space fifo_mode count data_ d w r)
      (write_loop-Written addr am size space fifo_mode count data_ d w r drain si free dis)
