-- ===== src/Block/Written.antt =====
-- What sis1100_write_loop (sis3100/sis1100-2.13/src/sis1100_write_loop.c) as a whole sends and returns.
use mdaq_midas.Common.{
  ℕ, zero, suc, ◌+◌, ◌%◌, ◌^◌, ◌≤◌, ◌≡◌, ◌≢◌, refl, sym, ap, ◌∙◌, ◌==◌, ◌||◌, Bool, true, false,
  if◌then◌else◌, Bool-cases, inl, inr, ◌⊎◌, List, [], ◌∷◌, ◌++◌, Option, none, some, arith, ==→eq,
  ==→ne, eq→==, ne→==,
}
use mathlib.Core.Path.{subst}
use mdaq_midas.Bus.{
  Port, put, acquire, Device, World, log, Responsive, t_am, sr, sem_hw, ◌>>=◌, ◌>>◌, pure, unlock,
}
use mdaq_midas.Bus.Spec.{Returns, Returns-cases, held, Disciplined}
use mdaq_midas.Remote.{write_am}
use mdaq_midas.Block.Loop.{cell, next_addr}
use mdaq_midas.Block.Send.{
  fifo_len, widen, open_block, send_cell, send_cells, wait_for_fifo, settle, max_rounds, send_block,
  write_loop,
}
use mdaq_midas.Block.Round.{filled, cycles}
use mdaq_midas.Block.Part.{Part, Part-after, Part-refl, Part-trans, Part-put, loads, sent}
use mdaq_midas.Block.Room.{Draining, wait_for_fifo-Part, settle-Kept}
use mdaq_midas.Block.Sent.{
  ports, due, ports-append, due-append, cycled, CellSent, send_cell-Sent, put_address,
}

-- k of n words have been sent, all of them exactly if the error is 0.
abbrev pub CellsSent : ℕ → ℕ → Bool → ℕ → ℕ → World → ℕ → World → Type 0
CellsSent n size fifo_mode addr data_ w e w' =
    (k : ℕ) × (l : List (Port × ℕ)) × (k ≤ n)
    × (e ≡ 0 → k ≡ n)
    × (ports l ≡ filled size data_ k)
    × Part w w' l (due size l) (cycled fifo_mode size addr k)

cycled-suc :
    (fifo_mode : Bool) (size addr k : ℕ)
    → cycled fifo_mode size (next_addr fifo_mode size addr) k ++ cycled fifo_mode size addr 1
      ≡ cycled fifo_mode size addr (suc k)
cycled-suc true size addr k = refl
cycled-suc false size addr k = refl

-- The first word, and then k others.
CellsSent-suc :
    (n size : ℕ) (fifo_mode : Bool) (addr data_ e : ℕ) (u w w' : World)
    → CellSent size fifo_mode addr data_ u w
    → CellsSent n size fifo_mode (next_addr fifo_mode size addr) (data_ + size) w e w'
    → CellsSent (suc n) size fifo_mode addr data_ u e w'
CellsSent-suc n size fifo_mode addr data_ e u w w' (v, p) (k, l, le, full, cells, q) =
    let l' : List (Port × ℕ) = l ++ (cell size data_, v) ∷ [] in
    (
      suc k,
      l',
      omega (arith, le),
      (λ z. omega (arith, full z)),
      ports-append l ((cell size data_, v) ∷ []) ∙ ap (λ r. r ++ cell size data_ ∷ []) cells,
      subst (λ xs. Part u w' l' (due size l') xs) (cycled-suc fifo_mode size addr k)
          (subst
            (λ ds. Part u w' l' ds (
              cycled fifo_mode size (next_addr fifo_mode size addr) k
              ++ cycled fifo_mode size addr 1))
            (sym (due-append size l ((cell size data_, v) ∷ [])))
            (Part-trans ((cell size data_, v) ∷ []) l (widen size v ∷ []) (due size l)
              (cycled fifo_mode size addr 1)
              (cycled fifo_mode size (next_addr fifo_mode size addr) k) p q)),
    )

send_cells-Sent :
    (n size : ℕ) (fifo_mode : Bool) (head fifolen addr data_ cc : ℕ) (d : Device) (w : World)
    → Draining d fifolen
    → held w.trace ≡ true
    → Disciplined w.trace
    → Returns
        (CellsSent n size fifo_mode addr data_ w)
        (send_cells n size fifo_mode head fifolen addr data_ cc d w)
unfolding send_cells
send_cells-Sent zero size true head fifolen addr data_ cc d w drain h dis =
    (0, [], omega arith, (λ _. refl), refl, Part-refl w h dis)
send_cells-Sent zero size false head fifolen addr data_ cc d w drain h dis =
    (0, [], omega arith, (λ _. refl), refl, Part-refl w h dis)
send_cells-Sent (suc n) size fifo_mode head fifolen addr data_ cc d w drain h dis =
    let (x, w1, eq1, (v, p1)) =
      Returns-cases _ (send_cell size fifo_mode head addr data_ d w)
        (send_cell-Sent size fifo_mode head addr data_ d w h dis) in
    let (r, w2, eq2, p2) =
      Returns-cases _ (wait_for_fifo fifolen ((cc + 1) % 2 ^ 32) d w1)
        (wait_for_fifo-Part d fifolen ((cc + 1) % 2 ^ 32) w1 drain p1) in
    rw (eq1, ◌>>=◌)
      (rw (eq2, ◌>>=◌)
        (elim (Bool-cases (r.0 == 0)) [
          | inl z ↦
              let (e, w3, eq3, k) =
                Returns-cases _
                  (send_cells n size fifo_mode head fifolen (next_addr fifo_mode size addr)
                    (data_ + size) r.1 d w2)
                  (send_cells-Sent n size fifo_mode head fifolen (next_addr fifo_mode size addr)
                    (data_ + size) r.1 d w2 drain p2.holds p2.disciplined) in
              rw (z, eq3, Returns) (CellsSent-suc n size fifo_mode addr data_ e w w2 w3 (v, p2) k)
          | inr z ↦
              rw z (
                1,
                (cell size data_, v) ∷ [],
                omega arith,
                (λ y. absurd (==→ne r.0 0 z y)),
                refl,
                p2,
              )
        ]))

-- The one cycle of FIFO mode.
abbrev opened : Bool → ℕ → List ℕ
opened fifo_mode addr = if fifo_mode then addr ∷ [] else []

open_block-Part :
    (size : ℕ) (fifo_mode : Bool) (head addr : ℕ) (d : Device) (u w : World)
    → Part u w [] [] []
    → Returns
        (λ _ w'. Part u w' [] [] (opened fifo_mode addr))
        (open_block size fifo_mode head addr d w)
unfolding open_block
open_block-Part size true head addr d u w p = elim (Bool-cases (size == 4)) [
  | inl e ↦ rw e (put_address addr (Part-put 0x80 _ refl refl p))
  | inr e ↦ rw e (put_address addr (Part-put 0x80 _ refl refl p))
]
open_block-Part size false head addr d u w p = elim (Bool-cases (size == 4)) [
  | inl e ↦ rw e (Part-put 0x80 _ refl refl p)
  | inr e ↦ rw e p
]

is_word :
    (size : ℕ) → (size ≡ 1) ⊎ (size ≡ 2) ⊎ (size ≡ 4) → (size == 1 || size == 2 || size == 4) ≡ true
is_word size (inl e) = rw e refl
is_word size (inr (inl e)) = rw e refl
is_word size (inr (inr e)) = rw e refl

-- k of `count` words have been sent before the wait for the outstanding ones.
abbrev BlockSent : ℕ → ℕ → Bool → ℕ → ℕ → World → ℕ → World → Type 0
BlockSent count size fifo_mode addr data_ w e w' =
    (k : ℕ) × (l : List (Port × ℕ)) × (k ≤ count)
    × (e ≡ 0 → k ≡ count)
    × (ports l ≡ filled size data_ k)
    × Part w w' l (due size l) (cycled fifo_mode size addr k ++ opened fifo_mode addr)

-- An error of the words is not lost.
settled_full :
    (first e k count : ℕ) → (first ≡ 0 → k ≡ count) → (first ≢ 0 → e ≡ first) → e ≡ 0 → k ≡ count
settled_full first e k count full kept z = elim (Bool-cases (first == 0)) [
  | inl f ↦ full (==→eq first 0 f)
  | inr f ↦ absurd (==→ne first 0 f (sym (kept (==→ne first 0 f)) ∙ z))
]

send_block-Sent :
    (size : ℕ) (fifo_mode : Bool) (head fifolen addr data_ count : ℕ) (d : Device) (u w : World)
    → Responsive d
    → Draining d fifolen
    → (size ≡ 1) ⊎ (size ≡ 2) ⊎ (size ≡ 4)
    → Part u w [] [] []
    → Returns
        (BlockSent count size fifo_mode addr data_ u)
        (send_block size fifo_mode head fifolen addr data_ count d w)
unfolding send_block
send_block-Sent size fifo_mode head fifolen addr data_ count d u w r drain si p =
    let v = log (put sr 0x8000) w in
    let (x, w1, eq1, p1) =
      Returns-cases _ (open_block size fifo_mode head addr d v)
        (open_block-Part size fifo_mode head addr d u v (Part-put 4 0x8000 refl refl p)) in
    let (first, w2, eq2, (k, l, le, full, cells, p2)) =
      Returns-cases _ (send_cells count size fifo_mode head fifolen addr data_ 0 d w1) (
        send_cells-Sent count size fifo_mode head fifolen addr data_ 0 d w1 drain p1.holds
          p1.disciplined) in
    let whole : Part u w2 l (due size l) (cycled fifo_mode size addr k ++ opened fifo_mode addr) =
      Part-after l (due size l) (opened fifo_mode addr) (cycled fifo_mode size addr k) p1 p2 in
    let (e, w3, eq3, (kept, p3)) =
      Returns-cases _ (settle max_rounds first d w2) (settle-Kept d r max_rounds first w2 whole) in
    rw (is_word size si) (
      rw (eq1, ◌>>=◌)
        (rw (eq2, ◌>>=◌)
          (rw (eq3, Returns) (k, l, le, settled_full first e k count full kept, cells, p3))))

-- What a whole transfer promises.
abbrev pub Written : ℕ → ℕ → Bool → ℕ → ℕ → World → ℕ × ℕ → World → Type 0
Written count size fifo_mode addr data_ w r w' =
    (k : ℕ) × (l : List (Port × ℕ)) × (k ≤ count)
    × (r.1 ≡ 0 → (k ≡ count) × (r.0 ≡ count))
    × (r.1 ≢ 0 → r.0 ≡ 0)
    × (ports l ≡ filled size data_ k)
    × (loads w'.trace ≡ l ++ loads w.trace)
    × (sent w'.trace ≡ due size l ++ sent w.trace)
    × (cycles w'.trace
        ≡ (cycled fifo_mode size addr k ++ (if fifo_mode then addr ∷ [] else [])) ++ cycles w.trace)
    × (w'.sc ≡ w.sc)
    × (held w'.trace ≡ false)
    × Disciplined w'.trace

reported :
    (count e k : ℕ)
    → (e ≡ 0 → k ≡ count)
    → e ≡ 0
    → (k ≡ count) × ((if e == 0 then count else 0) ≡ count)
reported count e k full z = (full z, rw (eq→== e 0 z) refl)

unreported : (count e : ℕ) → e ≢ 0 → (if e == 0 then count else 0) ≡ 0
unreported count e ne = rw (ne→== e 0 ne) refl

module _ (addr size : ℕ) (fifo_mode : Bool) (count data_ : ℕ) (d : Device) (r : Responsive d)
    (si : (size ≡ 1) ⊎ (size ≡ 2) ⊎ (size ≡ 4)) (w : World) where
  after_am :
      (head fifolen : ℕ) (v : World)
      → Draining d fifolen
      → Part w v [] [] []
      → Returns (Written count size fifo_mode addr data_ w) (
          (send_block size fifo_mode head fifolen addr data_ count >>= λ error.
          unlock sem_hw >> pure (if error == 0 then count else 0, error))
            d v)
  after_am head fifolen v drain p =
      let (e, w2, eq, (k, l, le, full, cells, q)) =
        Returns-cases _ (send_block size fifo_mode head fifolen addr data_ count d v)
          (send_block-Sent size fifo_mode head fifolen addr data_ count d w v r drain si p) in
      rw (eq, Returns)
        (
          k,
          l,
          le,
          reported count e k full,
          unreported count e,
          cells,
          q.loaded,
          q.passed,
          q.asked,
          q.same_sc,
          refl,
          (q.holds, q.disciplined),
        )

-- The whole function, apart from which error it reports.
pub write_loop-Written :
    (addr : ℕ) (am : Option ℕ) (size space : ℕ) (fifo_mode : Bool) (count data_ : ℕ) (d : Device)
    (w : World)
    → Responsive d
    → Draining d (fifo_len am w.sc.sendfifo_size)
    → (size ≡ 1) ⊎ (size ≡ 2) ⊎ (size ≡ 4)
    → held w.trace ≡ false
    → Disciplined w.trace
    → Returns
        (Written count size fifo_mode addr data_ w)
        (write_loop addr am size space fifo_mode count data_ d w)
unfolding write_loop write_am
write_loop-Written addr none size space fifo_mode count data_ d w r drain si free dis =
    after_am addr size fifo_mode count data_ d r si w _ _ (log (acquire sem_hw) w) drain (record {
      same_sc = refl;
      holds = refl;
      disciplined = (free, dis);
      loaded = refl;
      passed = refl;
      asked = refl;
    })
write_loop-Written addr (some am) size space fifo_mode count data_ d w r drain si free dis =
    after_am addr size fifo_mode count data_ d r si w _ _
      (log (put t_am am) (log (acquire sem_hw) w)) drain
      (record {
        same_sc = refl;
        holds = refl;
        disciplined = (refl, (free, dis));
        loaded = refl;
        passed = refl;
        asked = refl;
      })
