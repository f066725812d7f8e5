-- ===== src/Ddma/History.antt =====
-- In which order the blocks of demand DMA are delivered: sequences of interrupts, of calls of
-- sis1100_irq_get and of sis1100_ddma_mark, after a start
-- (sis3100/sis1100-2.13/src/sis1100_ddma_startstop.c, sis1100_irq_handler.c).
use mdaq_midas.Common.{
  ℕ, ◌^◌, ◌<◌, ◌≡◌, refl, sym, ap, ◌∙◌, Bool, true, false, not, leb, ◌==◌, if◌then◌else◌, [], ◌∷◌,
  ◌++◌, arith, Bool-cases, inl, inr, ◌⊎◌, ne→==, some,
}
use mathlib.Core.Path.{subst}
use mathlib.Core.List.{append_assoc, append-nil}
use mdaq_midas.Bus.{◌>>=◌, dma_running, Device, World, is_full, is_running, DemandDma}
use mdaq_midas.Bus.Spec.{Returns}
use mdaq_midas.Irq.{enable_irq, if_any, next_block, give, IrqGet, get_block}
use mdaq_midas.Ddma.Hook.{
  is_free, is_user, occupy, complete, block_ring, free_block, awaited, dma0_hook, ddma_mark,
}
use mdaq_midas.Ddma.Switch.{fresh_ring, ddma_start, is_set_up, foreign}
use mdaq_midas.Ddma.Ring.{Ring, Queue, next-lt}
use native.Mathlib.Nat.{le_trans}
use mdaq_midas.Ddma.Keeps.{
  blocked-Ring, started-Ring, oldest_full, taken-Ring, marked-Ring, restarted-Ring, fresh-Ring,
}

-- The world, the blocks that have been filled with the times of their interrupts, and what the user
-- has been told of them.
pub record Story : Type 0 where
  pub world : World
  pub filled : Queue
  pub taken : Queue

abbrev pub ring_of : World → DemandDma
ring_of w = w.sc.demand_dma

-- What a call of sis1100_irq_get tells the user.
abbrev pub told : IrqGet → Queue
told r = if r.vector == 0xffffffff then [] else (r.vector, r.irq_time) ∷ []

-- One event. The interrupt comes when the DMA has filled its block, and its hook runs without a
-- mark in between.
pub data Step (d : Device) (self : ℕ) (s : Story) : Story → Type 0 where
  interrupt :
      (time : ℕ) {w : World}
      → (ring_of s.world).is_blocked ≡ false
      → dma0_hook time d s.world ≡ some (tt, w)
      → Step d self s (record {
        world = w;
        filled = s.filled ++ ((ring_of s.world).writing_block, time) ∷ [];
        taken = s.taken;
      })
  get :
      (data_ : IrqGet) {r : IrqGet} {w : World}
      → get_block data_ d s.world ≡ some (r, w)
      → Step d self s (record { world = w; filled = s.filled; taken = s.taken ++ told r })
  mark :
      (n : ℕ) {res : ℕ} {w : World}
      → ddma_mark self n d s.world ≡ some (res, w)
      → Step d self s (record { world = w; filled = s.filled; taken = s.taken })

pub data Reach (d : Device) (self : ℕ) (w : World) : Story → Type 0 where
  start :
      {w' : World}
      → ddma_start self d w ≡ some (0, w')
      → Reach d self w (record { world = w'; filled = []; taken = [] })
  next : {s t : Story} → Reach d self w s → Step d self s t → Reach d self w t

-- What has been filled is what has been told, and then the blocks that are full.
abbrev pub InOrder : Story → Type 0
InOrder s = (q : Queue) × (s.filled ≡ s.taken ++ q) × Ring (ring_of s.world) q

abbrev hooked : ℕ → DemandDma → DemandDma
hooked t dma =
    let full = complete t dma in
    if is_free (full.block full.writing_block).status
    then occupy full.writing_block full
    else block_ring full

hook-Returns :
    (t : ℕ) (d : Device) (w : World)
    → Returns (λ _ w'. ring_of w' ≡ hooked t (ring_of w)) (dma0_hook t d w)
unfolding dma0_hook
hook-Returns t d w = elim (Bool-cases (is_free (full.block full.writing_block).status)) [
  | inl e ↦ rw e refl
  | inr e ↦ rw e refl
]
  where
    full : DemandDma
    full = complete t (ring_of w)

either-Ring :
    (b : Bool) {x y : DemandDma} {q : Queue}
    → (b ≡ true → Ring x q)
    → (b ≡ false → Ring y q)
    → Ring (if b then x else y) q
either-Ring true f g = f refl
either-Ring false f g = g refl

hooked-Ring :
    (t : ℕ) (dma : DemandDma) (q : Queue)
    → Ring dma q
    → dma.is_blocked ≡ false
    → Ring (hooked t dma) (q ++ (dma.writing_block, t) ∷ [])
hooked-Ring t dma q r run =
    let full = complete t dma in
    either-Ring (is_free (full.block full.writing_block).status) (started-Ring dma q t r run)
      (blocked-Ring dma q t r run)

interrupt-InOrder :
    (d : Device) (s : Story) (t : ℕ) (w : World)
    → (ring_of s.world).is_blocked ≡ false
    → dma0_hook t d s.world ≡ some (tt, w)
    → InOrder s
    → InOrder (record {
      world = w;
      filled = s.filled ++ ((ring_of s.world).writing_block, t) ∷ [];
      taken = s.taken;
    })
interrupt-InOrder d s t w run p (q, f, r) =
    let n = (ring_of s.world).writing_block in
    let e : ring_of w ≡ hooked t (ring_of s.world) = rw p at (hook-Returns t d s.world) in
    (
      q ++ (n, t) ∷ [],
      ap (λ l. l ++ (n, t) ∷ []) f ∙ append_assoc s.taken q ((n, t) ∷ []),
      subst (λ x. Ring x (q ++ (n, t) ∷ [])) (sym e) (hooked-Ring t (ring_of s.world) q r run),
    )

-- What a call of sis1100_irq_get does with the ring, and tells.
abbrev pub Taken : World → IrqGet → World → Type 0
Taken w r w' =
    let dma = ring_of w in
    let n = next_block dma in
    if is_full (dma.block n).status
    then (ring_of w' ≡ give n dma) × (r.vector ≡ n) × (r.irq_time ≡ (dma.block n).time)
    else (ring_of w' ≡ dma) × (r.vector ≡ 0xffffffff)

pub get-Returns :
    (data_ : IrqGet) (d : Device) (w : World) → Returns (Taken w) (get_block data_ d w)
unfolding get_block
get-Returns data_ d w =
    elim (Bool-cases (is_full ((ring_of w).block (next_block (ring_of w))).status)) [
      | inl e ↦ rw (e, Taken) (refl, refl, refl)
      | inr e ↦ rw (e, Taken) (refl, refl)
    ]

told_block :
    (r : IrqGet) (n t : ℕ) → r.vector ≡ n → r.irq_time ≡ t → n < 2 ^ 31 → told r ≡ (n, t) ∷ []
told_block r n t v e lt =
    rw (ne→== r.vector 0xffffffff (λ z. absurd (omega (arith, v, z, lt))), v, e) refl

take-InOrder :
    (s : Story) (r : IrqGet) (w : World) (n t : ℕ) (rest : Queue)
    → n < 2 ^ 31
    → (r.vector ≡ n) × (r.irq_time ≡ ((ring_of s.world).block n).time)
    → ring_of w ≡ give n (ring_of s.world)
    → s.filled ≡ s.taken ++ (n, t) ∷ rest
    → Ring (ring_of s.world) ((n, t) ∷ rest)
    → InOrder (record { world = w; filled = s.filled; taken = s.taken ++ told r })
take-InOrder s r w n t rest lt (v, e) same f ring = (
  rest,
  rw (told_block r n t v (e ∙ ring.ready.1) lt) (f ∙ sym (append_assoc s.taken ((n, t) ∷ []) rest)),
  subst (λ x. Ring x rest) (sym same) (taken-Ring (ring_of s.world) n t rest ring),
)

get-InOrder :
    (d : Device) (s : Story) (data_ r : IrqGet) (w : World)
    → get_block data_ d s.world ≡ some (r, w)
    → InOrder s
    → InOrder (record { world = w; filled = s.filled; taken = s.taken ++ told r })
get-InOrder d s data_ r w p (q, f, ring) =
    let dma = ring_of s.world in
    let n = next_block dma in
    let k : Taken s.world r w = rw p at (get-Returns data_ d s.world) in
    elim (Bool-cases (is_full (dma.block n).status)) [
      | inl e ↦
          let (t, rest, g) = oldest_full dma q ring e in
          let (same, vector, time) = rw e at k in
          take-InOrder s r w n t rest
            (le_trans (next-lt dma (omega (arith, ring.inside))) (omega (arith, ring.small)))
            (vector, time) same (rw g at f) (subst (λ l. Ring dma l) g ring)
      | inr e ↦
          let (same, vector) = rw e at k in
          (
            q,
            rw vector (f ∙ ap (λ l. l ++ q) (sym (append-nil s.taken))),
            subst (λ x. Ring x q) (sym same) ring,
          )
    ]

abbrev pub marked : ℕ → DemandDma → DemandDma
marked n dma = if awaited n dma then occupy n (free_block n dma) else free_block n dma

-- sis1100_ddma_mark changes nothing, or gives a block of the user's back.
abbrev pub Marked : ℕ → World → ℕ → World → Type 0
Marked n w res w' =
    let dma = ring_of w in
    (ring_of w' ≡ dma)
    ⊎ ((is_user (dma.block n).status ≡ true) × (n < dma.numblocks) × (ring_of w' ≡ marked n dma))

leb→lt : (a b : ℕ) → leb a b ≡ false → b < a
leb→lt a b h = ground arith

pub mark-Returns :
    (self n : ℕ) (d : Device) (w : World) → Returns (Marked n w) (ddma_mark self n d w)
unfolding ddma_mark
mark-Returns self n d w = elim (Bool-cases (not ((ring_of w).owner == self))) [
  | inl a ↦ rw a (inl refl)
  | inr a ↦ rw a (elim (Bool-cases (not (is_running (ring_of w).status))) [
    | inl b ↦ rw b (inl refl)
    | inr b ↦ rw b (elim (Bool-cases (leb (ring_of w).numblocks n)) [
      | inl c ↦ rw c (inl refl)
      | inr c ↦ rw c (elim (Bool-cases (is_user ((ring_of w).block n).status)) [
        | inr u ↦ rw (u, ◌>>=◌) (inl refl)
        | inl u ↦
            rw (u, ◌>>=◌)
              (elim (Bool-cases (awaited n (ring_of w))) [
                | inl v ↦ rw (v, ◌>>=◌) (inr (u, leb→lt (ring_of w).numblocks n c, rw v refl))
                | inr v ↦ rw (v, ◌>>=◌) (inr (u, leb→lt (ring_of w).numblocks n c, rw v refl))
              ])
      ])
    ])
  ])
]

marked-Ring_of :
    (n : ℕ) (dma : DemandDma) (q : Queue)
    → Ring dma q
    → is_user (dma.block n).status ≡ true
    → n < dma.numblocks
    → Ring (marked n dma) q
marked-Ring_of n dma q r u lt =
    either-Ring (awaited n dma) (restarted-Ring dma q n r u lt) (marked-Ring dma q n r u)

mark-InOrder :
    (d : Device) (self : ℕ) (s : Story) (n res : ℕ) (w : World)
    → ddma_mark self n d s.world ≡ some (res, w)
    → InOrder s
    → InOrder (record { world = w; filled = s.filled; taken = s.taken })
mark-InOrder d self s n res w p (q, f, r) =
    let k : Marked n s.world res w = rw p at (mark-Returns self n d s.world) in
    elim k [
      | inl same ↦ (q, f, subst (λ x. Ring x q) (sym same) r)
      | inr (u, lt, e) ↦
          (q, f, subst (λ x. Ring x q) (sym e) (marked-Ring_of n (ring_of s.world) q r u lt))
    ]

-- sis1100_ddma_start, where it returns 0.
abbrev Started : World → ℕ → World → Type 0
Started w res w' = res ≡ 0 → ring_of w' ≡ record (fresh_ring (ring_of w)) { status = dma_running }

start-Returns : (self : ℕ) (d : Device) (w : World) → Returns (Started w) (ddma_start self d w)
unfolding ddma_start enable_irq if_any
start-Returns self d w = elim (Bool-cases (foreign self (ring_of w))) [
  | inl a ↦ rw a (λ z. absurd (omega (arith, z)))
  | inr a ↦ rw a (elim (Bool-cases (is_running (ring_of w).status)) [
    | inl b ↦ rw b (λ z. absurd (omega (arith, z)))
    | inr b ↦ rw b (elim (Bool-cases (is_set_up (ring_of w).status)) [
      | inl c ↦ rw c (λ _. refl)
      | inr c ↦ rw c (λ z. absurd (omega (arith, z)))
    ])
  ])
]

running-Ring :
    (dma : DemandDma) (q : Queue) → Ring dma q → Ring (record dma { status = dma_running }) q
running-Ring dma q r = record {
  small = r.small;
  inside = r.inside;
  follows = r.follows;
  ready = r.ready;
  known = r.known;
  engine = r.engine;
  waiting = r.waiting;
  alone = r.alone;
}

Step-InOrder : {d : Device} {self : ℕ} {s t : Story} → Step d self s t → InOrder s → InOrder t
Step-InOrder {d} {self} {s} (interrupt time {w} run p) h = interrupt-InOrder d s time w run p h
Step-InOrder {d} {self} {s} (get data_ {r} {w} p) h = get-InOrder d s data_ r w p h
Step-InOrder {d} {self} {s} (mark n {res} {w} p) h = mark-InOrder d self s n res w p h

-- After a start with a ring of at least one block, in every sequence of interrupts, of calls of
-- sis1100_irq_get and of marks, valid or not, in which no mark comes between the two halves of an
-- interrupt's hook: the blocks that the user has been told of, with their times, are the first of
-- those that the DMA has filled, in the same order, each once, and the others are the blocks that
-- are full, which follow each other in the ring. The DMA runs into one block at most, which is the
-- writing block, and it does not run exactly when is_blocked is set.
pub Reach-InOrder :
    {d : Device} {self : ℕ} {w : World} {s : Story}
    → 0 < (ring_of w).numblocks
    → (ring_of w).numblocks < 2 ^ 31
    → Reach d self w s
    → InOrder s
Reach-InOrder {d} {self} {w} pos small (start {w'} p) =
    let e : Started w 0 w' = rw p at (start-Returns self d w) in
    (
      [],
      refl,
      subst (λ x. Ring x []) (sym (e refl))
          (running-Ring (fresh_ring (ring_of w)) [] (fresh-Ring (ring_of w) pos small)),
    )
Reach-InOrder pos small (next r st) = Step-InOrder st (Reach-InOrder pos small r)
