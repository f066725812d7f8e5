-- ===== src/Ddma/Ring.antt =====
-- The invariant of the ring of blocks, and how the changes of the state in
-- sis3100/sis1100-2.13/src/sis1100_ddma_startstop.c and in sis1100_irq_get keep it.
use mdaq_midas.Common.{
  true-ne-false, ℕ, ◌^◌, ◌<◌, ◌≡◌, refl, sym, Bool, true, false, leb, ltb, ◌==◌, ◌&&◌, ◌||◌,
  if◌then◌else◌, List, [], ◌∷◌, ◌++◌, arith, Bool-cases, inl, inr, ==→eq, ==→ne, ne→==,
}
use mdaq_midas.Bus.{
  BlockStatus, block_free, block_dma, block_full, block_user, is_full, DemandDma, DmaBlock,
}
use mdaq_midas.Irq.{next_block}
use mdaq_midas.Ddma.Hook.{is_free, is_user, after}

abbrev pub is_dma : BlockStatus → Bool
is_dma block_dma = true
is_dma _ = false

-- A queue lists the blocks that are full, each with the time of its interrupt, the oldest first.
abbrev pub Queue : Type 0
Queue = List (ℕ × ℕ)

-- The blocks of a queue follow each other in the ring, from block `start` to the one before `end`.
abbrev pub Follows : ℕ → ℕ → Queue → ℕ → Type 0
Follows num start [] end = start ≡ end
Follows num start ((n, t) ∷ q) end = (n ≡ start) × Follows num (after num n) q end

abbrev pub queued : ℕ → Queue → Bool
queued n [] = false
queued n ((m, t) ∷ q) = n == m || queued n q

abbrev pub Ready : (ℕ → DmaBlock) → Queue → Type 0
Ready block [] = Unit
Ready block ((n, t) ∷ q) =
    (is_full (block n).status ≡ true) × ((block n).time ≡ t) × (queued n q ≡ false) × Ready block q

pub record Ring (dma : DemandDma) (q : Queue) : Type 0 where
  pub small : dma.numblocks < 2 ^ 31
  pub inside : dma.writing_block < dma.numblocks
  pub follows : Follows dma.numblocks (next_block dma) q dma.writing_block
  pub ready : Ready dma.block q
  pub known : (n : ℕ) → n < dma.numblocks → is_full (dma.block n).status ≡ true → queued n q ≡ true
  pub engine : dma.is_blocked ≡ false → is_dma (dma.block dma.writing_block).status ≡ true
  pub waiting : dma.is_blocked ≡ true → is_free (dma.block dma.writing_block).status ≡ false
  pub alone :
      (n : ℕ)
      → n < dma.numblocks
      → is_dma (dma.block n).status ≡ true
      → (n ≡ dma.writing_block) × (dma.is_blocked ≡ false)

pub after-lt : (num n : ℕ) → n < num → after num n < num
after-lt num n h = ground arith

pub next-lt : (dma : DemandDma) → 0 < dma.numblocks → next_block dma < dma.numblocks
next-lt dma h = ground arith

pub Follows-snoc :
    (num start end t : ℕ) (q : Queue)
    → Follows num start q end
    → Follows num start (q ++ (end, t) ∷ []) (after num end)
Follows-snoc num start end t [] f = (sym f, refl)
Follows-snoc num start end t ((n, u) ∷ q) f = (f.0, Follows-snoc num (after num n) end t q f.1)

pub queued-snoc :
    (n m t : ℕ) (q : Queue) → queued n q || n == m ≡ true → queued n (q ++ (m, t) ∷ []) ≡ true
queued-snoc n m t [] h = rw h
queued-snoc n m t ((k, u) ∷ q) h = elim (Bool-cases (n == k)) [
  | inl e ↦ rw e refl
  | inr e ↦ rw e (queued-snoc n m t q (rw e at h))
]

unqueued-snoc :
    (n m t : ℕ) (q : Queue)
    → queued n q ≡ false
    → (n == m) ≡ false
    → queued n (q ++ (m, t) ∷ []) ≡ false
unqueued-snoc n m t [] h e = rw e refl
unqueued-snoc n m t ((k, u) ∷ q) h e = elim (Bool-cases (n == k)) [
  | inl g ↦ rw g (rw g at h)
  | inr g ↦ rw g (unqueued-snoc n m t q (rw g at h) e)
]

-- A queued block is full.
queued-full :
    (block : ℕ → DmaBlock) (n : ℕ) (q : Queue)
    → Ready block q
    → queued n q ≡ true
    → is_full (block n).status ≡ true
queued-full block n [] r h = cc
queued-full block n ((m, t) ∷ q) r h = elim (Bool-cases (n == m)) [
  | inl e ↦ rw (==→eq n m e) r.0
  | inr e ↦ queued-full block n q r.3 (rw e at h)
]

pub not_full-unqueued :
    (block : ℕ → DmaBlock) (n : ℕ) (q : Queue)
    → Ready block q
    → is_full (block n).status ≡ false
    → queued n q ≡ false
not_full-unqueued block n q r h = elim (Bool-cases (queued n q)) [
  | inl e ↦ let full = queued-full block n q r e in cc
  | inr e ↦ e
]

pub or_false : (a b : Bool) → a || b ≡ false → (a ≡ false) × (b ≡ false)
or_false true b h = absurd (true-ne-false h)
or_false false b h = (refl, h)

pub and_true : (a b : Bool) → a && b ≡ true → (a ≡ true) × (b ≡ true)
and_true true b h = (refl, h)
and_true false b h = absurd (true-ne-false (sym h))

pub or_left : (a b : Bool) → a ≡ true → a || b ≡ true
or_left a b e = rw e refl

pub or_right : (a b : Bool) → b ≡ true → a || b ≡ true
or_right true b e = refl
or_right false b e = e

-- Another block may change.
pub Ready-set :
    (block : ℕ → DmaBlock) (m : ℕ) (b : DmaBlock) (q : Queue)
    → queued m q ≡ false
    → Ready block q
    → Ready (λ i. if i == m then b else block i) q
Ready-set block m b [] h r = tt
Ready-set block m b ((n, t) ∷ q) h r =
    let (here, later) = or_false (m == n) (queued m q) h in
    let apart : (n == m) ≡ false = ne→== n m (λ e. ==→ne m n here (sym e)) in
    rw apart (r.0, r.1, r.2, Ready-set block m b q later r.3)

pub Ready-snoc :
    (block : ℕ → DmaBlock) (n t : ℕ) (q : Queue)
    → queued n q ≡ false
    → Ready block q
    → is_full (block n).status ≡ true
    → (block n).time ≡ t
    → Ready block (q ++ (n, t) ∷ [])
Ready-snoc block n t [] h r f e = (f, e, refl, tt)
Ready-snoc block n t ((m, u) ∷ q) h r f e =
    let (here, later) = or_false (n == m) (queued n q) h in
    (
      r.0,
      r.1,
      unqueued-snoc m n t q r.2 (ne→== m n (λ e. ==→ne n m here (sym e))),
      Ready-snoc block n t q later r.3 f e,
    )

-- How one status excludes another.
pub dma-not_full : (s : BlockStatus) → is_dma s ≡ true → is_full s ≡ false
dma-not_full block_dma h = refl
dma-not_full block_free h = refl
dma-not_full block_full h = sym h
dma-not_full block_user h = refl

pub user-not_full : (s : BlockStatus) → is_user s ≡ true → is_full s ≡ false
user-not_full block_dma h = refl
user-not_full block_free h = refl
user-not_full block_full h = sym h
user-not_full block_user h = refl

pub free-not_full : (s : BlockStatus) → is_free s ≡ true → is_full s ≡ false
free-not_full block_dma h = refl
free-not_full block_free h = refl
free-not_full block_full h = sym h
free-not_full block_user h = refl

pub user-not_dma : (s : BlockStatus) → is_user s ≡ true → is_dma s ≡ false
user-not_dma block_dma h = sym h
user-not_dma block_free h = refl
user-not_dma block_full h = refl
user-not_dma block_user h = refl

pub free-not_dma : (s : BlockStatus) → is_free s ≡ true → is_dma s ≡ false
free-not_dma block_dma h = sym h
free-not_dma block_free h = refl
free-not_dma block_full h = refl
free-not_dma block_user h = refl

pub lt→ltb : (a b : ℕ) → a < b → ltb a b ≡ true
lt→ltb a b h = ground arith

pub leb-lt : (a b : ℕ) → b < a → leb a b ≡ false
leb-lt a b h = ground arith
