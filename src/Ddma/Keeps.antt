-- ===== src/Ddma/Keeps.antt =====
-- How the changes of the ring of sis3100/sis1100-2.13/src/sis1100_ddma_startstop.c and of
-- sis1100_irq_get keep its invariant.
use mdaq_midas.Common.{
  true-ne-false, ℕ, ◌^◌, ◌<◌, ◌≡◌, refl, sym, ap, ◌∙◌, true, false, not, ◌==◌, ◌&&◌, [], ◌∷◌, ◌++◌,
  arith, Bool-cases, inl, inr, ==→eq, ==→ne, eq→==, ne→==,
}
use mdaq_midas.Bus.{BlockStatus, block_free, block_dma, block_full, block_user, is_full, DemandDma}
use mdaq_midas.Irq.{next_block, give}
use mdaq_midas.Ddma.Hook.{
  is_free, is_user, after, occupy, complete, block_ring, free_block, awaited,
}
use mdaq_midas.Ddma.Switch.{fresh_ring}
use mdaq_midas.Ddma.Ring.{
  Ring, Queue, Ready, queued, Follows, is_dma, after-lt, next-lt, Follows-snoc, queued-snoc,
  not_full-unqueued, Ready-set, Ready-snoc, or_left, or_right, dma-not_full, user-not_full,
  free-not_full, user-not_dma, free-not_dma, and_true, lt→ltb,
}

-- An interrupt while the DMA runs.
module _ (dma : DemandDma) (q : Queue) (t : ℕ) (r : Ring dma q) (run : dma.is_blocked ≡ false) where
  abbrev next : ℕ
  next = after dma.numblocks dma.writing_block

  abbrev filled_queue : Queue
  filled_queue = q ++ (dma.writing_block, t) ∷ []

  here : (dma.writing_block == dma.writing_block) ≡ true
  here = eq→== _ _ refl

  filled_ready : Ready (complete t dma).block filled_queue
  filled_ready =
      let free =
        not_full-unqueued dma.block dma.writing_block q r.ready (dma-not_full _ (r.engine run)) in
      Ready-snoc (complete t dma).block dma.writing_block t q free
        (Ready-set dma.block dma.writing_block _ q free r.ready) (rw here refl) (rw here refl)

  filled_known :
      (n : ℕ)
      → n < dma.numblocks
      → is_full ((complete t dma).block n).status ≡ true
      → queued n filled_queue ≡ true
  filled_known n lt f = elim (Bool-cases (n == dma.writing_block)) [
    | inl e ↦ queued-snoc n dma.writing_block t q (or_right (queued n q) _ e)
    | inr e ↦ queued-snoc n dma.writing_block t q (or_left _ _ (r.known n lt (rw e at f)))
  ]

  -- No block is given to the DMA before start_dma.
  filled_idle : (n : ℕ) → n < dma.numblocks → is_dma ((complete t dma).block n).status ≡ false
  filled_idle n lt = elim (Bool-cases (n == dma.writing_block)) [
    | inl e ↦ rw e refl
    | inr e ↦ rw e (elim (Bool-cases (is_dma (dma.block n).status)) [
      | inl g ↦ absurd (==→ne _ _ e (r.alone n lt g).0)
      | inr g ↦ g
    ])
  ]

  next-inside : next < dma.numblocks
  next-inside = after-lt dma.numblocks dma.writing_block r.inside

  -- The next block is in use: the ring is blocked.
  pub blocked-Ring :
      is_free ((complete t dma).block next).status ≡ false
      → Ring (block_ring (complete t dma)) filled_queue
  blocked-Ring used = record {
    small = r.small;
    inside = next-inside;
    follows = Follows-snoc dma.numblocks (next_block dma) dma.writing_block t q r.follows;
    ready = filled_ready;
    known = filled_known;
    engine = λ e. absurd (true-ne-false e);
    waiting = λ _. used;
    alone = λ n lt g. absurd (true-ne-false (sym g ∙ filled_idle n lt));
  }

  -- The next block is free: it is given to the DMA.
  pub started-Ring :
      is_free ((complete t dma).block next).status ≡ true
      → Ring (occupy next (complete t dma)) filled_queue
  started-Ring free = record {
    small = r.small;
    inside = next-inside;
    follows = Follows-snoc dma.numblocks (next_block dma) dma.writing_block t q r.follows;
    ready =
        Ready-set (complete t dma).block next _ filled_queue
          (not_full-unqueued (complete t dma).block next filled_queue filled_ready
            (free-not_full _ free))
          filled_ready;
    known = λ n lt f. started_known n lt f;
    engine = λ _. rw (eq→== next next refl) refl;
    waiting = λ e. absurd (true-ne-false (sym e ∙ run));
    alone = λ n lt g. (
      elim (Bool-cases (n == next)) [
        | inl e ↦ ==→eq n next e
        | inr e ↦ absurd (true-ne-false (sym (rw e at g) ∙ filled_idle n lt))
      ],
      run,
    );
  }
    where
      started_known :
          (n : ℕ)
          → n < dma.numblocks
          → is_full ((occupy next (complete t dma)).block n).status ≡ true
          → queued n filled_queue ≡ true
      started_known n lt f = elim (Bool-cases (n == next)) [
        | inl e ↦ absurd (true-ne-false (sym (rw e at f)))
        | inr e ↦ filled_known n lt (rw e at f)
      ]

-- The oldest full block is given to the user.
module _ (dma : DemandDma) (q : Queue) (r : Ring dma q) where
  abbrev oldest : ℕ
  oldest = next_block dma

  -- The next block to be read is full exactly if there is a full block, and it is the oldest.
  pub oldest_full :
      is_full (dma.block oldest).status ≡ true → (t : ℕ) × (rest : Queue) × (q ≡ (oldest, t) ∷ rest)
  oldest_full f = first q r.follows (r.known oldest (next-lt dma (omega (arith, r.inside))) f)
    where
      first :
          (l : Queue)
          → Follows dma.numblocks oldest l dma.writing_block
          → queued oldest l ≡ true
          → (t : ℕ) × (rest : Queue) × (l ≡ (oldest, t) ∷ rest)
      first [] w h = absurd (true-ne-false (sym h))
      first ((n, t) ∷ l) w h = (t, l, rw w.0 refl)

-- Another block of the DMA's is not the one that has been full, or that the user has had.
apart_from_dma :
    (dma : DemandDma) (n : ℕ)
    → is_dma (dma.block n).status ≡ false
    → is_dma (dma.block dma.writing_block).status ≡ true
    → (dma.writing_block == n) ≡ false
apart_from_dma dma n h g =
    ne→== _ _ (λ e. true-ne-false (sym g ∙ (ap (λ i. is_dma (dma.block i).status) e ∙ h)))

full-not_dma : (s : BlockStatus) → is_full s ≡ true → is_dma s ≡ false
full-not_dma block_dma h = sym h
full-not_dma block_free h = refl
full-not_dma block_full h = refl
full-not_dma block_user h = refl

pub taken-Ring :
    (dma : DemandDma) (n t : ℕ) (rest : Queue) → Ring dma ((n, t) ∷ rest) → Ring (give n dma) rest
taken-Ring dma n t rest r = record {
  small = r.small;
  inside = r.inside;
  follows = r.follows.1;
  ready = Ready-set dma.block n _ rest r.ready.2 r.ready.3;
  known = λ m lt f. elim (Bool-cases (m == n)) [
    | inl e ↦ absurd (true-ne-false (sym (rw e at f)))
    | inr e ↦ rw e at (r.known m lt (rw e at f))
  ];
  engine =
      λ run. rw (apart_from_dma dma n (full-not_dma _ r.ready.0) (r.engine run)) (r.engine run);
  waiting = λ b. elim (Bool-cases (dma.writing_block == n)) [
    | inl e ↦ rw e refl
    | inr e ↦ rw e (r.waiting b)
  ];
  alone = λ m lt g. elim (Bool-cases (m == n)) [
    | inl e ↦ absurd (true-ne-false (sym (rw e at g)))
    | inr e ↦ r.alone m lt (rw e at g)
  ];
}

-- The user gives block n back.
module _ (dma : DemandDma) (q : Queue) (n : ℕ) (r : Ring dma q)
    (given : is_user (dma.block n).status ≡ true) where
  still_blocked : awaited n dma ≡ false → dma.is_blocked && not (awaited n dma) ≡ dma.is_blocked
  still_blocked a =
      rw a (elim (Bool-cases dma.is_blocked) [ inl e ↦ rw e refl | inr e ↦ rw e refl ])

  marked_ready : Ready (free_block n dma).block q
  marked_ready =
      Ready-set dma.block n _ q (not_full-unqueued dma.block n q r.ready (user-not_full _ given))
        r.ready

  pub marked-Ring : awaited n dma ≡ false → Ring (free_block n dma) q
  marked-Ring a = record {
    small = r.small;
    inside = r.inside;
    follows = r.follows;
    ready = marked_ready;
    known = λ m lt f. elim (Bool-cases (m == n)) [
      | inl e ↦ absurd (true-ne-false (sym (rw e at f)))
      | inr e ↦ r.known m lt (rw e at f)
    ];
    engine = λ run.
        let g = r.engine (sym (still_blocked a) ∙ run) in
        rw (apart_from_dma dma n (user-not_dma _ given) g) g;
    waiting = λ b.
        let blocked = sym (still_blocked a) ∙ b in
        let elsewhere = unawaited blocked in rw elsewhere (r.waiting blocked);
    alone = λ m lt g. elim (Bool-cases (m == n)) [
      | inl e ↦ absurd (true-ne-false (sym (rw e at g)))
      | inr e ↦ let (same, run) = r.alone m lt (rw e at g) in (same, still_blocked a ∙ run)
    ];
  }
    where
      unawaited : dma.is_blocked ≡ true → (dma.writing_block == n) ≡ false
      unawaited b = ne→== _ _ (λ e. true-ne-false (rw (b, eq→== n dma.writing_block (sym e)) at a))

  pub restarted-Ring :
      n < dma.numblocks → awaited n dma ≡ true → Ring (occupy n (free_block n dma)) q
  restarted-Ring lt a =
      let (blocked, here) = and_true dma.is_blocked (n == dma.writing_block) a in
      record {
        small = r.small;
        inside = r.inside;
        follows = r.follows;
        ready =
            Ready-set (free_block n dma).block n _ q
              (not_full-unqueued dma.block n q r.ready (user-not_full _ given)) marked_ready;
        known = λ m lt f. elim (Bool-cases (m == n)) [
          | inl e ↦ absurd (true-ne-false (sym (rw e at f)))
          | inr e ↦ r.known m lt (rw e at f)
        ];
        engine = λ _. rw (eq→== _ _ (sym (==→eq n _ here))) refl;
        waiting = λ b. absurd (true-ne-false (sym (rw (a, blocked) at b)));
        alone = λ m lt g. elim (Bool-cases (m == n)) [
          | inl e ↦ (==→eq m n e ∙ ==→eq n _ here, rw (a, blocked) refl)
          | inr e ↦ absurd (true-ne-false (sym blocked ∙ (r.alone m lt (rw e at g)).1))
        ];
      }

fresh_status :
    (dma : DemandDma) (n : ℕ)
    → n < dma.numblocks
    → (n == 0) ≡ false
    → is_free ((fresh_ring dma).block n).status ≡ true
fresh_status dma n lt e = rw (e, lt→ltb n dma.numblocks lt) refl

pub fresh-Ring :
    (dma : DemandDma) → 0 < dma.numblocks → dma.numblocks < 2 ^ 31 → Ring (fresh_ring dma) []
fresh-Ring dma pos small = record {
  small = small;
  inside = pos;
  follows = ground arith;
  ready = tt;
  known = λ n lt f. elim (Bool-cases (n == 0)) [
    | inl e ↦ absurd (true-ne-false (sym (rw e at f)))
    | inr e ↦ absurd (true-ne-false (sym f ∙ free-not_full _ (fresh_status dma n lt e)))
  ];
  engine = λ _. refl;
  waiting = λ e. absurd (true-ne-false (sym e));
  alone = λ n lt g. elim (Bool-cases (n == 0)) [
    | inl e ↦ (==→eq n 0 e, refl)
    | inr e ↦ absurd (true-ne-false (sym g ∙ free-not_dma _ (fresh_status dma n lt e)))
  ];
}
