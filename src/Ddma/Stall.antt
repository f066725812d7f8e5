-- ===== src/Ddma/Stall.antt =====
-- When demand DMA goes on, and how it stops for good: sis1100_ddma_mark and plxirq_dma0_hook of
-- sis3100/sis1100-2.13/src/sis1100_ddma_startstop.c. The hook looks whether the next block is free and
-- sets is_blocked in two pieces under the spinlock; a mark that another processor makes between
-- them is lost.
use mdaq_midas.Common.{
  true-ne-false, ℕ, suc, ◌<◌, ◌≡◌, refl, sym, ap, ◌∙◌, true, false, ◌==◌, ◌&&◌, bit_or,
  if◌then◌else◌, List, [], ◌∷◌, Bool-cases, inl, inr, ==→ne, eq→==, ne→==, some,
}
use mathlib.Core.Path.{subst}
use mdaq_midas.Bus.{
  lock_ddma, acquire, release, BlockStatus, block_free, block_dma, block_full, block_user, ◌>>=◌,
  ◌>>◌, pure, M, Device, World, Access, put, plx, is_full, is_running, DemandDma,
}
use mdaq_midas.Bus.Spec.{Returns}
use mdaq_midas.Irq.{next_block, IrqGet, get_block}
use mdaq_midas.Ddma.Hook.{
  is_free, is_user, after, complete, free_block, set_dma, awaited, ddma_mark, hook_fill, hook_go,
}
use mdaq_midas.Ddma.Ring.{Ring, Queue, is_dma, leb-lt, after-lt, user-not_dma}
use mdaq_midas.Ddma.History.{Story, Step, ring_of, Taken, Marked, get-Returns, mark-Returns}

-- How often the DMA has been started.
abbrev pub starts : List Access → ℕ
starts [] = 0
starts (put (plx n) v ∷ t) = if n == 0xa8 && v == 3 then suc (starts t) else starts t
starts (_ ∷ t) = starts t

-- The descriptor that the bridge has been given last.
abbrev pub descriptor : List Access → ℕ
descriptor [] = 0
descriptor (put (plx n) v ∷ t) = if n == 0x90 then v else descriptor t
descriptor (_ ∷ t) = descriptor t

-- The ring waits for the writing block, and that block is free: nothing will start the DMA.
abbrev pub Stalled : DemandDma → Type 0
Stalled dma = (dma.is_blocked ≡ true) × (is_free (dma.block dma.writing_block).status ≡ true)

-- The hook with a mark of the next block between its pieces; the result is the mark's code.
abbrev pub raced : ℕ → ℕ → M ℕ
raced self time = hook_fill time >>= λ found.
    ddma_mark self found.0 >>= λ res. hook_go found.0 found.1 >> pure res

-- The user gives back the block for which the ring waits, and is the owner of a running DMA: the mark
-- succeeds, the ring is not blocked any more, the block belongs to the DMA, and the DMA has been
-- started once, with the descriptor of this block.
pub mark-restarts :
    (self : ℕ) (d : Device) (w : World)
    → (ring_of w).owner ≡ self
    → is_running (ring_of w).status ≡ true
    → (ring_of w).writing_block < (ring_of w).numblocks
    → (ring_of w).is_blocked ≡ true
    → is_user ((ring_of w).block (ring_of w).writing_block).status ≡ true
    → Returns
        (λ res w'.
          (res ≡ 0)
          × ((ring_of w').is_blocked ≡ false)
          × (is_dma ((ring_of w').block (ring_of w).writing_block).status ≡ true)
          × (starts w'.trace ≡ suc (starts w.trace))
          × (descriptor w'.trace ≡ bit_or ((ring_of w).block (ring_of w).writing_block).dmadpr0 9))
        (ddma_mark self (ring_of w).writing_block d w)
unfolding ddma_mark
mark-restarts self d w own run lt blocked user =
    let here : ((ring_of w).writing_block == (ring_of w).writing_block) ≡ true = eq→== _ _ refl in
    rw (eq→== (ring_of w).owner self own, run, leb-lt _ _ lt)
      (rw (user, ◌>>=◌) (rw (blocked, here) (refl, refl, rw here refl, refl, rw here refl)))

user-not_free : (s : BlockStatus) → is_user s ≡ true → is_free s ≡ false
user-not_free block_dma h = refl
user-not_free block_free h = sym h
user-not_free block_full h = refl
user-not_free block_user h = refl

-- A block of the user's is not the one that the DMA writes.
next-apart :
    (dma : DemandDma) (q : Queue) (n : ℕ)
    → Ring dma q
    → dma.is_blocked ≡ false
    → is_user (dma.block n).status ≡ true
    → (n == dma.writing_block) ≡ false
next-apart dma q n r run user = ne→== _ _ (λ e.
    true-ne-false
      (sym (r.engine run) ∙ (ap (λ i. is_dma (dma.block i).status) (sym e) ∙ user-not_dma _ user)))

-- A mark of a block for which the ring does not wait.
mark_unawaited :
    (self n : ℕ) (d : Device) (w : World)
    → (ring_of w).owner ≡ self
    → is_running (ring_of w).status ≡ true
    → n < (ring_of w).numblocks
    → is_user ((ring_of w).block n).status ≡ true
    → awaited n (ring_of w) ≡ false
    → ddma_mark self n d w
      ≡ some (
        0,
        record {
          sc = set_dma (free_block n) w.sc;
          trace = release lock_ddma ∷ acquire lock_ddma ∷ w.trace;
        },
      )
unfolding ddma_mark
mark_unawaited self n d w own run lt user a =
    rw (eq→== (ring_of w).owner self own, run, leb-lt (ring_of w).numblocks n lt)
      (rw (user, ◌>>=◌) (rw (a, ◌>>=◌) refl))

-- The interrupt's hook with a mark between its two pieces, while the user has the next block and is
-- the owner of a running DMA: the mark succeeds, but the ring is stalled afterwards. It waits for a
-- block that is free, and the DMA has not been started.
pub raced-stalls :
    (self time : ℕ) (d : Device) (w : World) (q : Queue)
    → Ring (ring_of w) q
    → (ring_of w).owner ≡ self
    → is_running (ring_of w).status ≡ true
    → (ring_of w).is_blocked ≡ false
    → is_user ((ring_of w).block (after (ring_of w).numblocks (ring_of w).writing_block)).status
      ≡ true
    → Returns
        (λ res w'. (res ≡ 0) × Stalled (ring_of w') × (starts w'.trace ≡ starts w.trace))
        (raced self time d w)
unfolding hook_fill hook_go
raced-stalls self time d w q r own run open_ user =
    let next = after (ring_of w).numblocks (ring_of w).writing_block in
    let apart = next-apart (ring_of w) q next r open_ user in
    let v : World = record {
      sc = set_dma (complete time) w.sc;
      trace = release lock_ddma ∷ acquire lock_ddma ∷ w.trace;
    } in
    let marked =
      mark_unawaited self next d v own run (after-lt _ _ r.inside) (rw apart user)
        (rw open_ refl) in
    rw (marked, ◌>>=◌)
      (rw (apart, user-not_free _ user) (refl, (refl, rw (eq→== next next refl) refl), refl))

-- Any number of events.
pub data Steps (d : Device) (self : ℕ) (s : Story) : Story → Type 0 where
  done : Steps d self s s
  more : {t u : Story} → Steps d self s t → Step d self t u → Steps d self s u

-- A block that is not the writing block leaves a stalled ring stalled.
apart_from_writing :
    (dma : DemandDma) (n : ℕ)
    → Stalled dma
    → is_free (dma.block n).status ≡ false
    → (dma.writing_block == n) ≡ false
apart_from_writing dma n s h =
    ne→== _ _ (λ e. true-ne-false (sym s.1 ∙ (ap (λ i. is_free (dma.block i).status) e ∙ h)))

full-not_free : (s : BlockStatus) → is_full s ≡ true → is_free s ≡ false
full-not_free block_dma h = refl
full-not_free block_free h = sym h
full-not_free block_full h = refl
full-not_free block_user h = refl

get-Stalled :
    (d : Device) (w : World) (data_ r : IrqGet) (w' : World)
    → get_block data_ d w ≡ some (r, w')
    → Stalled (ring_of w)
    → Stalled (ring_of w')
get-Stalled d w data_ r w' p s =
    let dma = ring_of w in
    let n = next_block dma in
    let k : Taken w r w' = rw p at (get-Returns data_ d w) in
    elim (Bool-cases (is_full (dma.block n).status)) [
      | inl e ↦
          let (same, vector, time) = rw e at k in
          subst Stalled (sym same) (s.0, rw (apart_from_writing dma n s (full-not_free _ e)) s.1)
      | inr e ↦ let (same, vector) = rw e at k in subst Stalled (sym same) s
    ]

mark-Stalled :
    (d : Device) (self n : ℕ) (w : World) (res : ℕ) (w' : World)
    → ddma_mark self n d w ≡ some (res, w')
    → Stalled (ring_of w)
    → Stalled (ring_of w')
mark-Stalled d self n w res w' p s =
    let dma = ring_of w in
    let k : Marked n w res w' = rw p at (mark-Returns self n d w) in
    elim k [
      | inl same ↦ subst Stalled (sym same) s
      | inr (u, lt, e) ↦
          let apart = apart_from_writing dma n s (user-not_free _ u) in
          let idle : (n == dma.writing_block) ≡ false = ne→== _ _ (λ g. ==→ne _ _ apart (sym g)) in
          subst Stalled (sym e) (rw (s.0, idle) (refl, rw apart s.1))
    ]

Step-Stalled :
    {d : Device} {self : ℕ} {s t : Story}
    → Step d self s t
    → Stalled (ring_of s.world)
    → Stalled (ring_of t.world) × (t.filled ≡ s.filled)
Step-Stalled (Step.interrupt time run p) h = absurd (true-ne-false (sym h.0 ∙ run))
Step-Stalled {d} {self} {s} (Step.get data_ {r} {w} p) h =
    (get-Stalled d s.world data_ r w p h, refl)
Step-Stalled {d} {self} {s} (Step.mark n {res} {w} p) h =
    (mark-Stalled d self n s.world res w p h, refl)

-- A stalled ring stays stalled, whatever the user asks for and marks: no block is filled any more.
pub stalls_forever :
    {d : Device} {self : ℕ} {s t : Story}
    → Stalled (ring_of s.world)
    → Steps d self s t
    → Stalled (ring_of t.world) × (t.filled ≡ s.filled)
stalls_forever h done = (h, refl)
stalls_forever h (more st last) =
    let (stalled, same) = stalls_forever h st in
    let (stalled', same') = Step-Stalled last stalled in (stalled', same' ∙ same)
