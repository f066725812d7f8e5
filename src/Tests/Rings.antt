-- ===== src/Tests/Rings.antt =====
-- Demand DMA on the sample board, with a ring of two blocks.
use mdaq_midas.Common.{
  ◌≡◌, refl, [], ◌∷◌, Option, none, some, true, false, arith, ◌==◌, if◌then◌else◌,
}
use mdaq_midas.Bus.{World, DemandDma, dma_ready, dma_running, block_user, block_full}
use mdaq_midas.Bus.Spec.{Returns}
use mdaq_midas.Irq.{IrqGet, get_block, enable_irq, if_any}
use mdaq_midas.Ddma.{ddma_start, dma0_hook, ddma_mark}
use mdaq_midas.Ddma.Ring.{is_dma}
use mdaq_midas.Ddma.History.{Story, Step, Reach, start, next, InOrder, ring_of, Reach-InOrder}
use mdaq_midas.Ddma.Stall.{
  Stalled, done, more, starts, descriptor, raced, raced-stalls, mark-restarts, stalls_forever,
}
use mdaq_midas.Tests.Board
use mdaq_midas.Tests.Board.{board, silent}

abbrev world_of : {A : Type 0} → Option (A × World) → World
world_of none = Board.start
world_of (some (a, w)) = w

abbrev ring_world : (DemandDma → DemandDma) → World
ring_world f = record {
  sc = record board {
    demand_dma = f (record board.demand_dma { numblocks = 2; status = dma_ready });
  };
  trace = [];
}

abbrev ready : World
ready = ring_world (λ dma. dma)

abbrev request : IrqGet
request = record {
  irq_mask = 0;
  remote_status = 0;
  opt_status = 0;
  mbx0 = 0;
  irqs = 0;
  level = 0;
  vector = 0;
  irq_time = 0;
}

abbrev running : World
running = world_of (ddma_start 0 silent ready)

abbrev interrupted : World
interrupted = world_of (dma0_hook 7 silent running)

abbrev given : World
given = world_of (get_block request silent interrupted)

-- Block 0 is filled at time 7, and the user is told of it.
abbrev story : Story
story = record { world = given; filled = (0, 7) ∷ []; taken = (0, 7) ∷ [] }

story_Reach : Reach silent 0 ready story
unfolding ddma_start dma0_hook get_block enable_irq if_any
story_Reach = next (next (start refl) (Step.interrupt 7 refl refl)) (Step.get request refl)

order_example : InOrder story
order_example = Reach-InOrder (omega arith) (omega arith) story_Reach

-- Now block 1 is written, and block 0 is the user's.
raced_example :
    Returns
      (λ res w'. (res ≡ 0) × Stalled (ring_of w') × (starts w'.trace ≡ starts given.trace))
      (raced 0 9 silent given)
unfolding ddma_start dma0_hook get_block enable_irq if_any
raced_example = raced-stalls 0 9 silent given order_example.0 order_example.2 refl refl refl refl

abbrev stalled : Story
stalled = record {
  world = world_of (raced 0 9 silent given);
  filled = (0, 7) ∷ (1, 9) ∷ [];
  taken = (0, 7) ∷ [];
}

abbrev taken_again : World
taken_again = world_of (get_block request silent stalled.world)

abbrev marked_again : World
marked_again = world_of (ddma_mark 0 1 silent taken_again)

-- The user takes block 1 as well, and gives it back.
abbrev end : Story
end = record { world = marked_again; filled = (0, 7) ∷ (1, 9) ∷ []; taken = (0, 7) ∷ (1, 9) ∷ [] }

forever_example : Stalled (ring_of marked_again) × (end.filled ≡ stalled.filled)
unfolding ddma_start dma0_hook get_block enable_irq if_any ddma_mark
forever_example =
    stalls_forever {d = silent} {self = 0} {s = stalled} {t = end} (refl, refl)
      (more (more done (Step.get request refl)) (Step.mark 1 refl))

-- The ring waits for block 0, which the user has.
abbrev waiting : World
waiting = ring_world λ dma. record dma {
  status = dma_running;
  is_blocked = true;
  block = λ i. record (dma.block i) {
    status = if i == 0 then block_user else block_full;
    dmadpr0 = 0x1000;
  };
}

restart_example :
    Returns
      (λ res w'.
        (res ≡ 0)
        × ((ring_of w').is_blocked ≡ false)
        × (is_dma ((ring_of w').block 0).status ≡ true)
        × (starts w'.trace ≡ 1)
        × (descriptor w'.trace ≡ 0x1009))
      (ddma_mark 0 0 silent waiting)
restart_example = mark-restarts 0 silent waiting refl refl (omega arith) refl refl
