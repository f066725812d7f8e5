-- ===== src/Tests/Board.antt =====
-- The sample board and devices.
use mdaq_midas.Common.{[], ◌∷◌, none, some, true, false, arith}
use mdaq_midas.Bus.{
  Softc, Fdata, Device, World, hw_vme, hw_invalid, dma_invalid, block_free, Responsive,
}
use mdaq_midas.Eeprom.{plx9056_eemask}

abbrev pub alice : Fdata
alice = record { pid = 100; owned_irqs = 0x0e; sig = 10; old_remote_hw = hw_vme }

abbrev pub bob : Fdata
bob = record { pid = 200; owned_irqs = 0x30; sig = 0; old_remote_hw = hw_vme }

abbrev pub board : Softc
board = record {
  fdata = some alice ∷ none ∷ some bob ∷ [];
  silicon_id = 0x905610b5;
  remote_ident = 0;
  remote_hw = hw_vme;
  doorbell = 0;
  lemo_status = 0x1000;
  mbx0 = 0;
  got_irqs = 0;
  irq_vects = λ i. record { time = 0; vector = 0; valid = false };
  irqtimes = λ i. 0;
  autoack_mask = 0;
  pending_irqs = 0;
  command = 0;
  ram_size = 0;
  dsp_present = false;
  remote_big_endian = true;
  user_wants_swap = false;
  last_opt_csr = 0;
  demand_dma = record {
    status = dma_invalid;
    owner = 0;
    numblocks = 0;
    block = λ i. record {
      dmadpr0 = 0;
      time = 0;
      status = block_free;
      seq_write_start = 0;
      seq_write_end = 0;
      seq_signal = 0;
      seq_free = 0;
    };
    is_blocked = false;
    writing_block = 0;
    reading_block = 0;
    debug_sequence = 0;
  };
  dma0_hook = false;
  using_dac = false;
  eemask = plx9056_eemask;
  eeprom_addr_len = 8;
  sendfifo_size = 1024;
}

abbrev pub start : World
start = record { sc = board; trace = [] }

abbrev pub unlinked : World
unlinked = record { sc = record board { remote_hw = hw_invalid }; trace = [] }

-- Every read is answered by 0, which is "no error" for prot_error.
abbrev pub silent : Device
silent = record { answer = λ t p. 0; access_ok = λ a n. true; patience = 1; hz = 100 }

-- Every read is answered by a word of which every digit is set: each of the bridge's and the
-- board's IRQs is there.
abbrev pub noisy : Device
noisy = record { answer = λ t p. 0xffffffff; access_ok = λ a n. true; patience = 1; hz = 100 }

pub silent-Responsive : Responsive silent
silent-Responsive t = (0, omega arith, omega arith)

-- Every read is answered by 0, and there are two rounds to wait for room in the FIFO.
abbrev pub roomy : Device
roomy = record silent { patience = 2 }

pub roomy-Responsive : Responsive roomy
roomy-Responsive t = (0, omega arith, omega arith)
