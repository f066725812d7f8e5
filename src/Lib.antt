-- ===== src/Lib.antt =====
-- The sis3100 driver and library of mdaq-midas: a Linux driver for the SIS1100 PCI board, which
-- reaches a VME or CAMAC controller over an optical link, and the library by which user programs
-- call it. The development is a shallow embedding of the parts that decide what is sent over the
-- link, who owns an interrupt and is told of it, how the other side is set up, where the blocks of
-- demand DMA go, and what is sent to the bridge's EEPROM, the DSP and the front panels.
--
-- How the parts interact. A program calls the library (libsis3100/sis3100_calls/sis3100_vme_calls.c),
-- which makes a request of the driver (sis1100_ioctl.c), which makes one transaction on the link
-- (sis1100_tmp_read.c, sis1100_tmp_write.c). The board interrupts the driver (sis1100_irq.c), which
-- acknowledges at the hardware, records the event in the softc and wakes a thread; the thread asks the
-- controller on the other side (sis3100rem_irq.c, sis5100rem_irq.c) over the same link. Programs
-- reserve, acknowledge and give back interrupts (sis1100_irq_handler.c). All paths of the driver stand
-- below sis3100/sis1100-2.13/src/, those of the library below sis3100/.
--
-- The files.
--   Common          words with C's operations, tests and lists: binary digits are read by `bit_at`.
--   Bus             struct sis1100_softc (State), every access in the order in which it is made
--                   (Monad), register offsets (Regs), the busy wait on prot_error (Poll), and the
--                   vocabulary of the specifications (Spec, Observed).
--   Remote          Defs translates sis1100_tmp_read.c and sis1100_tmp_write.c function by function;
--                   Lanes, Cycle, Single, Answer, Frames and Registers prove.
--   Eeprom          Bits and Words translate sis1100_eeprom.c; Wire is an independent decoder of the
--                   lines that the EEPROM sees; Lines, Command, Frames and Reading prove.
--   Irq             Owner, Control, Get (sis1100_irq_handler.c, sis1100_poll.c), Far
--                   (sis3100rem_irq.c, sis5100rem_irq.c), Intr (sis1100_irq.c,
--                   sis1100_lemo_handler.c, sis1100_mbx0_handler.c and the timer of
--                   sis1100_synch_handler.c); Exclusive, Keeps, Branches, Lossless, Lemo, Highest, Under, Steps, Discipline,
--                   Ack, Sides and Ctl prove.
--   Vme             Requests (sis1100_ioctl.c), Library and Control (sis3100_vme_calls.c); Outcome
--                   proves.
--   Block           Loop (sis1100_read_loop.c) and Send (sis1100_write_loop.c); Round, Count, Part,
--                   Room, Sent, Written, Errors, Report and Lanes prove.
--   Ddma            Hook and Switch (sis1100_ddma_startstop.c); Ring, Keeps, History and Stall
--                   prove.
--   Setup           Sdram (sis1100_init_sdram.c), Sides (sis1100rem_init.c, sis3100rem_init.c,
--                   sis5100rem_init.c, zellvd_rem_init.c, pandapixel_rem_init.c,
--                   psf4ad_rem_init.c), Init (sis1100_init_remote.c, sis1100_synch_handler.c, the
--                   byte order of sis1100_init.c), Thread (sis1100_irq_thread.c); Keeps, Parts,
--                   Known, Outcome, Sound, Calm and Signals prove.
--   Dsp             Code (sis1100_dsp.c); Words, Stage and Load prove.
--   Front           Panel (sis1100_front_io.c, sis1100rem_front_io.c, sis3100rem_front_io.c,
--                   sis5100rem_front_io.c); Digits and Shown prove.
--   Files           Seek (sis1100_llseek_linux.c), Settings and Requests (the requests of
--                   sis1100_ioctl.c that Vme has not), Registers (sis1100_ctrl_rw_block.c);
--                   Positions, Blocks, Reset and Far prove.
--   Tests           a sample board on which every property is applied.
--
-- How code became definitions. A function of the driver is a computation of the monad `M` of Bus: it
-- takes the softc and the trace of accesses made so far and gives its result, the new softc and the
-- longer trace, newest access first. Reading a register, user memory or the clock asks a `Device`,
-- which may answer in any way and depending on everything done before, so that each theorem holds for
-- every behaviour of the hardware that its hypotheses allow. Taking and releasing a lock is an access
-- as well, which makes the locking a property of the trace. An error code is a number; an int result
-- of -1 is its 32-bit pattern. Words are natural numbers, with the wrap-around of C written out. The
-- functions are translated for a little-endian machine under Linux.
--
-- Loops. Loops over words and bits are structural recursion. The busy waits
-- `while (error==sis1100_e_dlock)` and the wait for the EEPROM run for at most `patience` rounds of
-- the device, and a wait that is still spinning has no result. The theorems about transactions do not
-- assume that they return: they show it for a `Responsive` device, one that answers with another code
-- in fewer than `patience` rounds, whatever was done before, and the one about sis1100_write_loop for
-- a device that is `Draining` as well: it works off its FIFO while it is asked for the balance.
-- The one about the reading of the EEPROM is for contents that the EEPROM `Answers` with.
-- The loop over the digits of the doorbell has 32 rounds, after which a 32-bit word is 0; so has the search for the highest pending IRQ, which
-- is made only when there is one. The loop of the thread is run for any number of rounds, each of
-- which the kernel has woken up.
--
-- What is not modelled: the memory barriers, since the trace is ordered; delays; messages to the
-- system's log; interleavings of several processors within a function, but for the two
-- pieces of the hook of demand DMA; the blocks that DMA reads and writes at a user's request, the
-- setup of the board itself, and the packages of midas, roody, rome and elog, which have no C
-- code. In sis1100_intr the call of the hook that demand DMA installs is an access of its own; Ddma has the
-- hook itself.
pub mod Common
pub mod Bus
pub mod Remote
pub mod Eeprom
pub mod Irq
pub mod Vme
pub mod Block
pub mod Ddma
pub mod Setup
pub mod Dsp
pub mod Front
pub mod Files
pub mod Tests
