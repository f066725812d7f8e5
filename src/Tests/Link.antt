-- ===== src/Tests/Link.antt =====
-- The link, the EEPROM, the library and the block transfers on the sample board.
use mdaq_midas.Common.{
  ℕ, ◌+◌, ◌*◌, ◌%◌, ◌^◌, ◌≡◌, refl, [], ◌∷◌, ◌++◌, none, some, true, false, ◌&&◌, leb, ltb,
  test_bit, arith, inl, inr, replicate,
}
use mdaq_midas.Bus.{put, t_adl, t_hdr, t_dal, reg, subdev_remote}
use mdaq_midas.Bus.Spec.{Returns}
use mdaq_midas.Remote.{
  header, with_am, spread, place, extract, byte_enable, tmp_read, tmp_write, tmp_write_blind,
  tmp_camacread, tmp_camacwrite, remote_reg_read, remote_reg_write,
}
use mdaq_midas.Remote.Lanes.{extract-spread, extract-place, byte_enable-lanes}
use mdaq_midas.Remote.Cycle.{IsCycle, opening}
use mdaq_midas.Remote.Single.{tmp_write_blind-IsCycle, tmp_camac-IsCycle, write_sent}
use mdaq_midas.Remote.Registers.{remote_reg_write-IsCycle, remote_reg_read-IsCycle}
use mdaq_midas.Eeprom.{cmd_write_enable, cmd_write_disable, send_word}
use mdaq_midas.Eeprom.Wire.{to_bits}
use mdaq_midas.Eeprom.Frames.{enable_disable-Sent, send_word-Sent}
use mdaq_midas.Eeprom.Command.{Sent}
use mdaq_midas.Block.{read_loop, write_loop, widen}
use mdaq_midas.Block.Lanes.{widen-spread}
use mdaq_midas.Block.Written.{Written}
use mdaq_midas.Block.Count.{Transferred, read_loop-Ended}
use mdaq_midas.Vme.{single_read, single_write, vmesysreset, minus_one}
use mdaq_midas.Vme.Outcome.{
  IsAnswer, IsTransfer, single_read-unlinked, single_read-linked, single_write-linked,
  vmesysreset-sends,
}
use mdaq_midas.Block.Errors.{Known}
use mdaq_midas.Block.Report.{write_loop-Sends}
use mdaq_midas.Tests.Board.{start, unlinked, silent, silent-Responsive, roomy, roomy-Responsive}
use mdaq_midas.Remote.Answer.{Answered, Confirmed}
use mdaq_midas.Remote.Frames.{framed, tmp_read-IsRead, tmp_write-IsWrite}

-- One cycle of each kind on the silent board.
read-IsRead_example :
    Returns
      (λ r w'.
        IsCycle start (put t_adl 0x1002 ∷ framed 0x002 (some 0x9) 2 1 0x1002) r.0 w'
        × Answered 2 0x1002 7 r w')
      (tmp_read 0x1002 (some 0x9) 2 1 7 silent start)
read-IsRead_example =
    tmp_read-IsRead 0x1002 (some 0x9) 2 1 7 silent start (inr (inl refl)) silent-Responsive refl tt

write-IsWrite_example :
    Returns
      (λ e w'.
        IsCycle start
          (put t_adl 0x1001 ∷ put t_dal (spread 1 0xab) ∷ framed 0x402 (some 0x9) 1 1 0x1001)
          e
          w'
        × Confirmed e w')
      (tmp_write 0x1001 (some 0x9) 1 1 0xab silent start)
write-IsWrite_example =
    tmp_write-IsWrite 0x1001 (some 0x9) 1 1 0xab silent start (inl refl) silent-Responsive refl tt

blind-IsCycle_example :
    Returns
      (λ e w'. (e ≡ 0) × IsCycle start (write_sent 0x1001 none 1 1 (place 1 0x1001 0xab)) e w')
      (tmp_write_blind 0x1001 none 1 1 0xab silent start)
blind-IsCycle_example = tmp_write_blind-IsCycle 0x1001 none 1 1 0xab silent start refl tt

camac_example :
    Returns
      (λ r w'. IsCycle start (put t_adl 0x8044 ∷ put t_hdr 0x0f010002 ∷ []) r.0 w')
      (tmp_camacread 0x8044 silent start)
    × Returns
        (λ e w'. IsCycle start (put t_adl 0x8044 ∷ put t_dal 5 ∷ put t_hdr 0x0f010402 ∷ []) e w')
        (tmp_camacwrite 0x8044 5 silent start)
camac_example = tmp_camac-IsCycle 0x8044 5 silent start silent-Responsive refl tt

register_write_example :
    Returns
      (λ e w'. IsCycle start (put (reg (0x104 + 0x800)) 0x8000 ∷ []) e w')
      (remote_reg_write 0x104 0x8000 false silent start)
register_write_example =
    remote_reg_write-IsCycle 0x104 0x8000 false silent start silent-Responsive refl tt

register_read_example :
    Returns (λ r w'. IsCycle start [] r.0 w') (remote_reg_read 0x108 false silent start)
register_read_example = remote_reg_read-IsCycle 0x108 false silent start silent-Responsive refl tt

lanes_example : extract 2 0x1003 0 (spread 2 0xabcd) ≡ 0xabcd
lanes_example = extract-spread 2 0x1003 0 0xabcd (inr (inl refl)) (omega arith)

placed_example : extract 1 0x1003 0 (place 1 0x1003 0xab) ≡ 0xab
placed_example = extract-place 1 0x1003 0 0xab (inl refl) refl (omega arith)

enable_example :
    test_bit (24 + 2) (byte_enable 2 0x1002) ≡ (leb (0x1002 % 4) 2 && ltb 2 (0x1002 % 4 + 2))
enable_example = byte_enable-lanes 2 0x1002 2 (inr (inl refl)) refl (omega arith)

-- The commands to the EEPROM.
enabling_example :
    Returns
      (λ _ w'. Sent (true ∷ false ∷ false ∷ true ∷ true ∷ replicate 6 false) start w')
      (cmd_write_enable silent start)
    × Returns (λ _ w'. Sent (true ∷ replicate 10 false) start w') (cmd_write_disable silent start)
enabling_example = enable_disable-Sent silent start (inr refl) refl

word_example :
    Returns
      (λ _ w'. Sent (true ∷ false ∷ true ∷ to_bits 8 0x14 ++ to_bits 16 0xbeef) start w')
      (send_word 0x14 0xbeef silent start)
word_example = send_word-Sent 0x14 0xbeef silent start (inr refl)

-- The library's calls.
unlinked_example :
    Returns
      (λ r w'. (r ≡ (minus_one, none)) × (w' ≡ unlinked))
      (single_read 2 0x39 0x1000 silent unlinked)
unlinked_example = single_read-unlinked 2 0x39 0x1000 silent unlinked refl

vme_read_example :
    Returns
      (λ r w'.
        ((x : ℕ × ℕ) × (tmp_read 0x1000 (some 0x39) 2 1 0 silent start ≡ some (x, w'))
          × IsAnswer 2 x r)
        × IsTransfer start
            (put t_adl 0x1000
              ∷ opening (some 0x39) (with_am (some 0x39) (header 0x00000002 2 1 0x1000)))
            w')
      (single_read 2 0x39 0x1000 silent start)
vme_read_example = single_read-linked 2 0x39 0x1000 silent start refl silent-Responsive refl tt

vme_write_example :
    Returns
      (λ _ w'.
        IsTransfer start (write_sent 0x1000 (some 0x39) 2 1 (spread 2 (0x12345 % 2 ^ (8 * 2)))) w')
      (single_write 2 0x39 0x1000 0x12345 silent start)
vme_write_example =
    single_write-linked 2 0x39 0x1000 0x12345 silent start refl silent-Responsive refl tt

reset_example :
    Returns
      (λ r w'. (r ≡ 0) × IsTransfer start (put (reg 0x900) 0x20000 ∷ put (reg 0x900) 0x2 ∷ []) w')
      (vmesysreset subdev_remote silent start)
reset_example = vmesysreset-sends silent start silent-Responsive refl tt

block_example :
    Returns
      (Transferred 3 2 false 0x1000 0x500 start)
      (read_loop 0x1000 (some 0x39) 2 1 false 3 0x500 0 silent start)
block_example =
    read_loop-Ended 0x1000 (some 0x39) 2 1 false 3 0x500 0 silent start silent-Responsive
      (inr (inl refl)) (omega arith) refl tt

write_block_example :
    Returns
      (λ r w'. Known start r.1 w' × Written 3 2 false 0x1000 0x500 start r w')
      (write_loop 0x1000 (some 0x39) 2 1 false 3 0x500 roomy start)
write_block_example =
    write_loop-Sends 0x1000 (some 0x39) 2 1 false 3 0x500 roomy start roomy-Responsive
      (λ t. (0, omega arith, refl)) (inr (inl refl)) refl tt

widen_example : widen 2 0x12345 ≡ spread 2 0x12345
widen_example = widen-spread 2 0x12345 (inr (inl refl))
