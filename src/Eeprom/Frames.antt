-- ===== src/Eeprom/Frames.antt =====
-- What the commands of sis1100_eeprom.c send, as the EEPROM sees it.
use mdaq_midas.Common.{
  ℕ, ◌+◌, ◌-◌, ◌%◌, ◌^◌, ◌≡◌, ◌∙◌, ap, ap₂, Bool, true, false, List, [], ◌∷◌, ◌++◌, bit_and, bit_at,
  bit_at-and, bit_at-not32, not32, test_bit, arith, replicate,
}
use mathlib.Core.Path.{subst}
use mdaq_midas.Bus.{Device, World}
use mdaq_midas.Bus.Spec.{Returns, Returns-cases, Returns-weaken}
use mdaq_midas.Eeprom.Bits.{
  all_lines, put_bits, start_cmd, end_cmd, cmd_write_enable, cmd_write_disable, send_word,
}
use mdaq_midas.Eeprom.Wire.{Wire, wire, to_bits, level}
use mdaq_midas.Eeprom.Lines.{IsMask, all_digits}
use mdaq_midas.Eeprom.Command.{
  Takes, Sent, put_bits-Takes, start_cmd-Takes, Takes-trans, keep-IsMask,
}

-- To send more within a command.
more_bits :
    (n bits cn : ℕ) (xs : List Bool) (u w : World) (d : Device)
    → IsMask u.sc.eemask
    → Takes xs u cn w
    → Returns (Takes (xs ++ to_bits n bits) u) (put_bits cn bits n d w)
more_bits n bits cn xs u w d im t =
    Returns-weaken (Takes (to_bits n bits) w) (Takes (xs ++ to_bits n bits) u)
      (put_bits cn bits n d w)
      (put_bits-Takes n cn bits d w (keep-IsMask t im) t.asserted t.cs_high)
      λ cn' w' t'. Takes-trans t t'

deselect :
    (v : ℕ) (s : Wire)
    → bit_at 25 v ≡ 0
    → s.cs ≡ true
    → level v s
      ≡ record { sk = test_bit 24 v; cs = false; taken = []; commands = s.commands ++ s.taken ∷ [] }
deselect v s low high = rw (low, high)

end_cmd-Sent :
    (bs : List Bool) (u w : World) (cn : ℕ) (d : Device)
    → IsMask u.sc.eemask
    → Takes bs u cn w
    → Returns (λ _ w'. Sent bs u w') (end_cmd cn d w)
unfolding end_cmd
end_cmd-Sent bs u w cn d im t =
    let lines = all_lines w.sc.eemask in
    let last = bit_and cn (not32 lines) in
    let off : bit_at 25 last ≡ 0 = omega (
      arith,
      all_digits w.sc.eemask (keep-IsMask t im),
      bit_at-and 25 cn (not32 lines),
      bit_at-not32 25 lines,
    ) in
    let seen = deselect last (wire w.trace) off t.cs_high in
    record {
      same_sc = t.same_sc;
      cs_low = ap (λ s. s.cs) seen;
      fresh = ap (λ s. s.taken) seen;
      sends = ap (λ s. s.commands) seen ∙ ap₂ (λ x y. x ++ y ∷ []) t.same_commands t.takes;
    }

enable_sends :
    (d : Device) (w : World)
    → IsMask w.sc.eemask
    → Returns
        (λ _ w'.
          Sent
            (true ∷ to_bits 4 0x3 ++ to_bits ((w.sc.eeprom_addr_len + 2 ^ 32 - 2) % 2 ^ 32) 0)
            w
            w')
        (cmd_write_enable d w)
unfolding cmd_write_enable
enable_sends d w im =
    let len = (w.sc.eeprom_addr_len + 2 ^ 32 - 2) % 2 ^ 32 in
    let (c0, w0, e0, t0) = Returns-cases _ (start_cmd d w) (start_cmd-Takes d w im) in
    let (c1, w1, e1, t1) =
      Returns-cases _ (put_bits c0 0x3 4 d w0) (more_bits 4 0x3 c0 _ w w0 d im t0) in
    let (c2, w2, e2, t2) =
      Returns-cases _ (put_bits c1 0 len d w1) (more_bits len 0 c1 _ w w1 d im t1) in
    rw (e0, e1, e2, Returns) (end_cmd-Sent _ w w2 c2 d im t2)

disable_sends :
    (d : Device) (w : World)
    → IsMask w.sc.eemask
    → Returns
        (λ _ w'. Sent (true ∷ to_bits ((w.sc.eeprom_addr_len + 2) % 2 ^ 32) 0) w w')
        (cmd_write_disable d w)
unfolding cmd_write_disable
disable_sends d w im =
    let len = (w.sc.eeprom_addr_len + 2) % 2 ^ 32 in
    let (c0, w0, e0, t0) = Returns-cases _ (start_cmd d w) (start_cmd-Takes d w im) in
    let (c1, w1, e1, t1) =
      Returns-cases _ (put_bits c0 0 len d w0) (more_bits len 0 c0 _ w w0 d im t0) in
    rw (e0, e1, Returns) (end_cmd-Sent _ w w1 c1 d im t1)

-- With eight address bits the enabling command is the start bit, the opcode 00 and an address that
-- begins with 11, and the disabling command the start bit, the opcode 00 and the address 0.
pub enable_disable-Sent :
    (d : Device) (w : World)
    → IsMask w.sc.eemask
    → w.sc.eeprom_addr_len ≡ 8
    → Returns
        (λ _ w'. Sent (true ∷ false ∷ false ∷ true ∷ true ∷ replicate 6 false) w w')
        (cmd_write_enable d w)
      × Returns (λ _ w'. Sent (true ∷ replicate 10 false) w w') (cmd_write_disable d w)
unfolding bit_at
enable_disable-Sent d w im len = (
  subst (λ bs. Returns (λ _ w'. Sent bs w w') (cmd_write_enable d w))
      (ap (λ l. true ∷ to_bits 4 0x3 ++ to_bits ((l + 2 ^ 32 - 2) % 2 ^ 32) 0) len)
      (enable_sends d w im),
  subst (λ bs. Returns (λ _ w'. Sent bs w w') (cmd_write_disable d w))
      (ap (λ l. true ∷ to_bits ((l + 2) % 2 ^ 32) 0) len) (disable_sends d w im),
)

-- Whatever CNTRL reads, the word command reaches the EEPROM as one command: the start bit, the
-- opcode 01, the address and then the 16 digits of the word, the most significant digit first. CS
-- ends low, and no field of the softc changes.
pub send_word-Sent :
    (offset word : ℕ) (d : Device) (w : World)
    → IsMask w.sc.eemask
    → Returns
        (λ _ w'.
          Sent (true ∷ false ∷ true ∷ to_bits w.sc.eeprom_addr_len offset ++ to_bits 16 word) w w')
        (send_word offset word d w)
unfolding send_word bit_at
send_word-Sent offset word d w im =
    let len = w.sc.eeprom_addr_len in
    let (c0, w0, e0, t0) = Returns-cases _ (start_cmd d w) (start_cmd-Takes d w im) in
    let (c1, w1, e1, t1) =
      Returns-cases _ (put_bits c0 0x1 2 d w0) (more_bits 2 0x1 c0 _ w w0 d im t0) in
    let (c2, w2, e2, t2) =
      Returns-cases _ (put_bits c1 offset len d w1) (more_bits len offset c1 _ w w1 d im t1) in
    let (c3, w3, e3, t3) =
      Returns-cases _ (put_bits c2 word 16 d w2) (more_bits 16 word c2 _ w w2 d im t2) in
    rw (e0, e1, e2, e3, Returns) (end_cmd-Sent _ w w3 c3 d im t3)
