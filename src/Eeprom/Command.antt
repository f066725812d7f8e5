-- ===== src/Eeprom/Command.antt =====
-- The parts of a command of sis1100_eeprom.c, as the EEPROM sees them.
use mdaq_midas.Common.{
  ℕ, zero, suc, ◌≡◌, refl, sym, ◌∙◌, ap, Bool, true, false, List, [], ◌∷◌, ◌++◌, bit_and, bit_or,
  bit_at, bit_at-le, bit_at-or, not32, test_bit, arith,
}
use mathlib.Core.List.{append_assoc, append-nil}
use mdaq_midas.Bus.{Device, World, put, log, plx_cntrl, value_at}
use mdaq_midas.Bus.Spec.{Returns, Returns-cases}
use mdaq_midas.Eeprom.Bits.{ee_sk, start_lines, with_data, put_bits, start_cmd}
use mdaq_midas.Eeprom.Wire.{wire, to_bits}
use mdaq_midas.Eeprom.Lines.{
  IsMask, with_data-digits, start_digits, clock_low, clock_low_keeps, clock_high, pulse,
}

-- Within a command the EEPROM has taken `bs`, and nothing else happened.
pub record Takes (bs : List Bool) (w : World) (cn : ℕ) (w' : World) : Type 0 where
  pub same_sc : w'.sc ≡ w.sc
  pub asserted : bit_at 25 cn ≡ 1
  pub cs_high : (wire w'.trace).cs ≡ true
  pub takes : (wire w'.trace).taken ≡ (wire w.trace).taken ++ bs
  pub same_commands : (wire w'.trace).commands ≡ (wire w.trace).commands

module _ (cn bits n : ℕ) (w : World) where
  abbrev low : ℕ
  low = bit_and (with_data w.sc.eemask bits n cn) (not32 ee_sk)

  abbrev pulsed : World
  pulsed = log (put plx_cntrl (bit_or low ee_sk)) (log (put plx_cntrl low) w)

  low_selected : IsMask w.sc.eemask → bit_at 25 cn ≡ 1 → bit_at 25 low ≡ 1
  low_selected im h =
      (clock_low_keeps (with_data w.sc.eemask bits n cn)).0
      ∙ (with_data-digits w.sc.eemask bits n cn im h).0

  one_bit :
      IsMask w.sc.eemask
      → bit_at 25 cn ≡ 1
      → wire pulsed.trace ≡ record {
        sk = true;
        cs = true;
        taken = (wire w.trace).taken ++ test_bit n bits ∷ [];
        commands = (wire w.trace).commands;
      }
  one_bit im h =
      let lines = with_data-digits w.sc.eemask bits n cn im h in
      let keeps = clock_low_keeps (with_data w.sc.eemask bits n cn) in
      let digit : bit_at 26 low ≡ bit_at n bits = keeps.1 ∙ lines.1 in
      rw (pulse low (wire w.trace) (clock_low _) (keeps.0 ∙ lines.0), digit)

pub put_bits-Takes :
    (n cn bits : ℕ) (d : Device) (w : World)
    → IsMask w.sc.eemask
    → bit_at 25 cn ≡ 1
    → (wire w.trace).cs ≡ true
    → Returns (Takes (to_bits n bits) w) (put_bits cn bits n d w)
unfolding put_bits
put_bits-Takes zero cn bits d w im h c = record {
  same_sc = refl;
  asserted = h;
  cs_high = c;
  takes = sym (append-nil _);
  same_commands = refl;
}
put_bits-Takes (suc n) cn bits d w im h c =
    let seen = one_bit cn bits n w im h in
    let v = low cn bits n w in
    let w1 = pulsed cn bits n w in
    let (cn', w', eq, t) = Returns-cases _ (put_bits (bit_or v ee_sk) bits n d w1) (
      put_bits-Takes n (bit_or v ee_sk) bits d w1 im
        ((clock_high v).1 ∙ low_selected cn bits n w im h) (ap (λ s. s.cs) seen)) in
    rw (eq, Returns)
      record {
        same_sc = t.same_sc;
        asserted = t.asserted;
        cs_high = t.cs_high;
        takes =
            t.takes
            ∙ ap (λ s. s.taken ++ to_bits n bits) seen
            ∙ append_assoc (wire w.trace).taken (test_bit n bits ∷ []) (to_bits n bits);
        same_commands = t.same_commands ∙ ap (λ s. s.commands) seen;
      }

-- The level with which a command starts: SK low, CS and DI high.
module _ (m cn : ℕ) (im : IsMask m) where
  abbrev first : ℕ
  first = bit_or (bit_and cn (not32 ee_sk)) (start_lines m)

  first_digits : (bit_at 24 first ≡ 0) × (bit_at 25 first ≡ 1) × (bit_at 26 first ≡ 1)
  first_digits =
      let s = start_lines m in
      let c = bit_and cn (not32 ee_sk) in
      let d = start_digits m im in
      (
        omega (arith, d, clock_low cn, bit_at-or 24 c s),
        omega (arith, d, bit_at-or 25 c s, bit_at-le 25 c),
        omega (arith, d, bit_at-or 26 c s, bit_at-le 26 c),
      )

-- The start bit.
pub start_cmd-Takes :
    (d : Device) (w : World) → IsMask w.sc.eemask → Returns (Takes (true ∷ []) w) (start_cmd d w)
unfolding start_cmd
start_cmd-Takes d w im =
    let v = value_at d w.trace plx_cntrl in
    let f = first w.sc.eemask v im in
    let digits = first_digits w.sc.eemask v im in
    let one : test_bit 26 f ≡ true = rw digits.2 in
    let seen = pulse f (wire w.trace) digits.0 digits.1 in
    record {
      same_sc = refl;
      asserted = (clock_high f).1 ∙ digits.1;
      cs_high = ap (λ s. s.cs) seen;
      takes = ap (λ s. s.taken) seen ∙ rw one;
      same_commands = ap (λ s. s.commands) seen;
    }

pub Takes-trans :
    {xs bs : List Bool} {u v w : World} {c c' : ℕ}
    → Takes xs u c v
    → Takes bs v c' w
    → Takes (xs ++ bs) u c' w
Takes-trans {xs} {bs} {u} a b = record {
  same_sc = b.same_sc ∙ a.same_sc;
  asserted = b.asserted;
  cs_high = b.cs_high;
  takes = b.takes ∙ ap (λ l. l ++ bs) a.takes ∙ append_assoc (wire u.trace).taken xs bs;
  same_commands = b.same_commands ∙ a.same_commands;
}

-- A command has been sent: it consists of `bs`, and CS is low again.
pub record Sent (bs : List Bool) (w w' : World) : Type 0 where
  pub same_sc : w'.sc ≡ w.sc
  pub cs_low : (wire w'.trace).cs ≡ false
  pub fresh : (wire w'.trace).taken ≡ []
  pub sends :
      (wire w'.trace).commands ≡ (wire w.trace).commands ++ ((wire w.trace).taken ++ bs) ∷ []

pub keep-IsMask :
    {bs : List Bool} {u w : World} {cn : ℕ}
    → Takes bs u cn w
    → IsMask u.sc.eemask
    → IsMask w.sc.eemask
keep-IsMask {u} {w} t im =
    let same : w.sc.eemask ≡ u.sc.eemask = ap (λ sc. sc.eemask) t.same_sc in rw same im
