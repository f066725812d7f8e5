-- ===== src/Remote/Frames.antt =====
-- The single transactions of sis1100_tmp_read.c and sis1100_tmp_write.c, with their headers digit by
-- digit.
use mdaq_midas.Common.{
  ℕ, ◌-◌, ◌*◌, ◌%◌, ◌^◌, bit_or, ◌≡◌, refl, Option, none, some, List, ◌∷◌, inl, inr, false, [],
  and_low_mask,
}
use mathlib.Core.Path.{subst}
use mdaq_midas.Bus.{Access, Device, World, put, Responsive, t_hdr, t_am, t_adl, t_dal}
use mdaq_midas.Remote.Answer.{Answered, Confirmed, tmp_read-Answered, tmp_write-Confirmed}
use mdaq_midas.Bus.Spec.{Returns, Returns-both, held, Disciplined}
use mdaq_midas.Remote.Defs.{byte_enable, header, with_am, tmp_read, tmp_write, spread}
use mdaq_midas.Remote.Cycle.{IsCycle, opening}
use mdaq_midas.Remote.Lanes.{IsSize, low_two}
use mdaq_midas.Remote.Single.{tmp_read-IsCycle, tmp_write-IsCycle}

-- The digits for `size` lanes from the address on: digit 24 stands for the lowest lane.
abbrev pub lane_digits : ℕ → ℕ → ℕ
lane_digits size addr = (2 ^ size - 1) * 2 ^ 24 * 2 ^ (addr % 4) % 2 ^ 32

-- The address modifier, if there is one, and the header: the kind of the transaction, the digit for a
-- modifier, the number of the address space from digit 16 on, and the lanes.
abbrev pub framed : ℕ → Option ℕ → ℕ → ℕ → ℕ → List Access
framed kind none size space addr =
    put t_hdr (bit_or (bit_or kind (space % 2 ^ 6 * 2 ^ 16)) (lane_digits size addr)) ∷ []
framed kind (some am) size space addr =
    put t_hdr (bit_or (bit_or (bit_or kind (space % 2 ^ 6 * 2 ^ 16)) (lane_digits size addr)) 0x800)
    ∷ put t_am am
    ∷ []

byte_enable-digits : (size addr : ℕ) → IsSize size → byte_enable size addr ≡ lane_digits size addr
unfolding byte_enable
byte_enable-digits size addr (inl e) = rw (e, low_two addr) refl
byte_enable-digits size addr (inr (inl e)) = rw (e, low_two addr) refl
byte_enable-digits size addr (inr (inr e)) = rw (e, low_two addr) refl

header-digits :
    (kind size space addr : ℕ)
    → IsSize size
    → header kind size space addr
      ≡ bit_or (bit_or kind (space % 2 ^ 6 * 2 ^ 16)) (lane_digits size addr)
unfolding header
header-digits kind size space addr h =
    rw (byte_enable-digits size addr h, and_low_mask 6 space) refl

opening-framed :
    (kind : ℕ) (am : Option ℕ) (size space addr : ℕ)
    → IsSize size
    → opening am (with_am am (header kind size space addr)) ≡ framed kind am size space addr
unfolding with_am
opening-framed kind none size space addr h = rw (header-digits kind size space addr h) refl
opening-framed kind (some am) size space addr h = rw (header-digits kind size space addr h) refl

-- On a responsive device, with sem_hw free, tmp_read of 1, 2 or 4 bytes ends with a final code. It
-- writes the address modifier if there is one, then the header and then the address, and nothing
-- else: the header has the code of a read, the digit for a modifier if there is one, the low six
-- digits of the address space, and the digits of the lanes from the address on. The code is what the link has
-- reported: the last code of prot_error or, if this says that the transfer was aborted, the error of
-- the confirmation; the datum is the part at the address of the word that raw_tc_dal gives then. It
-- changes no field of the softc, takes sem_hw once and frees it, and touches the link only in between.
pub tmp_read-IsRead :
    (addr : ℕ) (am : Option ℕ) (size space old : ℕ) (d : Device) (w : World)
    → IsSize size
    → Responsive d
    → held w.trace ≡ false
    → Disciplined w.trace
    → Returns
        (λ r w'.
          IsCycle w (put t_adl addr ∷ framed 0x002 am size space addr) r.0 w'
          × Answered size addr old r w')
        (tmp_read addr am size space old d w)
tmp_read-IsRead addr am size space old d w si r free dis =
    Returns-both _ _ (tmp_read addr am size space old d w) framed_cycle
      (tmp_read-Answered addr am size space old d w r)
  where
    framed_cycle :
        Returns
          (λ r w'. IsCycle w (put t_adl addr ∷ framed 0x002 am size space addr) r.0 w')
          (tmp_read addr am size space old d w)
    framed_cycle =
        subst
          (λ o.
            Returns (λ r w'. IsCycle w (put t_adl addr ∷ o) r.0 w')
              (tmp_read addr am size space old d w))
          (opening-framed 0x002 am size space addr si)
          (tmp_read-IsCycle addr am size space old d w r free dis)

-- On a responsive device, with sem_hw free, tmp_write of 1, 2 or 4 bytes ends with a final code. It
-- writes the address modifier if there is one, then the header, the datum on every lane, and the
-- address that starts the cycle, and nothing else: the header has the code of a write, the digit for
-- a modifier if there is one, the low six digits of the address space, and the digits of the lanes
-- from the address on. The code is what the link has reported: the last code of prot_error or, if
-- this says that the transfer was aborted, the error of the confirmation. It changes no field of the
-- softc, takes sem_hw once and frees it, and touches the link only in between.
pub tmp_write-IsWrite :
    (addr : ℕ) (am : Option ℕ) (size space v : ℕ) (d : Device) (w : World)
    → IsSize size
    → Responsive d
    → held w.trace ≡ false
    → Disciplined w.trace
    → Returns
        (λ e w'.
          IsCycle w
            (put t_adl addr ∷ put t_dal (spread size v) ∷ framed 0x402 am size space addr)
            e
            w'
          × Confirmed e w')
        (tmp_write addr am size space v d w)
tmp_write-IsWrite addr am size space v d w si r free dis =
    Returns-both _ _ (tmp_write addr am size space v d w) framed_cycle
      (tmp_write-Confirmed addr am size space v d w r)
  where
    framed_cycle :
        Returns
          (λ e w'.
            IsCycle w
              (put t_adl addr ∷ put t_dal (spread size v) ∷ framed 0x402 am size space addr)
              e
              w')
          (tmp_write addr am size space v d w)
    framed_cycle =
        subst
          (λ o.
            Returns (λ e w'. IsCycle w (put t_adl addr ∷ put t_dal (spread size v) ∷ o) e w')
              (tmp_write addr am size space v d w))
          (opening-framed 0x402 am size space addr si)
          (tmp_write-IsCycle addr am size space v d w r free dis)
