-- ===== src/Setup/Keeps.antt =====
-- The setup of the other side (sis1100_init_sdram.c, *_rem_init.c, sis1100_init_remote.c of
-- sis3100/sis1100-2.13/src) ends, keeps the lock discipline, and leaves what is known of IRQs and
-- their owners alone.
use mdaq_midas.Common.{
  ℕ, zero, suc, ◌≡◌, refl, ◌∙◌, Bool, true, false, Bool-cases, inl, inr, List, [], ◌∷◌, Option,
  none, some,
}
use mdaq_midas.Bus.{
  Port, Softc, get, put, Device, World, M, log, Responsive, read_prot_error, t_hdr, t_dal, t_adl,
  tc_dal, sr, cr, tp_data, tp_special,
}
use mdaq_midas.Bus.Spec.{
  Returns, Returns-cases, Returns-weaken, held, Disciplined, is_link, Touches-held,
  read_prot_error-Returns,
}
use mdaq_midas.Remote.{remote_reg_read}
use mdaq_midas.Irq.{has, put_far}
use mdaq_midas.Irq.Under.{
  Same, Same-trans, Same-eq, Under, Under-trans, Under-then, put_far-Under, get_far-Under,
  held_locking,
}
use mdaq_midas.Ddma.{drain, flush_fifo}
use mdaq_midas.Setup.Sdram.{
  spd_write, spd_read, spd_writes, read_bits, sdram_eeprom_read, sdram_eeprom_write, read_bytes,
  ram_of, signature, set_ram, init_sdram,
}

-- From a state in which sem_hw is held, m ends in one in which it is still held.
abbrev pub Holds : {A : Type 0} → Device → M A → Type 0
Holds d m =
    (w : World) → held w.trace ≡ true → Disciplined w.trace → Returns (λ _ w'. Under w w') (m d w)

pub Under-start : (w : World) → held w.trace ≡ true → Disciplined w.trace → Under w w
Under-start w h dis = record {
  same = Same-eq w.sc w.sc refl;
  holds = h;
  locking = held_locking h refl;
  disciplined = dis;
}

pub Under-get : {u w : World} (p : Port) (v : ℕ) → Under u w → Under u (log (get p v) w)
Under-get p v k = record {
  same = k.same;
  holds = k.holds;
  locking = k.locking;
  disciplined = (Touches-held (is_link p) k.holds, k.disciplined);
}

pub Under-put : {u w : World} (p : Port) (v : ℕ) → Under u w → Under u (log (put p v) w)
Under-put p v k = record {
  same = k.same;
  holds = k.holds;
  locking = k.locking;
  disciplined = (Touches-held (is_link p) k.holds, k.disciplined);
}

-- Other fields of the softc may change.
pub Under-sc : {u w : World} (s : Softc) → Same w.sc s → Under u w → Under u (record w { sc = s })
Under-sc s e k = record {
  same = Same-trans k.same e;
  holds = k.holds;
  locking = k.locking;
  disciplined = k.disciplined;
}

-- A part of a function, and what is left of it.
pub part_then :
    {A B : Type 0} (d : Device) (Q : B → World → Type 0) (m : M A)
    (f : A → World → Option (B × World)) {u w : World}
    → Holds d m
    → Under u w
    → ((a : A) (w' : World) → Under u w' → Returns Q (f a w'))
    → Returns Q (elim (m d w) [ none ↦ none | some (a, w) ↦ f a w ])
part_then d Q m f {u} {w} h k g = Under-then Q u (m d w) f k (h w k.holds k.disciplined) g

-- A part with which a function ends.
pub part_last :
    {A : Type 0} (d : Device) (m : M A) {u w : World}
    → Holds d m
    → Under u w
    → Returns (λ _ w'. Under u w') (m d w)
part_last d m {w = w} h k =
    Returns-weaken _ _ (m d w) (h w k.holds k.disciplined) λ _ w' e. Under-trans k e

pub set_ram-Same : (size : ℕ) (sc : Softc) → Same sc (set_ram size sc)
set_ram-Same size sc = record {
  same_fdata = refl;
  same_pending = refl;
  same_hw = refl;
  same_ident = refl;
}

module _ (d : Device) (r : Responsive d) where
  pub read_prot_error-Holds : Holds d read_prot_error
  read_prot_error-Holds w h dis =
      let (e, w1, eq, (ne, q)) =
        Returns-cases _ (read_prot_error d w) (read_prot_error-Returns d w r) in
      rw (eq, Returns)
        (record {
          same = Same-eq w.sc w1.sc q.same_sc;
          holds = q.same_held ∙ h;
          locking = held_locking h q.same_locks;
          disciplined = q.keeps h dis;
        })

  pub put_far-Holds : (offs v : ℕ) → Holds d (put_far offs v)
  put_far-Holds offs v w h dis = put_far-Under offs v d w r (Under-start w h dis)

  pub get_far-Holds : (offs : ℕ) → Holds d (remote_reg_read offs true)
  get_far-Holds offs w h dis = get_far-Under offs d w r (Under-start w h dis)

  spd_write-Holds : (v : ℕ) → Holds d (spd_write v)
  unfolding spd_write
  spd_write-Holds v w h dis =
      part_then d (λ _ w'. Under w w') read_prot_error _ read_prot_error-Holds
        (Under-put t_adl _ (Under-put t_dal v (Under-put t_hdr _ (Under-start w h dis))))
        λ e w1 k. k

  spd_read-Holds : Holds d spd_read
  unfolding spd_read
  spd_read-Holds w h dis =
      part_then d (λ _ w'. Under w w') read_prot_error _ read_prot_error-Holds
        (Under-put t_adl _ (Under-put t_hdr _ (Under-start w h dis))) λ e w1 k. Under-get tc_dal _ k

  spd_writes-Holds : (l : List ℕ) → Holds d (spd_writes l)
  unfolding spd_writes
  spd_writes-Holds [] w h dis = Under-start w h dis
  spd_writes-Holds (v ∷ l) w h dis =
      part_then d (λ _ w'. Under w w') (spd_write v) _ (spd_write-Holds v) (Under-start w h dis)
        λ _ w1 k1. part_last d (spd_writes l) (spd_writes-Holds l) k1

  read_bits-Holds : (n data_ : ℕ) → Holds d (read_bits n data_)
  unfolding read_bits
  read_bits-Holds zero data_ w h dis = Under-start w h dis
  read_bits-Holds (suc n) data_ w h dis =
      part_then d (λ _ w'. Under w w') (spd_writes (0 ∷ 1 ∷ 1 ∷ [])) _
        (spd_writes-Holds (0 ∷ 1 ∷ 1 ∷ [])) (Under-start w h dis)
        λ _ w1 k1.
          part_then d (λ _ w'. Under w w') spd_read _ spd_read-Holds k1
            λ v w2 k2. part_last d (read_bits n _) (read_bits-Holds n _) k2

  sdram_eeprom_read-Holds : (noack : Bool) → Holds d (sdram_eeprom_read noack)
  unfolding sdram_eeprom_read
  sdram_eeprom_read-Holds noack w h dis =
      part_then d (λ _ w'. Under w w') (read_bits 8 0) _ (read_bits-Holds 8 0) (Under-start w h dis)
        λ v w1 k1.
          part_then d (λ _ w'. Under w w') (spd_writes _) _ (spd_writes-Holds _) k1 λ _ w2 k2. k2

  read_bytes-Holds : (n : ℕ) → Holds d (read_bytes n)
  unfolding read_bytes
  read_bytes-Holds zero w h dis = Under-start w h dis
  read_bytes-Holds (suc n) w h dis =
      part_then d (λ _ w'. Under w w') (sdram_eeprom_read false) _ (sdram_eeprom_read-Holds false)
        (Under-start w h dis)
        λ b w1 k1.
          part_then d (λ _ w'. Under w w') (read_bytes n) _ (read_bytes-Holds n) k1 λ l w2 k2. k2

  sdram_eeprom_write-Holds : (v : ℕ) → Holds d (sdram_eeprom_write v)
  unfolding sdram_eeprom_write
  sdram_eeprom_write-Holds v = spd_writes-Holds _

  pub init_sdram-Holds : Holds d init_sdram
  unfolding init_sdram
  init_sdram-Holds w h dis =
      part_then d (λ _ w'. Under w w') (spd_writes _) _ (spd_writes-Holds _) (Under-start w h dis)
        λ _ w1 k1.
          part_then d (λ _ w'. Under w w') (sdram_eeprom_write 0xa0) _
            (sdram_eeprom_write-Holds 0xa0) k1
            λ _ w2 k2.
              part_then d (λ _ w'. Under w w') (sdram_eeprom_write 0x00) _
                (sdram_eeprom_write-Holds 0x00) k2
                λ _ w3 k3.
                  part_then d (λ _ w'. Under w w') (spd_writes _) _ (spd_writes-Holds _) k3
                    λ _ w4 k4.
                      part_then d (λ _ w'. Under w w') (sdram_eeprom_write 0xa1) _
                        (sdram_eeprom_write-Holds 0xa1) k4
                        λ _ w5 k5.
                          part_then d (λ _ w'. Under w w') (read_bytes 8) _ (read_bytes-Holds 8) k5
                            λ l w6 k6.
                              part_then d (λ _ w'. Under w w') (sdram_eeprom_read true) _
                                (sdram_eeprom_read-Holds true) k6
                                λ _ w7 k7.
                                  part_then d (λ _ w'. Under w w') (spd_writes _) _
                                    (spd_writes-Holds _) k7
                                    λ _ w8 k8.
                                      part_then d (λ _ w'. Under w w') (spd_writes _) _
                                        (spd_writes-Holds _)
                                        (Under-sc _ (set_ram-Same (ram_of (signature l)).0 w8.sc)
                                          k8)
                                        λ _ w9 k9. k9

  -- Flushing the FIFO ends: it gives up after so many words.
  drain-Holds : (n status : ℕ) → Holds d (drain n status)
  unfolding drain
  drain-Holds zero status w h dis = Under-start w h dis
  drain-Holds (suc n) status w h dis = elim (Bool-cases (has status 0x200000)) [
    | inl e ↦ rw e (
        part_last d (drain n _) (drain-Holds n _)
          (Under-get sr _ (Under-get tp_data _ (Under-start w h dis))))
    | inr e ↦ rw e (elim (Bool-cases (has status 0x100000)) [
      | inl f ↦ rw f (
          part_last d (drain n _) (drain-Holds n _)
            (Under-get sr _ (Under-get tp_special _ (Under-start w h dis))))
      | inr f ↦ rw f (Under-start w h dis)
    ])
  ]

  pub flush_fifo-Holds : Holds d flush_fifo
  unfolding flush_fifo
  flush_fifo-Holds w h dis =
      part_then d (λ _ w'. Under w w') (drain _ _) _ (drain-Holds _ _)
        (Under-get sr _ (Under-put cr 2 (Under-start w h dis))) λ _ w1 k1. Under-put cr 0x20000 k1
