-- ===== src/Remote/Single.antt =====
-- The transactions of sis1100_tmp_read.c and sis1100_tmp_write.c on VME and CAMAC addresses: the
-- registers that each writes, in order, and how it ends.
use mdaq_midas.Common.{ℕ, ◌≡◌, refl, Option, none, some, List, ◌∷◌, [], false, arith}
use mdaq_midas.Bus.{
  Access, Device, World, put, log, Responsive, t_hdr, t_adl, t_dal, raw_tc_dal, tc_dal, ident,
}
use mdaq_midas.Bus.Spec.{Returns, Returns-cases, held, Disciplined, Quiet-trans, Quiet-get}
use mdaq_midas.Remote.Defs.{
  header, with_am, write_am, await_confirmation, tmp_read, tmp_write, tmp_write_blind,
  tmp_camacread, tmp_camacwrite, spread, place,
}
use mdaq_midas.Remote.Cycle.{IsCycle, await-Returns, opening, opened, close-IsCycle}

-- tmp_read, with the header as the code puts it together.
pub tmp_read-IsCycle :
    (addr : ℕ) (am : Option ℕ) (size space old : ℕ) (d : Device) (w : World)
    → Responsive d
    → held w.trace ≡ false
    → Disciplined w.trace
    → Returns
        (λ r w'.
          IsCycle w
            (put t_adl addr ∷ opening am (with_am am (header 0x00000002 size space addr)))
            r.0
            w')
        (tmp_read addr am size space old d w)
unfolding tmp_read write_am
tmp_read-IsCycle addr none size space old d w r free dis =
    let head = with_am none (header 0x00000002 size space addr) in
    let w0 = log (put t_adl addr) (opened none head w) in
    let (e, w1, eq, h) = Returns-cases _ (await_confirmation d w0) (await-Returns d w0 r) in
    rw (eq, Returns)
      (close-IsCycle {w = w} (put t_adl addr ∷ opening none head) e refl refl refl refl
        (refl, (refl, (free, dis))) free h.0 (Quiet-trans h.1 (Quiet-get raw_tc_dal _ w1)))
tmp_read-IsCycle addr (some am) size space old d w r free dis =
    let head = with_am (some am) (header 0x00000002 size space addr) in
    let w0 = log (put t_adl addr) (opened (some am) head w) in
    let (e, w1, eq, h) = Returns-cases _ (await_confirmation d w0) (await-Returns d w0 r) in
    rw (eq, Returns)
      (close-IsCycle {w = w} (put t_adl addr ∷ opening (some am) head) e refl refl refl refl
        (refl, (refl, (refl, (free, dis)))) free h.0 (Quiet-trans h.1 (Quiet-get raw_tc_dal _ w1)))

-- The writes of a write transaction, the newest first.
abbrev pub write_sent : ℕ → Option ℕ → ℕ → ℕ → ℕ → List Access
write_sent addr am size space lanes =
    put t_adl addr ∷ put t_dal lanes ∷ opening am (with_am am (header 0x00000402 size space addr))

-- tmp_write, with the header as the code puts it together.
pub tmp_write-IsCycle :
    (addr : ℕ) (am : Option ℕ) (size space v : ℕ) (d : Device) (w : World)
    → Responsive d
    → held w.trace ≡ false
    → Disciplined w.trace
    → Returns
        (λ e w'. IsCycle w (write_sent addr am size space (spread size v)) e w')
        (tmp_write addr am size space v d w)
unfolding tmp_write write_am
tmp_write-IsCycle addr none size space v d w r free dis =
    let head = with_am none (header 0x00000402 size space addr) in
    let w0 = log (put t_adl addr) (log (put t_dal (spread size v)) (opened none head w)) in
    let (e, w1, eq, h) = Returns-cases _ (await_confirmation d w0) (await-Returns d w0 r) in
    rw (eq, Returns)
      (close-IsCycle {w = w} (write_sent addr none size space (spread size v)) e refl refl refl refl
        (refl, (refl, (refl, (free, dis)))) free h.0 h.1)
tmp_write-IsCycle addr (some am) size space v d w r free dis =
    let head = with_am (some am) (header 0x00000402 size space addr) in
    let w0 = log (put t_adl addr) (log (put t_dal (spread size v)) (opened (some am) head w)) in
    let (e, w1, eq, h) = Returns-cases _ (await_confirmation d w0) (await-Returns d w0 r) in
    rw (eq, Returns)
      (close-IsCycle {w = w} (write_sent addr (some am) size space (spread size v)) e refl refl refl
        refl (refl, (refl, (refl, (refl, (free, dis))))) free h.0 h.1)

-- With sem_hw free, tmp_write_blind ends with 0 on every device, responsive or not. It writes the
-- same registers as tmp_write in the same order, with the datum on the addressed lanes alone.
pub tmp_write_blind-IsCycle :
    (addr : ℕ) (am : Option ℕ) (size space v : ℕ) (d : Device) (w : World)
    → held w.trace ≡ false
    → Disciplined w.trace
    → Returns
        (λ e w'. (e ≡ 0) × IsCycle w (write_sent addr am size space (place size addr v)) e w')
        (tmp_write_blind addr am size space v d w)
unfolding tmp_write_blind write_am
tmp_write_blind-IsCycle addr none size space v d w free dis =
    let head = with_am none (header 0x00000402 size space addr) in
    let w0 = log (put t_adl addr) (log (put t_dal (place size addr v)) (opened none head w)) in
    (
      refl,
      close-IsCycle {w = w} {w0 = w0} (write_sent addr none size space (place size addr v)) 0 refl
          refl refl refl (refl, (refl, (refl, (free, dis)))) free (omega arith)
          (Quiet-get ident _ w0),
    )
tmp_write_blind-IsCycle addr (some am) size space v d w free dis =
    let head = with_am (some am) (header 0x00000402 size space addr) in
    let w0 = log (put t_adl addr) (log (put t_dal (place size addr v)) (opened (some am) head w)) in
    (
      refl,
      close-IsCycle {w = w} {w0 = w0} (write_sent addr (some am) size space (place size addr v)) 0
          refl refl refl refl (refl, (refl, (refl, (refl, (free, dis))))) free (omega arith)
          (Quiet-get ident _ w0),
    )

tmp_camacread-IsCycle :
    (addr : ℕ) (d : Device) (w : World)
    → Responsive d
    → held w.trace ≡ false
    → Disciplined w.trace
    → Returns
        (λ r w'. IsCycle w (put t_adl addr ∷ put t_hdr 0x0f010002 ∷ []) r.0 w')
        (tmp_camacread addr d w)
unfolding tmp_camacread
tmp_camacread-IsCycle addr d w r free dis =
    let w0 = log (put t_adl addr) (opened none 0x0f010002 w) in
    let (e, w1, eq, h) = Returns-cases _ (await_confirmation d w0) (await-Returns d w0 r) in
    rw (eq, Returns)
      (close-IsCycle {w = w} (put t_adl addr ∷ put t_hdr 0x0f010002 ∷ []) e refl refl refl refl
        (refl, (refl, (free, dis))) free h.0 (Quiet-trans h.1 (Quiet-get tc_dal _ w1)))

tmp_camacwrite-IsCycle :
    (addr v : ℕ) (d : Device) (w : World)
    → Responsive d
    → held w.trace ≡ false
    → Disciplined w.trace
    → Returns
        (λ e w'. IsCycle w (put t_adl addr ∷ put t_dal v ∷ put t_hdr 0x0f010402 ∷ []) e w')
        (tmp_camacwrite addr v d w)
unfolding tmp_camacwrite
tmp_camacwrite-IsCycle addr v d w r free dis =
    let w0 = log (put t_adl addr) (log (put t_dal v) (opened none 0x0f010402 w)) in
    let (e, w1, eq, h) = Returns-cases _ (await_confirmation d w0) (await-Returns d w0 r) in
    rw (eq, Returns)
      (close-IsCycle {w = w} (put t_adl addr ∷ put t_dal v ∷ put t_hdr 0x0f010402 ∷ []) e refl refl
        refl refl (refl, (refl, (refl, (free, dis)))) free h.0 h.1)

-- On a responsive device, with sem_hw free, CAMAC accesses end with a final code: a read writes the fixed
-- header and the address, a write the fixed header, the datum and the address, in this order and
-- nothing else. Both take sem_hw once and free it.
pub tmp_camac-IsCycle :
    (addr v : ℕ) (d : Device) (w : World)
    → Responsive d
    → held w.trace ≡ false
    → Disciplined w.trace
    → Returns
        (λ r w'. IsCycle w (put t_adl addr ∷ put t_hdr 0x0f010002 ∷ []) r.0 w')
        (tmp_camacread addr d w)
      × Returns
          (λ e w'. IsCycle w (put t_adl addr ∷ put t_dal v ∷ put t_hdr 0x0f010402 ∷ []) e w')
          (tmp_camacwrite addr v d w)
tmp_camac-IsCycle addr v d w r free dis =
    (tmp_camacread-IsCycle addr d w r free dis, tmp_camacwrite-IsCycle addr v d w r free dis)
