-- ===== src/Remote/Answer.antt =====
-- What the single transactions of sis1100_tmp_read.c and sis1100_tmp_write.c return, by what the link
-- has answered.
use mdaq_midas.Common.{
  ℕ, ◌/◌, ◌^◌, bit_and, bit_or, ◌≡◌, ◌≢◌, refl, ap, ◌⊎◌, inl, inr, ◌==◌, if◌then◌else◌, Bool-cases,
  ==→eq, ==→ne, Option, none, some, List, ◌∷◌,
}
use mdaq_midas.Bus.{
  Access, Device, World, get, put, release, sem_hw, log, polled, Responsive, t_adl, t_dal,
  raw_t_hdr, raw_tc_dal, prot_error, read_prot_error-Settled, value_at, ◌>>=◌,
}
use mdaq_midas.Bus.Spec.{Returns, Returns-cases}
use mdaq_midas.Remote.Defs.{
  header, with_am, write_am, le_dlock, confirmation_error, resolve, await_confirmation, extract,
  tmp_read, tmp_write, spread,
}
use mdaq_midas.Remote.Cycle.{opened}

-- The last accesses of t have reported e: it is the last code of prot_error; but if this says that the
-- transfer was aborted, the error of the confirmation, which is 0 if this is not one of an error.
abbrev pub Reported : List Access → ℕ → Type 0
Reported t e =
    ((s : List Access) × (t ≡ get prot_error e ∷ s) × (e ≢ 0x105))
    ⊎ ((head : ℕ) × (s : List Access) × (t ≡ get raw_t_hdr head ∷ get prot_error 0x105 ∷ s)
        × (e ≡ (if bit_and head 0x300 == 0x300 then bit_or 0x200 (head / 2 ^ 24) else 0)))

await-Reported :
    (d : Device) (w : World)
    → Responsive d
    → Returns (λ e w'. Reported w'.trace e) (await_confirmation d w)
unfolding await_confirmation resolve confirmation_error
await-Reported d w r =
    let s = read_prot_error-Settled d w r in
    let head = value_at d (get prot_error s.code ∷ polled s.rounds w.trace) raw_t_hdr in
    rw (s.returns, ◌>>=◌)
      (elim (Bool-cases (s.code == le_dlock)) [
        | inl e ↦ rw e (
            inr (
              head,
              polled s.rounds w.trace,
              ap (λ c. get raw_t_hdr head ∷ get prot_error c ∷ polled s.rounds w.trace)
                  (==→eq s.code le_dlock e),
              refl,
            ))
        | inr e ↦ rw e (inl (polled s.rounds w.trace, refl, ==→ne s.code le_dlock e))
      ])

-- A read has ended: its error is what the link has reported, and its datum the part at the address of
-- the word that raw_tc_dal has given then.
pub record Answered (size addr old : ℕ) (r : ℕ × ℕ) (w' : World) : Type 0 where
  pub word : ℕ
  pub before : List Access
  pub last : w'.trace ≡ release sem_hw ∷ get raw_tc_dal word ∷ before
  pub reported : Reported before r.0
  pub datum : r.1 ≡ extract size addr old word

pub tmp_read-Answered :
    (addr : ℕ) (am : Option ℕ) (size space old : ℕ) (d : Device) (w : World)
    → Responsive d
    → Returns (Answered size addr old) (tmp_read addr am size space old d w)
unfolding tmp_read write_am
tmp_read-Answered addr none size space old d w r =
    let head = with_am none (header 0x00000002 size space addr) in
    let w0 = log (put t_adl addr) (opened none head w) in
    let (e, w1, eq, h) = Returns-cases _ (await_confirmation d w0) (await-Reported d w0 r) in
    rw (eq, Returns)
      (record { word = _; before = w1.trace; last = refl; reported = h; datum = refl })
tmp_read-Answered addr (some am) size space old d w r =
    let head = with_am (some am) (header 0x00000002 size space addr) in
    let w0 = log (put t_adl addr) (opened (some am) head w) in
    let (e, w1, eq, h) = Returns-cases _ (await_confirmation d w0) (await-Reported d w0 r) in
    rw (eq, Returns)
      (record { word = _; before = w1.trace; last = refl; reported = h; datum = refl })

-- A write has ended, with the error that the link has reported.
abbrev pub Confirmed : ℕ → World → Type 0
Confirmed e w' = (t : List Access) × (w'.trace ≡ release sem_hw ∷ t) × Reported t e

pub tmp_write-Confirmed :
    (addr : ℕ) (am : Option ℕ) (size space v : ℕ) (d : Device) (w : World)
    → Responsive d
    → Returns Confirmed (tmp_write addr am size space v d w)
unfolding tmp_write write_am
tmp_write-Confirmed addr none size space v d w r =
    let head = with_am none (header 0x00000402 size space addr) in
    let w0 = log (put t_adl addr) (log (put t_dal (spread size v)) (opened none head w)) in
    let (e, w1, eq, h) = Returns-cases _ (await_confirmation d w0) (await-Reported d w0 r) in
    rw (eq, Returns) (w1.trace, refl, h)
tmp_write-Confirmed addr (some am) size space v d w r =
    let head = with_am (some am) (header 0x00000402 size space addr) in
    let w0 = log (put t_adl addr) (log (put t_dal (spread size v)) (opened (some am) head w)) in
    let (e, w1, eq, h) = Returns-cases _ (await_confirmation d w0) (await-Reported d w0 r) in
    rw (eq, Returns) (w1.trace, refl, h)
