-- ===== src/Bus/Observed.antt =====
-- What the other side has answered, as it is read off a trace: the codes that end transactions, and
-- the words that they bring.
use mdaq_midas.Common.{
  ℕ, zero, suc, ◌≡◌, ◌≢◌, refl, ap, ◌∙◌, ◌==◌, not, ◌&&◌, if◌then◌else◌, ne→==, List, [], ◌∷◌,
}
use mdaq_midas.Bus.Monad.{reg, raw, Access, get, Device, World}
use mdaq_midas.Bus.Regs.{prot_error}
use mdaq_midas.Bus.Poll.{e_dlock, polled, Responsive, read_prot_error, read_prot_error-Settled}
use mdaq_midas.Bus.Spec.{
  Returns, Quiet, writes-polled, held-polled, locks-polled, polled-Disciplined,
}

-- What prot_error has answered apart from the transient code, the newest first.
abbrev pub codes : List Access → List ℕ
codes [] = []
codes (get (reg n) v ∷ t) = if n == 0xac && not (v == e_dlock) then v ∷ codes t else codes t
codes (_ ∷ t) = codes t

-- What has been read from raw_tc_dal, the newest first.
abbrev pub brought : List Access → List ℕ
brought [] = []
brought (get (raw n) v ∷ t) = if n == 0xa0 then v ∷ brought t else brought t
brought (_ ∷ t) = brought t

-- k transactions without an error, after the codes cs.
abbrev pub zeros : ℕ → List ℕ → List ℕ
zeros zero cs = cs
zeros (suc k) cs = zeros k (0 ∷ cs)

-- These values one after the other, after vs.
abbrev pub one_by_one : List ℕ → List ℕ → List ℕ
one_by_one [] vs = vs
one_by_one (v ∷ l) vs = one_by_one l (v ∷ vs)

pub codes-polled : (k : ℕ) (t : List Access) → codes (polled k t) ≡ codes t
codes-polled zero t = refl
codes-polled (suc k) t = codes-polled k (get prot_error e_dlock ∷ t)

brought-polled : (k : ℕ) (t : List Access) → brought (polled k t) ≡ brought t
brought-polled zero t = refl
brought-polled (suc k) t = brought-polled k (get prot_error e_dlock ∷ t)

pub codes-final :
    (e : ℕ) (t : List Access) → e ≢ e_dlock → codes (get prot_error e ∷ t) ≡ e ∷ codes t
codes-final e t ne = rw (ne→== e e_dlock ne) refl

-- The busy wait has ended with the code e.
pub record Polled (w : World) (e : ℕ) (w' : World) : Type 0 where
  pub final : e ≢ e_dlock
  pub quiet : Quiet w w'
  pub answer : codes w'.trace ≡ e ∷ codes w.trace
  pub same_brought : brought w'.trace ≡ brought w.trace

pub read_prot_error-Polled :
    (d : Device) (w : World) → Responsive d → Returns (λ e w'. Polled w e w') (read_prot_error d w)
read_prot_error-Polled d w r =
    let s = read_prot_error-Settled d w r in
    rw s.returns (record {
      final = s.final;
      quiet = record {
        same_sc = refl;
        same_writes = writes-polled s.rounds w.trace;
        same_held = held-polled s.rounds w.trace;
        same_locks = locks-polled s.rounds w.trace;
        keeps = λ h c. (held-polled s.rounds w.trace ∙ h, polled-Disciplined s.rounds w.trace h c);
      };
      answer =
          codes-final s.code (polled s.rounds w.trace) s.final
          ∙ ap (λ l. s.code ∷ l) (codes-polled s.rounds w.trace);
      same_brought = brought-polled s.rounds w.trace;
    })
