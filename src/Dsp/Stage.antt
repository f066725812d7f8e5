-- ===== src/Dsp/Stage.antt =====
-- What a part of sis1100_dsp_load (sis3100/sis1100-2.13/src/sis1100_dsp.c) has taken from user memory
-- and written to the link, as it is read off the trace.
use mdaq_midas.Common.{
  bit_or, ℕ, zero, suc, ◌+◌, ◌%◌, ◌^◌, ◌≡◌, refl, ap, ◌∙◌, Bool, true, false, List, [], ◌∷◌,
}
use mdaq_midas.Bus.{
  Access, get, put, acquire, byte, Device, World, log, t_hdr, t_dal, t_adl, sem_hw, polled,
  Responsive, read_prot_error-Settled, prot_error, e_dlock, ◌>>=◌,
}
use mdaq_midas.Bus.Spec.{
  Returns, Returns-cases, writes, held, Disciplined, writes-polled, held-polled, polled-Disciplined,
}
use mdaq_midas.Bus.Observed.{codes, codes-final, codes-polled}
use mdaq_midas.Dsp.Code.{
  Instruction, write_to_dsp, get_instruction, load_instruction, low_word, high_word, sharc_d48,
}

-- The bytes that have been taken from user memory, the newest first.
abbrev pub taken : List Access → List (ℕ × ℕ)
taken [] = []
taken (get (byte a) v ∷ t) = (a, v % 2 ^ 8) ∷ taken t
taken (_ ∷ t) = taken t

-- The registers ws have been written, the bytes bs taken, and the codes cs answered since u; b says
-- whether sem_hw is held.
pub record Stage (b : Bool) (u w : World) (ws : List Access) (bs : List (ℕ × ℕ)) (cs : List ℕ)
    : Type 0 where
  pub same_sc : w.sc ≡ u.sc
  pub lock : held w.trace ≡ b
  pub disciplined : Disciplined w.trace
  pub written : writes w.trace ≡ ws
  pub bytes : taken w.trace ≡ bs
  pub answers : codes w.trace ≡ cs

taken-polled : (k : ℕ) (t : List Access) → taken (polled k t) ≡ taken t
taken-polled zero t = refl
taken-polled (suc k) t = taken-polled k (get prot_error e_dlock ∷ t)

-- One word for the DSP, the newest access first.
abbrev pub word_sent : ℕ → ℕ → List Access → List Access
word_sent addr v ws = put t_adl addr ∷ put t_dal v ∷ put t_hdr 0x0f060402 ∷ ws

-- One instruction: its low word goes to the register for 48 digits, its high word to its address.
abbrev pub instruction_sent : ℕ → Instruction → List Access → List Access
instruction_sent addr v ws = word_sent addr (high_word v) (word_sent sharc_d48 (low_word v) ws)

-- The six bytes of an instruction.
abbrev pub instruction_taken : ℕ → Instruction → List (ℕ × ℕ) → List (ℕ × ℕ)
instruction_taken a v bs =
    (a + 5, v.v5) ∷ (a + 4, v.v4) ∷ (a + 3, v.v3) ∷ (a + 2, v.v2) ∷ (a + 1, v.v1) ∷ (a, v.v0) ∷ bs

module _ (d : Device) (r : Responsive d) {u : World} where
  write_to_dsp-Stage :
      (addr v : ℕ) (w : World) {ws : List Access} {bs : List (ℕ × ℕ)} {cs : List ℕ}
      → Stage true u w ws bs cs
      → Returns
          (λ e w'. Stage true u w' (word_sent addr v ws) bs (e ∷ cs))
          (write_to_dsp addr v d w)
  unfolding write_to_dsp
  write_to_dsp-Stage addr v w k =
      let w0 = log (put t_adl addr) (log (put t_dal v) (log (put t_hdr 0x0f060402) w)) in
      let s = read_prot_error-Settled d w0 r in
      rw (s.returns, Returns)
        (record {
          same_sc = k.same_sc;
          lock = held-polled s.rounds w0.trace ∙ k.lock;
          disciplined = (
            held-polled s.rounds w0.trace ∙ k.lock,
            polled-Disciplined s.rounds w0.trace k.lock (k.lock, (k.lock, (k.lock, k.disciplined))),
          );
          written = writes-polled s.rounds w0.trace ∙ ap (word_sent addr v) k.written;
          bytes = taken-polled s.rounds w0.trace ∙ k.bytes;
          answers =
              codes-final s.code (polled s.rounds w0.trace) s.final
              ∙ ap (λ l. s.code ∷ l) (codes-polled s.rounds w0.trace ∙ k.answers);
        })

  get_instruction-Stage :
      (code : ℕ) (w : World) {ws : List Access} {bs : List (ℕ × ℕ)} {cs : List ℕ}
      → Stage false u w ws bs cs
      → Returns
          (λ v w'. Stage false u w' ws (instruction_taken code v bs) cs)
          (get_instruction code d w)
  unfolding get_instruction
  get_instruction-Stage code w k = record {
    same_sc = k.same_sc;
    lock = k.lock;
    disciplined = (tt, (tt, (tt, (tt, (tt, (tt, k.disciplined))))));
    written = k.written;
    bytes = ap (instruction_taken code _) k.bytes;
    answers = k.answers;
  }

  pub load_instruction-Stage :
      (code addr : ℕ) (w : World) {ws : List Access} {bs : List (ℕ × ℕ)} {cs : List ℕ}
      → Stage false u w ws bs cs
      → Returns
          (λ e w'.
            (v : Instruction) × (e1 : ℕ) × (e2 : ℕ) × (e ≡ bit_or e1 e2)
            × Stage false u w'
                (instruction_sent addr v ws)
                (instruction_taken code v bs)
                (e2 ∷ e1 ∷ cs))
          (load_instruction code addr d w)
  unfolding load_instruction
  load_instruction-Stage code addr w k =
      let (v, w1, eq1, k1) =
        Returns-cases _ (get_instruction code d w) (get_instruction-Stage code w k) in
      let k2 : Stage true u (log (acquire sem_hw) w1) _ _ _ = record {
        same_sc = k1.same_sc;
        lock = refl;
        disciplined = (k1.lock, k1.disciplined);
        written = k1.written;
        bytes = k1.bytes;
        answers = k1.answers;
      } in
      let (e1, w3, eq3, k3) =
        Returns-cases _ (write_to_dsp sharc_d48 (low_word v) d (log (acquire sem_hw) w1))
          (write_to_dsp-Stage sharc_d48 (low_word v) _ k2) in
      let (e2, w4, eq4, k4) =
        Returns-cases _ (write_to_dsp addr (high_word v) d w3)
          (write_to_dsp-Stage addr (high_word v) w3 k3) in
      rw (eq1, ◌>>=◌)
        (rw (eq3, ◌>>=◌)
          (rw (eq4, Returns)
            (
              v,
              e1,
              e2,
              refl,
              record {
                same_sc = k4.same_sc;
                lock = refl;
                disciplined = (k4.lock, k4.disciplined);
                written = k4.written;
                bytes = k4.bytes;
                answers = k4.answers;
              },
            )))
