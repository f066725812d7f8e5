-- ===== src/Files/Far.antt =====
-- What sis1100_pipe_ctrl_read_remote (sis3100/sis1100-2.13/src/sis1100_ctrl_rw_block.c) reads.
use mdaq_midas.Common.{
  ℕ, zero, suc, ◌+◌, ◌≡◌, ◌≢◌, ◌<◌, ◌⊎◌, inl, inr, refl, ap, ◌∙◌, ◌==◌, ==→ne, ==→eq, Bool, true,
  false, Bool-cases, List, [], ◌∷◌, length, arith,
}
use mathlib.Core.Path.{subst}
use mdaq_midas.Bus.{
  Access, get, put, acquire, word, sem_hw, t_hdr, t_adl, raw_tc_dal, value_at, log, Device, World,
  Responsive, read_prot_error, ◌>>=◌,
}
use mdaq_midas.Bus.Spec.{Returns, Returns-cases, writes, held, Disciplined}
use mdaq_midas.Bus.Observed.{codes, brought, zeros, one_by_one, read_prot_error-Polled}
use mdaq_midas.Files.Registers.{next_register, read_remote_loop, ctrl_read_remote_block}

-- For each word a cycle at its address, and the word in user memory; the newest access first.
abbrev pub words_read : Bool → ℕ → ℕ → List ℕ → List Access → List Access
words_read fifo addr data_ [] ws = ws
words_read fifo addr data_ (v ∷ vs) ws =
    words_read fifo (next_register fifo addr) (data_ + 4) vs
      (put (word data_) v ∷ put t_adl addr ∷ ws)

-- The address after so many words.
abbrev pub register_after : Bool → ℕ → ℕ → ℕ
register_after fifo addr zero = addr
register_after fifo addr (suc k) = register_after fifo (next_register fifo addr) k

-- After idx words, n more have been read, or some of them and the first error.
pub record Fetched (fifo : Bool) (u : World) (n idx addr data_ : ℕ) (ws : List Access)
    (bs cs : List ℕ) (out : ℕ × ℕ) (w' : World) : Type 0 where
  pub values : List ℕ
  pub count : out.0 ≡ length values + idx
  pub outcome :
      ((out.1 ≡ 0)
        × (length values ≡ n)
        × (codes w'.trace ≡ zeros (length values) cs)
        × (writes w'.trace ≡ words_read fifo addr data_ values ws))
      ⊎ ((out.1 ≢ 0)
          × (length values < n)
          × (codes w'.trace ≡ out.1 ∷ zeros (length values) cs)
          × (writes w'.trace
              ≡ put t_adl (register_after fifo addr (length values))
                ∷ words_read fifo addr data_ values ws))
  pub answered : brought w'.trace ≡ one_by_one values bs
  pub same_sc : w'.sc ≡ u.sc
  pub lock : held w'.trace ≡ true
  pub disciplined : Disciplined w'.trace

-- What is known of the rest, from what is known of the first word.
begun :
    (fifo : Bool) {u : World} (n idx addr data_ v : ℕ) (out : ℕ × ℕ) (w' : World)
    {ws ws' : List Access} {bs bs' cs cs' : List ℕ}
    → ws' ≡ ws
    → bs' ≡ bs
    → cs' ≡ cs
    → Fetched fifo u n
        (suc idx)
        (next_register fifo addr)
        (data_ + 4)
        (put (word data_) v ∷ ws')
        (v ∷ bs')
        cs'
        out
        w'
    → Fetched fifo u n
        (suc idx)
        (next_register fifo addr)
        (data_ + 4)
        (put (word data_) v ∷ ws)
        (v ∷ bs)
        cs
        out
        w'
begun fifo {u} n idx addr data_ v out w' {ws} {ws'} {bs} {bs'} {cs} {cs'} a b c f =
    subst
      (λ cs.
        Fetched fifo u n (suc idx) (next_register fifo addr) (data_ + 4) (put (word data_) v ∷ ws)
          (v ∷ bs) cs out w')
      c
      (subst
        (λ bs.
          Fetched fifo u n (suc idx) (next_register fifo addr) (data_ + 4) (put (word data_) v ∷ ws)
            (v ∷ bs) cs' out w')
        b
        (subst
          (λ ws.
            Fetched fifo u n (suc idx) (next_register fifo addr) (data_ + 4)
              (put (word data_) v ∷ ws) (v ∷ bs') cs' out w')
          a f))

read_remote_loop-Fetched :
    (d : Device) (r : Responsive d) (u : World) (n idx : ℕ) (fifo : Bool) (addr data_ : ℕ)
    (w : World)
    → w.sc ≡ u.sc
    → held w.trace ≡ true
    → Disciplined w.trace
    → Returns
        (Fetched fifo u n idx addr data_ (writes w.trace) (brought w.trace) (codes w.trace))
        (read_remote_loop n idx fifo addr data_ d w)
unfolding read_remote_loop
read_remote_loop-Fetched d r u zero idx fifo addr data_ w s h dis = record {
  values = [];
  count = omega arith;
  outcome = inl (refl, refl, refl, refl);
  answered = refl;
  same_sc = s;
  lock = h;
  disciplined = dis;
}
read_remote_loop-Fetched d r u (suc n) idx fifo addr data_ w s h dis =
    let w0 = log (put t_adl addr) w in
    let (error, w1, eq, p) =
      Returns-cases _ (read_prot_error d w0) (read_prot_error-Polled d w0 r) in
    let q = p.quiet in
    let lock = q.same_held ∙ h in
    let safe = q.keeps h (h, dis) in
    let v = value_at d w1.trace raw_tc_dal in
    let w2 = log (put (word data_) v) (log (get raw_tc_dal v) w1) in
    rw (eq, ◌>>=◌)
      (elim (Bool-cases (error == 0)) [
        | inr e ↦ rw e (record {
          values = [];
          count = omega arith;
          outcome = inr (==→ne error 0 e, omega arith, p.answer, q.same_writes);
          answered = p.same_brought;
          same_sc = q.same_sc ∙ s;
          lock = lock;
          disciplined = safe;
        })
        | inl e ↦
            let (out, w3, eq3, f) =
              Returns-cases _
                (read_remote_loop n (suc idx) fifo (next_register fifo addr) (data_ + 4) d w2)
                (read_remote_loop-Fetched d r u n (suc idx) fifo (next_register fifo addr)
                  (data_ + 4) w2 (q.same_sc ∙ s) lock (tt, (lock, safe))) in
            let g =
              begun fifo n idx addr data_ v out w3 q.same_writes p.same_brought
                (p.answer ∙ ap (λ c. c ∷ codes w.trace) (==→eq error 0 e)) f in
            rw (e, eq3, Returns)
              (record {
                values = v ∷ g.values;
                count = omega (arith, g.count);
                outcome = elim g.outcome [
                  | inl (a, b, k, c) ↦ inl (a, ap suc b, k, c)
                  | inr (a, b, k, c) ↦ inr (a, omega (arith, b), k, c)
                ];
                answered = g.answered;
                same_sc = g.same_sc;
                lock = g.lock;
                disciplined = g.disciplined;
              })
      ])

-- What sis1100_pipe_ctrl_read_remote has done.
pub record FarRead (fifo : Bool) (addr count data_ : ℕ) (w : World) (out : ℕ × ℕ) (w' : World)
    : Type 0 where
  pub values : List ℕ
  pub counted : out.0 ≡ length values
  pub outcome :
      ((out.1 ≡ 0)
        × (length values ≡ count)
        × (codes w'.trace ≡ zeros (length values) (codes w.trace))
        × (writes w'.trace
            ≡ words_read fifo addr data_ values (put t_hdr 0x0f000002 ∷ writes w.trace)))
      ⊎ ((out.1 ≢ 0)
          × (length values < count)
          × (codes w'.trace ≡ out.1 ∷ zeros (length values) (codes w.trace))
          × (writes w'.trace
              ≡ put t_adl (register_after fifo addr (length values))
                ∷ words_read fifo addr data_ values (put t_hdr 0x0f000002 ∷ writes w.trace)))
  pub answered : brought w'.trace ≡ one_by_one values (brought w.trace)
  pub same_sc : w'.sc ≡ w.sc
  pub free : held w'.trace ≡ false
  pub disciplined : Disciplined w'.trace

-- sis1100_pipe_ctrl_read_remote on a responsive device, with sem_hw free, ends. It writes the header, and
-- for each word the address of its cycle, which for a FIFO is always the same and else the next
-- register's, and the word to the next place of user memory, and nothing else. The words are those that
-- raw_tc_dal has given, one for each and in this order. Either they are `count` words, *prot_error is 0,
-- and prot_error has given the code 0 for each of them; or they are fewer, prot_error has given 0 for each
-- of them and then, as the last code of all, *prot_error, which is not 0. *count_read is the number of
-- words. The softc is as before, the link is
-- touched only under sem_hw, and this is free again.
pub ctrl_read_remote_block-FarRead :
    (addr : ℕ) (fifo : Bool) (count data_ : ℕ) (d : Device) (w : World)
    → Responsive d
    → held w.trace ≡ false
    → Disciplined w.trace
    → Returns (FarRead fifo addr count data_ w) (ctrl_read_remote_block addr fifo count data_ d w)
unfolding ctrl_read_remote_block
ctrl_read_remote_block-FarRead addr fifo count data_ d w r free dis =
    let w1 = log (put t_hdr 0x0f000002) (log (acquire sem_hw) w) in
    let (out, w2, eq, f) =
      Returns-cases _ (read_remote_loop count 0 fifo addr data_ d w1)
        (read_remote_loop-Fetched d r w count 0 fifo addr data_ w1 refl refl (refl, (free, dis))) in
    rw (eq, Returns)
      (record {
        values = f.values;
        counted = omega (arith, f.count);
        outcome = f.outcome;
        answered = f.answered;
        same_sc = f.same_sc;
        free = refl;
        disciplined = (f.lock, f.disciplined);
      })
