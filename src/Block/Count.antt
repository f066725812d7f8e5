-- ===== src/Block/Count.antt =====
-- Which words sis1100_read_loop stores, and what it returns.
use mdaq_midas.Common.{
  List, length, ne→==, ℕ, zero, suc, ◌+◌, bit_or, bit_and, ◌*◌, ◌^◌, ◌<◌, ◌≡◌, ◌≢◌, refl, sym, ap,
  ◌∙◌, ◌==◌, Bool, true, false, if◌then◌else◌, ◌||◌, Bool-cases, ==→eq, ==→ne, inl, inr, ◌⊎◌, [],
  ◌∷◌, ◌++◌, Option, none, some, arith,
}
use mathlib.Core.Path.{subst}
use mdaq_midas.Bus.{
  Port, put, acquire, when, Device, World, log, Responsive, e_dlock, t_hdr, t_am, sem_hw, ◌>>=◌,
  ◌>>◌, unlock, pure, write,
}
use mdaq_midas.Bus.Spec.{Returns, Returns-cases, held, Disciplined}
use mdaq_midas.Bus.Observed.{codes, brought}
use mdaq_midas.Remote.{write_am, with_am, extract}
use mdaq_midas.Block.Loop.{cell, one_word, next_addr, rounds, read_loop}
use mdaq_midas.Block.Round.{
  stores, cycles, visited, Run, Run-refl, Run-trans, Run-header, one_word-Round,
}

-- The words that have been stored when the cycles have brought the words vs, the newest first.
abbrev pub words_stored : ℕ → Bool → ℕ → ℕ → List ℕ → List (Port × ℕ)
words_stored size fifo_mode addr data_ [] = []
words_stored size fifo_mode addr data_ (v ∷ vs) =
    words_stored size fifo_mode (next_addr fifo_mode size addr) (data_ + size) vs
    ++ (cell size data_, extract size addr 0 v) ∷ []

-- The newest first.
abbrev pub backwards : List ℕ → List ℕ
backwards [] = []
backwards (v ∷ vs) = backwards vs ++ v ∷ []

-- After as many words as vs has, the cycle that ended with an error has been started as well.
abbrev pub attempted : ℕ → List ℕ → ℕ
attempted e vs = if e == 0 then length vs else suc (length vs)

-- Each word has had the code 0, and that cycle the error.
abbrev pub outcomes : ℕ → List ℕ → List ℕ
outcomes e [] = if e == 0 then [] else e ∷ []
outcomes e (v ∷ vs) = outcomes e vs ++ 0 ∷ []

visited-more :
    (fifo_mode : Bool) (size addr e v : ℕ) (vs : List ℕ)
    → visited fifo_mode size (next_addr fifo_mode size addr) (attempted e vs) ++ addr ∷ []
      ≡ visited fifo_mode size addr (attempted e (v ∷ vs))
visited-more fifo_mode size addr e v vs = elim (Bool-cases (e == 0)) [
  | inl p ↦ rw p refl
  | inr p ↦ rw p refl
]

-- Of n rounds those that brought the words have ended well: all of them if the error is 0.
pub record Ended (n idx size : ℕ) (fifo_mode : Bool) (addr data_ : ℕ) (w : World) (r : ℕ × ℕ)
    (w' : World) : Type 0 where
  pub words : List ℕ
  pub counted : r.0 ≡ idx + length words
  pub run :
      Run w w'
        (words_stored size fifo_mode addr data_ words)
        (visited fifo_mode size addr (attempted r.1 words))
        (backwards words)
        (outcomes r.1 words)
  pub full : r.1 ≡ 0 → length words ≡ n
  pub partial : r.1 ≢ 0 → length words < n
  pub final : r.1 ≢ e_dlock

module _ (size : ℕ) (fifo_mode : Bool) where
  none_left :
      (idx addr data_ last : ℕ) (w : World)
      → last ≡ 0
      → held w.trace ≡ true
      → Disciplined w.trace
      → Ended 0 idx size fifo_mode addr data_ w (idx, last) w
  none_left idx addr data_ last w z h dis = record {
    words = [];
    counted = omega arith;
    run =
        subst (λ e. Run w w [] (visited fifo_mode size addr (attempted e [])) [] (outcomes e []))
          (sym z) (Run-refl w h dis);
    full = λ _. refl;
    partial = λ ne. absurd (ne z);
    final = λ e. omega (arith, e, z);
  }

  failed_round :
      (n idx addr data_ e : ℕ) (w w' : World)
      → e ≢ 0
      → e ≢ e_dlock
      → Run w w' [] (addr ∷ []) [] (e ∷ [])
      → Ended (suc n) idx size fifo_mode addr data_ w (idx, e) w'
  failed_round n idx addr data_ e w w' ne fin k = record {
    words = [];
    counted = omega arith;
    run = rw (ne→== e 0 ne) k;
    full = λ z. absurd (ne z);
    partial = λ _. omega arith;
    final = fin;
  }

  good_round :
      (n idx addr data_ v : ℕ) (r : ℕ × ℕ) (w w1 w' : World)
      → Run w w1 ((cell size data_, extract size addr 0 v) ∷ []) (addr ∷ []) (v ∷ []) (0 ∷ [])
      → Ended n (idx + 1) size fifo_mode (next_addr fifo_mode size addr) (data_ + size) w1 r w'
      → Ended (suc n) idx size fifo_mode addr data_ w r w'
  good_round n idx addr data_ v r w w1 w' k f = record {
    words = v ∷ f.words;
    counted = omega (arith, f.counted);
    run =
        subst
          (λ xs.
            Run w w' (words_stored size fifo_mode addr data_ (v ∷ f.words)) xs
              (backwards (v ∷ f.words)) (outcomes r.1 (v ∷ f.words)))
          (visited-more fifo_mode size addr r.1 v f.words) (Run-trans k f.run);
    full = λ z. ap suc (f.full z);
    partial = λ ne. omega (arith, f.partial ne);
    final = f.final;
  }

rounds-Ended :
    (n idx size head : ℕ) (fifo_mode : Bool) (addr data_ last : ℕ) (d : Device) (w : World)
    → Responsive d
    → (n ≡ 0 → last ≡ 0)
    → held w.trace ≡ true
    → Disciplined w.trace
    → Returns
        (Ended n idx size fifo_mode addr data_ w)
        (rounds n idx size head fifo_mode addr data_ last d w)
unfolding rounds
rounds-Ended zero idx size head fifo_mode addr data_ last d w r z h dis =
    none_left size fifo_mode idx addr data_ last w (z refl) h dis
rounds-Ended (suc n) idx size head fifo_mode addr data_ last d w r z h dis =
    let (e, w1, eq, (fin, good, bad)) =
      Returns-cases _ (one_word size head addr data_ d w)
        (one_word-Round d r size head addr data_ w h dis) in
    elim (Bool-cases (e == 0)) [
      | inl p ↦
          let (v, run) = good (==→eq e 0 p) in
          let (x, w2, eq2, f) =
            Returns-cases _
              (rounds n (idx + 1) size head fifo_mode (next_addr fifo_mode size addr) (data_ + size)
                0 d w1)
              (rounds-Ended n (idx + 1) size head fifo_mode (next_addr fifo_mode size addr)
                (data_ + size) 0 d w1 r (λ _. refl) run.holds run.disciplined) in
          rw (eq, p, eq2, Returns) (good_round size fifo_mode n idx addr data_ v x w w1 w2 run f)
      | inr p ↦
          let ne = ==→ne e 0 p in
          rw (eq, p, Returns) (failed_round size fifo_mode n idx addr data_ e w w1 ne fin (bad ne))
    ]

is_word :
    (size : ℕ) → (size ≡ 1) ⊎ (size ≡ 2) ⊎ (size ≡ 4) → (size == 1 || size == 2 || size == 4) ≡ true
is_word size (inl e) = rw e refl
is_word size (inr (inl e)) = rw e refl
is_word size (inr (inr e)) = rw e refl

-- What a whole transfer promises.
pub record Transferred (count size : ℕ) (fifo_mode : Bool) (addr data_ : ℕ) (w : World) (r : ℕ × ℕ)
    (w' : World) : Type 0 where
  pub words : List ℕ
  pub counted : r.0 ≡ length words
  pub full : r.1 ≡ 0 → length words ≡ count
  pub partial : r.1 ≢ 0 → length words < count
  pub final : r.1 ≢ e_dlock
  pub stored : stores w'.trace ≡ words_stored size fifo_mode addr data_ words ++ stores w.trace
  pub asked : cycles w'.trace ≡ visited fifo_mode size addr (attempted r.1 words) ++ cycles w.trace
  pub answered : brought w'.trace ≡ backwards words ++ brought w.trace
  pub ended : codes w'.trace ≡ outcomes r.1 words ++ codes w.trace
  pub same_sc : w'.sc ≡ w.sc
  pub free : held w'.trace ≡ false
  pub disciplined : Disciplined w'.trace

-- From a state v under sem_hw in which nothing has been stored since w.
module _ (addr size head : ℕ) (fifo_mode : Bool) (count data_ old : ℕ) (d : Device)
    (r : Responsive d) (nz : count ≢ 0) (w : World) where
  after_opening :
      (v : World)
      → Run w v [] [] [] []
      → Returns (Transferred count size fifo_mode addr data_ w) (
          (rounds count 0 size head fifo_mode addr data_ old >>= λ result.
          unlock sem_hw >> pure result)
            d v)
  after_opening v o =
      let (x, w2, eq, f) = Returns-cases _ (rounds count 0 size head fifo_mode addr data_ old d v) (
        rounds-Ended count 0 size head fifo_mode addr data_ old d v r (λ z. absurd (nz z)) o.holds
          o.disciplined) in
      let run = f.run in
      rw (eq, Returns)
        (record {
          words = f.words;
          counted = omega (arith, f.counted);
          full = f.full;
          partial = f.partial;
          final = f.final;
          stored =
              run.stored ∙ ap (λ l. words_stored size fifo_mode addr data_ f.words ++ l) o.stored;
          asked =
              run.asked
              ∙ ap (λ l. visited fifo_mode size addr (attempted x.1 f.words) ++ l) o.asked;
          answered = run.answered ∙ ap (λ l. backwards f.words ++ l) o.answered;
          ended = run.ended ∙ ap (λ l. outcomes x.1 f.words ++ l) o.ended;
          same_sc = run.same_sc ∙ o.same_sc;
          free = refl;
          disciplined = (run.holds, run.disciplined);
        })

  after_am :
      (v : World)
      → (size ≡ 1) ⊎ (size ≡ 2) ⊎ (size ≡ 4)
      → Run w v [] [] [] []
      → Returns (Transferred count size fifo_mode addr data_ w) (
          (when (size == 4) (write t_hdr (bit_or head 0x0f000000))
              >> ((if size == 1 || size == 2 || size == 4
                    then rounds count 0 size head fifo_mode addr data_ old
                    else pure (count, old))
                  >>= λ result. unlock sem_hw >> pure result))
            d v)
  after_am v si o = rw (is_word size si) (elim (Bool-cases (size == 4)) [
    | inl e ↦
        rw e (after_opening (log (put t_hdr (bit_or head 0x0f000000)) v) (Run-header 0x80 _ refl o))
    | inr e ↦ rw e (after_opening v o)
  ])

-- sis1100_read_loop, for words of 1, 2 or 4 bytes and at least one of them, on a responsive device
-- and with sem_hw free. It ends with the number of words that it has read and an error that is not
-- the transient one: the number is the whole count if the error is 0, and less otherwise. It has
-- stored exactly these words, in order and without a gap from the start of the user's buffer, and
-- each is the part at its address of the word that raw_tc_dal has given, one for each. The cycles on
-- the link have been at the consecutive addresses of these words, and of the one that failed, or all
-- at the same address in FIFO mode; prot_error has given the code 0 for each word, and then the error
-- if there is one, after which there is no other cycle. It has changed no field of the softc, touched
-- the link only under sem_hw, and freed it.
pub read_loop-Ended :
    (addr : ℕ) (am : Option ℕ) (size space : ℕ) (fifo_mode : Bool) (count data_ old : ℕ)
    (d : Device) (w : World)
    → Responsive d
    → (size ≡ 1) ⊎ (size ≡ 2) ⊎ (size ≡ 4)
    → count ≢ 0
    → held w.trace ≡ false
    → Disciplined w.trace
    → Returns
        (Transferred count size fifo_mode addr data_ w)
        (read_loop addr am size space fifo_mode count data_ old d w)
unfolding read_loop write_am
read_loop-Ended addr none size space fifo_mode count data_ old d w r si nz free dis =
    after_am addr size (with_am none (bit_or 0x00000002 (bit_and space 0x3f * 2 ^ 16))) fifo_mode
      count data_ old d r nz w (log (acquire sem_hw) w) si
      (record {
        same_sc = refl;
        holds = refl;
        disciplined = (free, dis);
        stored = refl;
        asked = refl;
        answered = refl;
        ended = refl;
      })
read_loop-Ended addr (some am) size space fifo_mode count data_ old d w r si nz free dis =
    after_am addr size (with_am (some am) (bit_or 0x00000002 (bit_and space 0x3f * 2 ^ 16)))
      fifo_mode count data_ old d r nz w (log (put t_am am) (log (acquire sem_hw) w)) si
      (record {
        same_sc = refl;
        holds = refl;
        disciplined = (refl, (free, dis));
        stored = refl;
        asked = refl;
        answered = refl;
        ended = refl;
      })
