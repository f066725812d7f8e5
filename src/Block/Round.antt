-- ===== src/Block/Round.antt =====
-- One round of sis1100_read_loop, and what it stores.
use mdaq_midas.Common.{
  if◌then◌else◌, Bool, false, ℕ, zero, suc, ◌+◌, bit_or, ◌≡◌, ◌≢◌, refl, ap, sym, ◌∙◌, ◌==◌, true,
  Bool-cases, ==→ne, ==→eq, inl, inr, List, [], ◌∷◌, ◌++◌, arith,
}
use mathlib.Core.List.{append_assoc}
use mdaq_midas.Bus.{
  Access, Port, byte, half, word, plx, reg, raw, jiffies, now, put, get, acquire, release,
  wake_local, wake_handler, start_link_timer, dma0_hook_call, sync_block, kill, wake_remote, Device,
  World, log, Responsive, e_dlock, read_prot_error, t_hdr, t_adl, raw_tc_dal, value_at, ◌>>=◌, ◌>>◌,
  write,
}
use mdaq_midas.Bus.Spec.{Returns, Returns-cases, held, Disciplined, writes, is_link, Touches-held}
use mdaq_midas.Bus.Observed.{codes, brought, Polled, read_prot_error-Polled}
use mdaq_midas.Remote.{extract}
use mdaq_midas.Block.Loop.{cell, lanes, store_word, one_word, next_addr}

-- The user memory that has been written, the newest first.
abbrev pub stores : List Access → List (Port × ℕ)
stores [] = []
stores (put (byte a) v ∷ t) = (byte a, v) ∷ stores t
stores (put (half a) v ∷ t) = (half a, v) ∷ stores t
stores (put (word a) v ∷ t) = (word a, v) ∷ stores t
stores (_ ∷ t) = stores t

-- n places of `size` bytes from data_ on, the newest first.
abbrev pub filled : ℕ → ℕ → ℕ → List Port
filled size data_ zero = []
filled size data_ (suc n) = filled size (data_ + size) n ++ cell size data_ ∷ []

-- The addresses of the cycles that have been started on the link, the newest first.
abbrev pub cycles : List Access → List ℕ
cycles [] = []
cycles (put (reg n) v ∷ t) = if n == 0x88 then v ∷ cycles t else cycles t
cycles (_ ∷ t) = cycles t

-- The addresses of n cycles from addr on, the newest first.
abbrev pub visited : Bool → ℕ → ℕ → ℕ → List ℕ
visited fifo_mode size addr zero = []
visited fifo_mode size addr (suc n) =
    visited fifo_mode size (next_addr fifo_mode size addr) n ++ addr ∷ []

stores-writes : (t t' : List Access) → writes t ≡ writes t' → stores t ≡ stores t'
stores-writes t t' e = by_writes t ∙ ap stores e ∙ sym (by_writes t')
  where
    by_writes : (t : List Access) → stores t ≡ stores (writes t)
    by_writes [] = refl
    by_writes (put (plx n) v ∷ t) = by_writes t
    by_writes (put (reg n) v ∷ t) = by_writes t
    by_writes (put (raw n) v ∷ t) = by_writes t
    by_writes (put (byte n) v ∷ t) = ap (λ l. (byte n, v) ∷ l) (by_writes t)
    by_writes (put (half n) v ∷ t) = ap (λ l. (half n, v) ∷ l) (by_writes t)
    by_writes (put (word n) v ∷ t) = ap (λ l. (word n, v) ∷ l) (by_writes t)
    by_writes (put jiffies v ∷ t) = by_writes t
    by_writes (put now v ∷ t) = by_writes t
    by_writes (get p v ∷ t) = by_writes t
    by_writes (acquire l ∷ t) = by_writes t
    by_writes (release l ∷ t) = by_writes t
    by_writes (wake_local ∷ t) = by_writes t
    by_writes (wake_handler ∷ t) = by_writes t
    by_writes (start_link_timer ∷ t) = by_writes t
    by_writes (dma0_hook_call ∷ t) = by_writes t
    by_writes (sync_block b ∷ t) = by_writes t
    by_writes (kill p s ∷ t) = by_writes t
    by_writes (wake_remote ∷ t) = by_writes t

cycles-writes : (t t' : List Access) → writes t ≡ writes t' → cycles t ≡ cycles t'
cycles-writes t t' e = by_writes t ∙ ap cycles e ∙ sym (by_writes t')
  where
    step :
        (b : Bool) (v : ℕ) {l l' : List ℕ}
        → l ≡ l'
        → (if b then v ∷ l else l) ≡ (if b then v ∷ l' else l')
    step true v p = ap (λ l. v ∷ l) p
    step false v p = p

    by_writes : (t : List Access) → cycles t ≡ cycles (writes t)
    by_writes [] = refl
    by_writes (put (plx n) v ∷ t) = by_writes t
    by_writes (put (reg n) v ∷ t) = step (n == 0x88) v (by_writes t)
    by_writes (put (raw n) v ∷ t) = by_writes t
    by_writes (put (byte n) v ∷ t) = by_writes t
    by_writes (put (half n) v ∷ t) = by_writes t
    by_writes (put (word n) v ∷ t) = by_writes t
    by_writes (put jiffies v ∷ t) = by_writes t
    by_writes (put now v ∷ t) = by_writes t
    by_writes (get p v ∷ t) = by_writes t
    by_writes (acquire l ∷ t) = by_writes t
    by_writes (release l ∷ t) = by_writes t
    by_writes (wake_local ∷ t) = by_writes t
    by_writes (wake_handler ∷ t) = by_writes t
    by_writes (start_link_timer ∷ t) = by_writes t
    by_writes (dma0_hook_call ∷ t) = by_writes t
    by_writes (sync_block b ∷ t) = by_writes t
    by_writes (kill p s ∷ t) = by_writes t
    by_writes (wake_remote ∷ t) = by_writes t

-- A part of a block transfer, under sem_hw: it has stored l after cycles at the addresses xs that have
-- brought the words vs and ended with the codes cs.
pub record Run (w w' : World) (l : List (Port × ℕ)) (xs vs cs : List ℕ) : Type 0 where
  pub same_sc : w'.sc ≡ w.sc
  pub holds : held w'.trace ≡ true
  pub disciplined : Disciplined w'.trace
  pub stored : stores w'.trace ≡ l ++ stores w.trace
  pub asked : cycles w'.trace ≡ xs ++ cycles w.trace
  pub answered : brought w'.trace ≡ vs ++ brought w.trace
  pub ended : codes w'.trace ≡ cs ++ codes w.trace

pub Run-refl : (w : World) → held w.trace ≡ true → Disciplined w.trace → Run w w [] [] [] []
Run-refl w h dis = record {
  same_sc = refl;
  holds = h;
  disciplined = dis;
  stored = refl;
  asked = refl;
  answered = refl;
  ended = refl;
}

joined :
    {A : Type 0} (xs ys a : List A) {b c : List A} → b ≡ xs ++ a → c ≡ ys ++ b → c ≡ (ys ++ xs) ++ a
joined xs ys a p q = q ∙ ap (λ l. ys ++ l) p ∙ sym (append_assoc ys xs a)

pub Run-trans :
    {u v w : World} {l m : List (Port × ℕ)} {xs ys vs us cs es : List ℕ}
    → Run u v l xs vs cs
    → Run v w m ys us es
    → Run u w (m ++ l) (ys ++ xs) (us ++ vs) (es ++ cs)
Run-trans {u = u} {l = l} {m = m} {xs = xs} {ys = ys} {vs = vs} {us = us} {cs = cs} {es = es} a b =
    record {
      same_sc = b.same_sc ∙ a.same_sc;
      holds = b.holds;
      disciplined = b.disciplined;
      stored = joined l m (stores u.trace) a.stored b.stored;
      asked = joined xs ys (cycles u.trace) a.asked b.asked;
      answered = joined vs us (brought u.trace) a.answered b.answered;
      ended = joined cs es (codes u.trace) a.ended b.ended;
    }

Polled-Run :
    (w w' : World) (e : ℕ)
    → Polled w e w'
    → held w.trace ≡ true
    → Disciplined w.trace
    → Run w w' [] [] [] (e ∷ [])
Polled-Run w w' e p h dis = record {
  same_sc = p.quiet.same_sc;
  holds = p.quiet.same_held ∙ h;
  disciplined = p.quiet.keeps h dis;
  stored = stores-writes w'.trace w.trace p.quiet.same_writes;
  asked = cycles-writes w'.trace w.trace p.quiet.same_writes;
  answered = p.same_brought;
  ended = p.answer;
}

-- A register of the link is written that starts no cycle.
pub Run-header :
    {u w : World} {l : List (Port × ℕ)} {xs vs cs : List ℕ} (n v : ℕ)
    → (n == 0x88) ≡ false
    → Run u w l xs vs cs
    → Run u (log (put (reg n) v) w) l xs vs cs
Run-header n v a k = record {
  same_sc = k.same_sc;
  holds = k.holds;
  disciplined = (Touches-held (is_link (reg n)) k.holds, k.disciplined);
  stored = k.stored;
  asked = rw a k.asked;
  answered = k.answered;
  ended = k.ended;
}

cell-stores :
    (size a v : ℕ) (t : List Access)
    → stores (put (cell size a) v ∷ t) ≡ (cell size a, v) ∷ stores t
cell-stores size a v t = elim (Bool-cases (size == 1)) [
  | inl e ↦ rw e refl
  | inr e ↦ elim (Bool-cases (size == 2)) [ inl f ↦ rw (e, f) refl | inr f ↦ rw (e, f) refl ]
]

cell-cycles : (size a v : ℕ) (t : List Access) → cycles (put (cell size a) v ∷ t) ≡ cycles t
cell-cycles size a v t = elim (Bool-cases (size == 1)) [
  | inl e ↦ rw e refl
  | inr e ↦ elim (Bool-cases (size == 2)) [ inl f ↦ rw (e, f) refl | inr f ↦ rw (e, f) refl ]
]

cell-Disciplined :
    (size a v : ℕ) (t : List Access) → Disciplined t → Disciplined (put (cell size a) v ∷ t)
cell-Disciplined size a v t dis = elim (Bool-cases (size == 1)) [
  | inl e ↦ rw e (tt, dis)
  | inr e ↦ elim (Bool-cases (size == 2)) [
    | inl f ↦ rw (e, f) (tt, dis)
    | inr f ↦ rw (e, f) (tt, dis)
  ]
]

-- Of a round that ends with the code e: without an error the word that it has brought is stored, and
-- else nothing.
abbrev pub Round : World → ℕ → ℕ → ℕ → ℕ → World → Type 0
Round w size addr data_ e w' =
    (e ≢ e_dlock)
    × (e ≡ 0
        → (v : ℕ) × Run w w' ((cell size data_, extract size addr 0 v) ∷ []) (addr ∷ []) (v ∷ [])
            (0 ∷ []))
    × (e ≢ 0 → Run w w' [] (addr ∷ []) [] (e ∷ []))

store_word-Round :
    (size addr data_ e : ℕ) (d : Device) (w w1 : World)
    → e ≢ e_dlock
    → Run w w1 [] (addr ∷ []) [] (e ∷ [])
    → Returns (Round w size addr data_) (store_word size addr data_ e d w1)
unfolding store_word
store_word-Round size addr data_ e d w w1 ne k = elim (Bool-cases (e == 0)) [
  | inl z ↦ rw z (
    omega arith,
    (λ _. (value_at d w1.trace raw_tc_dal, stored (==→eq e 0 z))),
    (λ n. absurd (n refl)),
  )
  | inr z ↦ rw z (ne, (λ p. absurd (==→ne e 0 z p)), (λ _. k))
]
  where
    val : ℕ
    val = value_at d w1.trace raw_tc_dal

    t1 : List Access
    t1 = get raw_tc_dal val ∷ w1.trace

    stored :
        e ≡ 0
        → Run w
            (record w1 { trace = put (cell size data_) (extract size addr 0 val) ∷ t1 })
            ((cell size data_, extract size addr 0 val) ∷ [])
            (addr ∷ [])
            (val ∷ [])
            (0 ∷ [])
    stored z = record {
      same_sc = k.same_sc;
      holds = k.holds;
      disciplined =
          cell-Disciplined size data_ (extract size addr 0 val) t1 (k.holds, k.disciplined);
      stored =
          cell-stores size data_ (extract size addr 0 val) t1
          ∙ ap (λ l. (cell size data_, extract size addr 0 val) ∷ l) k.stored;
      asked = cell-cycles size data_ (extract size addr 0 val) t1 ∙ k.asked;
      answered = ap (λ l. val ∷ l) k.answered;
      ended = k.ended ∙ ap (λ c. c ∷ codes w.trace) z;
    }

module _ (d : Device) (r : Responsive d) where
  after_header :
      (size addr data_ : ℕ) (w v : World)
      → Run w v [] [] [] []
      → Returns
          (Round w size addr data_)
          ((write t_adl addr >> (read_prot_error >>= store_word size addr data_)) d v)
  after_header size addr data_ w v k =
      let v1 = log (put t_adl addr) v in
      let (e, v2, eq, p) = Returns-cases _ (read_prot_error d v1) (read_prot_error-Polled d v1 r) in
      let k1 : Run w v1 [] (addr ∷ []) [] [] = record {
        same_sc = k.same_sc;
        holds = k.holds;
        disciplined = (k.holds, k.disciplined);
        stored = k.stored;
        asked = ap (λ l. addr ∷ l) k.asked;
        answered = k.answered;
        ended = k.ended;
      } in
      rw (eq, Returns)
        (store_word-Round size addr data_ e d w v2 p.final
          (Run-trans k1 (Polled-Run v1 v2 e p k1.holds k1.disciplined)))

  pub one_word-Round :
      (size head addr data_ : ℕ) (w : World)
      → held w.trace ≡ true
      → Disciplined w.trace
      → Returns (Round w size addr data_) (one_word size head addr data_ d w)
  unfolding one_word
  one_word-Round size head addr data_ w h dis = elim (Bool-cases (size == 4)) [
    | inl e ↦ rw e (after_header size addr data_ w w (Run-refl w h dis))
    | inr e ↦ rw e (
        after_header size addr data_ w (log (put t_hdr (bit_or head (lanes size addr))) w)
          (Run-header 0x80 _ refl (Run-refl w h dis)))
  ]
