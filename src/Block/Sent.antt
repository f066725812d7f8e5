-- ===== src/Block/Sent.antt =====
-- What sis1100_write_loop (sis3100/sis1100-2.13/src/sis1100_write_loop.c) sends, and what it returns.
use mdaq_midas.Common.{
  ℕ, ◌≡◌, refl, ap, ◌==◌, Bool, true, false, if◌then◌else◌, Bool-cases, inl, inr, List, [], ◌∷◌,
  ◌++◌,
}
use mdaq_midas.Bus.{Port, Access, get, put, Device, World, log, value_at, t_adl, t_dal}
use mdaq_midas.Bus.Spec.{Returns, held, Disciplined, is_link, Touches-held}
use mdaq_midas.Block.Loop.{cell}
use mdaq_midas.Block.Send.{widen, send_cell}
use mdaq_midas.Block.Round.{visited}
use mdaq_midas.Block.Part.{Part, Part-put, loads}

abbrev pub ports : List (Port × ℕ) → List Port
ports [] = []
ports ((p, v) ∷ l) = p ∷ ports l

-- The data that are due on the link for the words that have been loaded.
abbrev pub due : ℕ → List (Port × ℕ) → List ℕ
due size [] = []
due size ((p, v) ∷ l) = widen size v ∷ due size l

pub ports-append : (l m : List (Port × ℕ)) → ports (l ++ m) ≡ ports l ++ ports m
ports-append [] m = refl
ports-append ((p, v) ∷ l) m = ap (λ r. p ∷ r) (ports-append l m)

pub due-append : (size : ℕ) (l m : List (Port × ℕ)) → due size (l ++ m) ≡ due size l ++ due size m
due-append size [] m = refl
due-append size ((p, v) ∷ l) m = ap (λ r. widen size v ∷ r) (due-append size l m)

loads-cell :
    (size a v : ℕ) (t : List Access) → loads (get (cell size a) v ∷ t) ≡ (cell size a, v) ∷ loads t
loads-cell size a v t = elim (Bool-cases (size == 1)) [
  | inl e ↦ rw e refl
  | inr e ↦ elim (Bool-cases (size == 2)) [ inl f ↦ rw (e, f) refl | inr f ↦ rw (e, f) refl ]
]

-- The addresses of the cycles for k words, apart from the one cycle of FIFO mode.
abbrev pub cycled : Bool → ℕ → ℕ → ℕ → List ℕ
cycled fifo_mode size addr k = if fifo_mode then [] else visited false size addr k

loaded-Part :
    (size a v : ℕ) (w : World)
    → held w.trace ≡ true
    → Disciplined w.trace
    → Part w (log (get (cell size a) v) w) ((cell size a, v) ∷ []) [] []
loaded-Part size a v w h dis = record {
  same_sc = refl;
  holds = h;
  disciplined = (Touches-held (is_link (cell size a)) h, dis);
  loaded = loads-cell size a v w.trace;
  passed = refl;
  asked = refl;
}

-- The datum, and before it the address if there is one for each word.
put_datum :
    {u w : World} {l : List (Port × ℕ)} {xs : List ℕ} (v : ℕ)
    → Part u w l [] xs
    → Part u (log (put t_dal v) w) l (v ∷ []) xs
put_datum v k = record {
  same_sc = k.same_sc;
  holds = k.holds;
  disciplined = (k.holds, k.disciplined);
  loaded = k.loaded;
  passed = ap (λ l. v ∷ l) k.passed;
  asked = k.asked;
}

pub put_address :
    {u w : World} {l : List (Port × ℕ)} (a : ℕ)
    → Part u w l [] []
    → Part u (log (put t_adl a) w) l [] (a ∷ [])
put_address a k = record {
  same_sc = k.same_sc;
  holds = k.holds;
  disciplined = (k.holds, k.disciplined);
  loaded = k.loaded;
  passed = k.passed;
  asked = ap (λ l. a ∷ l) k.asked;
}

-- One word has been sent.
abbrev pub CellSent : ℕ → Bool → ℕ → ℕ → World → World → Type 0
CellSent size fifo_mode addr data_ w w' =
    (v : ℕ) × Part w w' ((cell size data_, v) ∷ []) (widen size v ∷ [])
      (cycled fifo_mode size addr 1)

pub send_cell-Sent :
    (size : ℕ) (fifo_mode : Bool) (head addr data_ : ℕ) (d : Device) (w : World)
    → held w.trace ≡ true
    → Disciplined w.trace
    → Returns
        (λ _ w'. CellSent size fifo_mode addr data_ w w')
        (send_cell size fifo_mode head addr data_ d w)
unfolding send_cell
send_cell-Sent size true head addr data_ d w h dis =
    let v = value_at d w.trace (cell size data_) in
    (v, put_datum (widen size v) (loaded-Part size data_ v w h dis))
send_cell-Sent size false head addr data_ d w h dis =
    let v = value_at d w.trace (cell size data_) in
    let k = loaded-Part size data_ v w h dis in
    elim (Bool-cases (size == 4)) [
      | inl e ↦ rw e (v, put_datum (widen size v) (put_address addr k))
      | inr e ↦ rw e (v, put_datum (widen size v) (put_address addr (Part-put 0x80 _ refl refl k)))
    ]
