-- ===== src/Block/Part.antt =====
-- What a part of sis1100_write_loop (sis3100/sis1100-2.13/src/sis1100_write_loop.c) has taken from
-- user memory and sent over the link, as it is read off the trace.
use mdaq_midas.Common.{
  true-ne-false, ℕ, zero, suc, ◌≡◌, ◌≢◌, refl, sym, ap, ◌∙◌, Bool, true, false, ◌==◌, if◌then◌else◌,
  List, [], ◌∷◌, ◌++◌,
}
use mathlib.Core.List.{append_assoc}
use mdaq_midas.Bus.{
  Port, plx, reg, raw, byte, half, word, jiffies, now, Access, get, put, Device, World, log,
  e_dlock, prot_error, polled, Responsive, read_prot_error, read_prot_error-Settled,
}
use mdaq_midas.Bus.Spec.{Returns, held, Disciplined, is_link, Touches-held}
use mdaq_midas.Block.Round.{cycles}

-- The words that have been taken from user memory, the newest first.
abbrev pub loads : List Access → List (Port × ℕ)
loads [] = []
loads (get (byte a) v ∷ t) = (byte a, v) ∷ loads t
loads (get (half a) v ∷ t) = (half a, v) ∷ loads t
loads (get (word a) v ∷ t) = (word a, v) ∷ loads t
loads (_ ∷ t) = loads t

-- The data that have been sent over the link, the newest first.
abbrev pub sent : List Access → List ℕ
sent [] = []
sent (put (reg n) v ∷ t) = if n == 0x90 then v ∷ sent t else sent t
sent (_ ∷ t) = sent t

abbrev pub is_plain : Port → Bool
is_plain (byte a) = false
is_plain (half a) = false
is_plain (word a) = false
is_plain _ = true

-- Under sem_hw: the words l have been loaded, the data ds sent, and cycles started at xs.
pub record Part (w w' : World) (l : List (Port × ℕ)) (ds xs : List ℕ) : Type 0 where
  pub same_sc : w'.sc ≡ w.sc
  pub holds : held w'.trace ≡ true
  pub disciplined : Disciplined w'.trace
  pub loaded : loads w'.trace ≡ l ++ loads w.trace
  pub passed : sent w'.trace ≡ ds ++ sent w.trace
  pub asked : cycles w'.trace ≡ xs ++ cycles w.trace

pub Part-refl : (w : World) → held w.trace ≡ true → Disciplined w.trace → Part w w [] [] []
Part-refl w h dis = record {
  same_sc = refl;
  holds = h;
  disciplined = dis;
  loaded = refl;
  passed = refl;
  asked = refl;
}

pub Part-trans :
    {u v w : World} (l l' : List (Port × ℕ)) (ds ds' xs xs' : List ℕ)
    → Part u v l ds xs
    → Part v w l' ds' xs'
    → Part u w (l' ++ l) (ds' ++ ds) (xs' ++ xs)
Part-trans {u} l l' ds ds' xs xs' a b = record {
  same_sc = b.same_sc ∙ a.same_sc;
  holds = b.holds;
  disciplined = b.disciplined;
  loaded = b.loaded ∙ ap (λ r. l' ++ r) a.loaded ∙ sym (append_assoc l' l (loads u.trace));
  passed = b.passed ∙ ap (λ r. ds' ++ r) a.passed ∙ sym (append_assoc ds' ds (sent u.trace));
  asked = b.asked ∙ ap (λ r. xs' ++ r) a.asked ∙ sym (append_assoc xs' xs (cycles u.trace));
}

-- A part that has only started cycles comes first.
pub Part-after :
    {u v w : World} (l : List (Port × ℕ)) (ds xs xs' : List ℕ)
    → Part u v [] [] xs
    → Part v w l ds xs'
    → Part u w l ds (xs' ++ xs)
Part-after {u} l ds xs xs' a b = record {
  same_sc = b.same_sc ∙ a.same_sc;
  holds = b.holds;
  disciplined = b.disciplined;
  loaded = b.loaded ∙ ap (λ r. l ++ r) a.loaded;
  passed = b.passed ∙ ap (λ r. ds ++ r) a.passed;
  asked = b.asked ∙ ap (λ r. xs' ++ r) a.asked ∙ sym (append_assoc xs' xs (cycles u.trace));
}

loads-plain :
    (p : Port) (v : ℕ) (t : List Access) → is_plain p ≡ true → loads (get p v ∷ t) ≡ loads t
loads-plain (plx n) v t h = refl
loads-plain (reg n) v t h = refl
loads-plain (raw n) v t h = refl
loads-plain (byte n) v t h = absurd (true-ne-false (sym h))
loads-plain (half n) v t h = absurd (true-ne-false (sym h))
loads-plain (word n) v t h = absurd (true-ne-false (sym h))
loads-plain jiffies v t h = refl
loads-plain now v t h = refl

-- A register is read.
pub Part-get :
    {u w : World} {l : List (Port × ℕ)} {ds xs : List ℕ} (p : Port) (v : ℕ)
    → is_plain p ≡ true
    → Part u w l ds xs
    → Part u (log (get p v) w) l ds xs
Part-get {w} p v plain k = record {
  same_sc = k.same_sc;
  holds = k.holds;
  disciplined = (Touches-held (is_link p) k.holds, k.disciplined);
  loaded = loads-plain p v w.trace plain ∙ k.loaded;
  passed = k.passed;
  asked = k.asked;
}

-- A register is written that is neither the datum nor the address.
pub Part-put :
    {u w : World} {l : List (Port × ℕ)} {ds xs : List ℕ} (n v : ℕ)
    → (n == 0x90) ≡ false
    → (n == 0x88) ≡ false
    → Part u w l ds xs
    → Part u (log (put (reg n) v) w) l ds xs
Part-put {w} n v a b k = record {
  same_sc = k.same_sc;
  holds = k.holds;
  disciplined = (Touches-held (is_link (reg n)) k.holds, k.disciplined);
  loaded = k.loaded;
  passed = rw a k.passed;
  asked = rw b k.asked;
}

polled-Part :
    {u : World} {l : List (Port × ℕ)} {ds xs : List ℕ} (k : ℕ) (w : World)
    → Part u w l ds xs
    → Part u (record w { trace = polled k w.trace }) l ds xs
polled-Part zero w p = p
polled-Part (suc k) w p =
    polled-Part k (log (get prot_error e_dlock) w) (Part-get prot_error e_dlock refl p)

-- The busy wait on prot_error, on a responsive device.
pub read_prot_error-Part :
    {u : World} {l : List (Port × ℕ)} {ds xs : List ℕ} (d : Device) (w : World)
    → Responsive d
    → Part u w l ds xs
    → Returns (λ e w'. (e ≢ e_dlock) × Part u w' l ds xs) (read_prot_error d w)
read_prot_error-Part d w r k =
    let s = read_prot_error-Settled d w r in
    rw s.returns (s.final, Part-get prot_error s.code refl (polled-Part s.rounds w k))
