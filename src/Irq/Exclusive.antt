-- ===== src/Irq/Exclusive.antt =====
-- No IRQ is ever owned by two processes.
use mdaq_midas.Common.{
  ℕ, zero, suc, ◌+◌, ◌≡◌, ◌≢◌, refl, sym, ap, ◌∙◌, ◌⊎◌, inl, inr, ◌==◌, if◌then◌else◌, Bool, true,
  false, Bool-cases, ==→eq, ==→ne, List, [], ◌∷◌, Option, none, some, arith, bit_and, bit_or, not32,
  bit_at, bit_at-zero, bit_at-and, bit_at-or, bit_at-le,
}
use mathlib.Core.Option.{some-injective}
use mathlib.Core.Path.{subst}
use mdaq_midas.Bus.{Fdata, Softc, Device, World}
use mdaq_midas.Bus.Spec.{Returns}
use mdaq_midas.Irq.Owner.{ebusy, slot, set_slot, claim, scan, fdata_at, reserve_irq, release_irq}

-- Two open files that own the same IRQ belong to the same process.
abbrev pub Exclusive : List (Option Fdata) → Type 0
Exclusive l =
    (b i j : ℕ) (f g : Fdata)
    → slot l i ≡ some f
    → slot l j ≡ some g
    → bit_at b f.owned_irqs ≡ 1
    → bit_at b g.owned_irqs ≡ 1
    → f.pid ≡ g.pid

-- Once it is EBUSY, the result stays.
scan_busy :
    (self pid mask : ℕ) (l : List (Option Fdata)) (i : ℕ) → scan self pid mask l i ebusy ≡ ebusy
unfolding scan
scan_busy self pid mask [] i = refl
scan_busy self pid mask (none ∷ l) i = scan_busy self pid mask l (i + 1)
scan_busy self pid mask (some f ∷ l) i = rw (scan_head f) (scan_busy self pid mask l (i + 1))
  where
    scan_head : (f : Fdata) → (if i == self then ebusy else claim pid mask f ebusy) ≡ ebusy
    scan_head f = ground arith

-- A scan without conflict: any other open file with one of these IRQs is of the same process.
scan_free :
    (self pid mask : ℕ) (l : List (Option Fdata)) (i j : ℕ) (g : Fdata)
    → scan self pid mask l i 0 ≡ 0
    → slot l j ≡ some g
    → i + j ≢ self
    → (bit_and g.owned_irqs mask ≡ 0) ⊎ (g.pid ≡ pid)
unfolding scan
scan_free self pid mask [] i j g h s ne = cc
scan_free self pid mask (none ∷ l) i zero g h s ne = cc
scan_free self pid mask (none ∷ l) i (suc j) g h s ne =
    scan_free self pid mask l (i + 1) j g h s (omega arith)
scan_free self pid mask (some f ∷ l) i zero g h s ne =
    let same : f ≡ g = cc in ground (arith, scan_busy self pid mask l (i + 1))
scan_free self pid mask (some f ∷ l) i (suc j) g h s ne = elim (head_cases f (i == self)) [
  | inl e ↦ scan_free self pid mask l (i + 1) j g (rw e at h) s (omega arith)
  | inr e ↦ absurd (busy (rw e at h))
]
  where
    head_cases :
        (f : Fdata) (b : Bool)
        → ((if b then 0 else claim pid mask f 0) ≡ 0)
          ⊎ ((if b then 0 else claim pid mask f 0) ≡ ebusy)
    head_cases f b = ground arith

    busy : scan self pid mask l (i + 1) ebusy ≡ 0 → ⊥
    busy e = omega (arith, e, scan_busy self pid mask l (i + 1))

pub slot-set_self :
    (l : List (Option Fdata)) (i : ℕ) (g : Fdata) {f : Fdata}
    → slot l i ≡ some f
    → slot (set_slot l i g) i ≡ some g
slot-set_self [] i g h = cc
slot-set_self (x ∷ l) zero g h = refl
slot-set_self (x ∷ l) (suc i) g h = slot-set_self l i g h

slot-set_ne :
    (l : List (Option Fdata)) (i j : ℕ) (g : Fdata) → i ≢ j → slot (set_slot l i g) j ≡ slot l j
slot-set_ne [] i j g h = refl
slot-set_ne (x ∷ l) zero zero g h = absurd (h refl)
slot-set_ne (x ∷ l) zero (suc j) g h = refl
slot-set_ne (x ∷ l) (suc i) zero g h = refl
slot-set_ne (x ∷ l) (suc i) (suc j) g h = slot-set_ne l i j g (λ e. h (ap suc e))

-- Exclusiveness survives a change at one place, if whatever is owned there afterwards is owned by
-- no other process elsewhere.
pub Exclusive-set :
    (l : List (Option Fdata)) (k : ℕ) (f g : Fdata)
    → slot l k ≡ some f
    → Exclusive l
    → ((b j : ℕ) (h : Fdata)
        → j ≢ k
        → slot l j ≡ some h
        → bit_at b g.owned_irqs ≡ 1
        → bit_at b h.owned_irqs ≡ 1
        → g.pid ≡ h.pid)
    → Exclusive (set_slot l k g)
Exclusive-set l k f g at old new b i j x y sx sy bx by = elim (Bool-cases (i == k)) [
  | inl ei ↦ elim (Bool-cases (j == k)) [
    | inl ej ↦ ap (λ z. z.pid) (here x i ei sx ∙ sym (here y j ej sy))
    | inr ej ↦ near i j x y ei (==→ne j k ej) sx sy bx by
  ]
  | inr ei ↦ elim (Bool-cases (j == k)) [
    | inl ej ↦ sym (near j i y x ej (==→ne i k ei) sy sx by bx)
    | inr ej ↦ old b i j x y (away x i (==→ne i k ei) sx) (away y j (==→ne j k ej) sy) bx by
  ]
]
  where
    here : (z : Fdata) (n : ℕ) → (n == k) ≡ true → slot (set_slot l k g) n ≡ some z → z ≡ g
    here z n e h = some-injective z g (
        sym (subst (λ m. slot (set_slot l k g) m ≡ some z) (==→eq n k e) h)
        ∙ slot-set_self l k g at)

    away : (z : Fdata) (n : ℕ) → n ≢ k → slot (set_slot l k g) n ≡ some z → slot l n ≡ some z
    away z n ne h = sym (slot-set_ne l k n g (λ e. ne (sym e))) ∙ h

    near :
        (m n : ℕ) (u v : Fdata)
        → (m == k) ≡ true
        → n ≢ k
        → slot (set_slot l k g) m ≡ some u
        → slot (set_slot l k g) n ≡ some v
        → bit_at b u.owned_irqs ≡ 1
        → bit_at b v.owned_irqs ≡ 1
        → u.pid ≡ v.pid
    near m n u v em ne su sv bu bv =
        let same = here u m em su in
        ap (λ z. z.pid) same
        ∙ new b n v ne (away v n ne sv) (subst (λ z. bit_at b z.owned_irqs ≡ 1) same bu) bv

pub fdata_at_lem : (sc : Softc) (k : ℕ) {f : Fdata} → slot sc.fdata k ≡ some f → fdata_at sc k ≡ f
fdata_at_lem sc k e = rw (e, fdata_at) refl

-- What a process gains by a successful scan is owned by no other process.
gained :
    (self mask b : ℕ) (f : Fdata) (sc : Softc)
    → slot sc.fdata self ≡ some f
    → Exclusive sc.fdata
    → scan self f.pid mask sc.fdata 0 0 ≡ 0
    → (j : ℕ) (h : Fdata) → j ≢ self
    → slot sc.fdata j ≡ some h
    → bit_at b (bit_or f.owned_irqs mask) ≡ 1
    → bit_at b h.owned_irqs ≡ 1
    → f.pid ≡ h.pid
gained self mask b f sc at old free j h ne sh bg bh =
    elim (scan_free self f.pid mask sc.fdata 0 j h free sh (λ e. ne (omega (arith, e)))) [
      | inr same ↦ sym same
      | inl none_shared ↦ old b self j f h at sh (own none_shared) bh
    ]
  where
    own : bit_and h.owned_irqs mask ≡ 0 → bit_at b f.owned_irqs ≡ 1
    own e = omega (
      arith,
      bit_at-and b h.owned_irqs mask,
      ap (bit_at b) e,
      bit_at-zero b,
      bit_at-or b f.owned_irqs mask,
      bg,
      bh,
      bit_at-le b mask,
    )

-- reserve_irq keeps every IRQ with one process: whichever result it gives, the owners are exclusive
-- afterwards if they were before. The result 0 has added the mask to the caller's IRQs, any other
-- has left all the files as they were.
pub reserve_irq-Exclusive :
    (self mask : ℕ) (f : Fdata) (d : Device) (w : World)
    → slot w.sc.fdata self ≡ some f
    → Exclusive w.sc.fdata
    → Returns
        (λ res w'.
          Exclusive w'.sc.fdata
          × (res ≡ 0
              → slot w'.sc.fdata self ≡ some (record f { owned_irqs = bit_or f.owned_irqs mask }))
          × (res ≢ 0 → w'.sc.fdata ≡ w.sc.fdata))
        (reserve_irq self mask d w)
unfolding reserve_irq
reserve_irq-Exclusive self mask f d w at old =
    subst (λ g. Claimed g (scan self g.pid mask w.sc.fdata 0 0)) (sym (fdata_at_lem w.sc self at))
      (elim (Bool-cases (res == 0)) [ inl e ↦ granted e | inr e ↦ refused e ])
  where
    res : ℕ
    res = scan self f.pid mask w.sc.fdata 0 0

    add : Fdata → Fdata
    add g = record g { owned_irqs = bit_or g.owned_irqs mask }

    after : Fdata → Bool → Softc
    after g c = if c then record w.sc { fdata = set_slot w.sc.fdata self (add g) } else w.sc

    Claimed : Fdata → ℕ → Type 0
    Claimed g r =
        Exclusive (after g (r == 0)).fdata
        × (r ≡ 0 → slot (after g (r == 0)).fdata self ≡ some (add f))
        × (r ≢ 0 → (after g (r == 0)).fdata ≡ w.sc.fdata)

    granted : (res == 0) ≡ true → Claimed f res
    granted e = rw e (
      Exclusive-set w.sc.fdata self f (add f) at old
          (λ b j h ne sh bg bh. gained self mask b f w.sc at old (==→eq res 0 e) j h ne sh bg bh),
      (λ _. slot-set_self w.sc.fdata self (add f) at),
      (λ ne. absurd (ne (==→eq res 0 e))),
    )

    refused : (res == 0) ≡ false → Claimed f res
    refused e = rw e (old, (λ z. absurd (==→ne res 0 e z)), (λ _. refl))

-- release_irq keeps every IRQ with one process.
pub release_irq-Exclusive :
    (self mask : ℕ) (f : Fdata) (d : Device) (w : World)
    → slot w.sc.fdata self ≡ some f
    → Exclusive w.sc.fdata
    → Returns
        (λ _ w'.
          Exclusive w'.sc.fdata
          × (slot w'.sc.fdata self
              ≡ some (record f { owned_irqs = bit_and f.owned_irqs (not32 mask) })))
        (release_irq self mask d w)
unfolding release_irq
release_irq-Exclusive self mask f d w at old =
    subst
      (λ g.
        Exclusive (set_slot w.sc.fdata self (drop g))
        × (slot (set_slot w.sc.fdata self (drop g)) self ≡ some (drop f)))
      (sym (fdata_at_lem w.sc self at))
      (
        Exclusive-set w.sc.fdata self f (drop f) at old
            (λ b j h ne sh bg bh. old b self j f h at sh (kept b bg) bh),
        slot-set_self w.sc.fdata self (drop f) at,
      )
  where
    drop : Fdata → Fdata
    drop g = record g { owned_irqs = bit_and g.owned_irqs (not32 mask) }

    kept : (b : ℕ) → bit_at b (bit_and f.owned_irqs (not32 mask)) ≡ 1 → bit_at b f.owned_irqs ≡ 1
    kept b e = omega (arith, bit_at-and b f.owned_irqs (not32 mask), bit_at-le b f.owned_irqs)
