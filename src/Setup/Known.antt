-- ===== src/Setup/Known.antt =====
-- Which other sides are accepted: the setup functions of sis1100rem_init.c, sis3100rem_init.c,
-- sis5100rem_init.c, zellvd_rem_init.c, pandapixel_rem_init.c and psf4ad_rem_init.c
-- (sis3100/sis1100-2.13/src).
use mdaq_midas.Common.{
  ℕ, ◌/◌, ◌^◌, ◌≡◌, ◌≤◌, refl, bit_and, ltb, ◌==◌, ◌||◌, Bool, true, false, if◌then◌else◌,
  Bool-cases, inl, inr, ◌⊎◌, List, [], ◌∷◌, arith, ==→eq, ==→ne, eq→==,
}
use mdaq_midas.Bus.{Device, World, Responsive, when}
use mdaq_midas.Bus.Spec.{Returns, held, Disciplined}
use mdaq_midas.Remote.{remote_reg_read}
use mdaq_midas.Irq.{put_far}
use mdaq_midas.Vme.{minus_one}
use mdaq_midas.Irq.Under.{Under}
use mdaq_midas.Setup.Sides.{
  kind, version, at_least, has_dsp, reset_vme, equip_vme, sis1100rem_init, sis3100rem_init,
  sis5100rem_init, zellvd_rem_init, pandapixel_rem_init, psf4ad_rem_init,
}
use mdaq_midas.Setup.Parts.{
  set_dsp-Same, has_dsp-Holds, reset_vme-Holds, equip_vme-Holds, when-Holds,
}
use mdaq_midas.Setup.Keeps.{Under-start, Under-sc, part_then, put_far-Holds, get_far-Holds}

-- The kinds of hardware and firmware that the driver knows for each type of other side, with the
-- least version of the firmware.
abbrev pub known : ℕ → List (ℕ × ℕ)
known typ =
    if typ == 1
    then (0x00010100, 4) ∷ (0x00010200, 1) ∷ (0x00020200, 1) ∷ []
    else if typ == 2
    then (0x00010100, 3) ∷ (0x00010200, 1) ∷ (0x00210200, 1) ∷ []
    else if typ == 3
    then (0x00010100, 1) ∷ (0x00020100, 1) ∷ []
    else if typ == 4
    then (0x00010100, 1) ∷ (0x00010200, 17) ∷ (0x00010300, 1) ∷ []
    else []

abbrev pub Listed : ℕ → List (ℕ × ℕ) → Type 0
Listed ident [] = ⊥
Listed ident ((k, least) ∷ l) = ((kind ident ≡ k) × (least ≤ version ident)) ⊎ Listed ident l

-- At the two boards of other laboratories any hardware is accepted, but pandapixel hardware 1 only
-- with a firmware of version 16 at least.
abbrev pub Accepted : ℕ → ℕ → Type 0
Accepted typ ident =
    Listed ident (known typ)
    ⊎ ((typ ≡ 5) × (bit_and (ident / 2 ^ 8) 0xff ≡ 1 → 16 ≤ version ident))
    ⊎ (typ ≡ 6)

at_least-le : (least ident : ℕ) → at_least least ident ≡ 0 → least ≤ version ident
at_least-le least ident h = elim (Bool-cases (ltb (version ident) least)) [
  | inl e ↦ absurd (omega (arith, rw e at h))
  | inr e ↦ ltb-le _ _ e
]
  where
    ltb-le : (a b : ℕ) → ltb a b ≡ false → b ≤ a
    ltb-le a b h = ground arith

or_cases : (a b : Bool) → a || b ≡ true → (a ≡ true) ⊎ (b ≡ true)
or_cases true b h = inl refl
or_cases false b h = inr h

refused : {A : Type 0} → minus_one ≡ 0 → A
refused h = absurd (omega (arith, h))

-- The tests of sis1100rem_init and sis3100rem_init,
three_kinds :
    (ident a b c m n : ℕ)
    → (if kind ident == a
        then at_least m ident
        else if kind ident == b || kind ident == c
        then at_least n ident
        else minus_one)
      ≡ 0
    → Listed ident ((a, m) ∷ (b, n) ∷ (c, n) ∷ [])
three_kinds ident a b c m n h = elim (Bool-cases (kind ident == a)) [
  | inl e ↦ inl (==→eq _ _ e, at_least-le m ident (rw e at h))
  | inr e ↦ elim (Bool-cases (kind ident == b || kind ident == c)) [
    | inl f ↦
        let le : n ≤ version ident = at_least-le n ident (rw f at (rw e at h)) in
        elim (or_cases _ _ f) [
          | inl g ↦ inr (inl (==→eq _ _ g, le))
          | inr g ↦ inr (inr (inl (==→eq _ _ g, le)))
        ]
    | inr f ↦ refused (rw f at (rw e at h))
  ]
]

-- of sis5100rem_init,
two_kinds :
    (ident a b n : ℕ)
    → (if kind ident == a || kind ident == b then at_least n ident else minus_one) ≡ 0
    → Listed ident ((a, n) ∷ (b, n) ∷ [])
two_kinds ident a b n h = elim (Bool-cases (kind ident == a || kind ident == b)) [
  | inl f ↦
      let le : n ≤ version ident = at_least-le n ident (rw f at h) in
      elim (or_cases _ _ f) [ inl g ↦ inl (==→eq _ _ g, le) | inr g ↦ inr (inl (==→eq _ _ g, le)) ]
  | inr f ↦ refused (rw f at h)
]

-- and of zellvd_rem_init.
chain_of_kinds :
    (ident a b c l m n : ℕ)
    → (if kind ident == a
        then at_least l ident
        else if kind ident == b
        then at_least m ident
        else if kind ident == c
        then at_least n ident
        else minus_one)
      ≡ 0
    → Listed ident ((a, l) ∷ (b, m) ∷ (c, n) ∷ [])
chain_of_kinds ident a b c l m n h = elim (Bool-cases (kind ident == a)) [
  | inl e ↦ inl (==→eq _ _ e, at_least-le l ident (rw e at h))
  | inr e ↦ elim (Bool-cases (kind ident == b)) [
    | inl f ↦ inr (inl (==→eq _ _ f, at_least-le m ident (rw f at (rw e at h))))
    | inr f ↦ elim (Bool-cases (kind ident == c)) [
      | inl g ↦ inr (inr (inl (==→eq _ _ g, at_least-le n ident (rw g at (rw f at (rw e at h))))))
      | inr g ↦ refused (rw g at (rw f at (rw e at h)))
    ]
  ]
]

-- A setup function: it accepts only what is accepted.
abbrev pub Side : ℕ → World → ℕ → World → Type 0
Side typ w res w' = Under w w' × (res ≡ 0 → Accepted typ w.sc.remote_ident)

module _ (d : Device) (r : Responsive d) (reset : ℕ) where
  pub pci-Side :
      (w : World)
      → held w.trace ≡ true
      → Disciplined w.trace
      → Returns (Side 1 w) (sis1100rem_init reset d w)
  unfolding sis1100rem_init
  pci-Side w h dis = (Under-start w h dis, λ z. inl (three_kinds _ _ _ _ 4 1 z))

  pub vme-Side :
      (w : World)
      → held w.trace ≡ true
      → Disciplined w.trace
      → Returns (Side 2 w) (sis3100rem_init reset d w)
  unfolding sis3100rem_init
  vme-Side w h dis =
      let ident = w.sc.remote_ident in
      let res : ℕ =
        if kind ident == 0x00010100
        then at_least 3 ident
        else if kind ident == 0x00010200 || kind ident == 0x00210200
        then at_least 1 ident
        else minus_one in
      elim (Bool-cases (res == 0)) [
        | inl e ↦
            let ok = three_kinds ident 0x00010100 0x00010200 0x00210200 3 1 (==→eq res 0 e) in
            rw e (
              part_then d (Side 2 w) (when (ltb 0 reset) reset_vme) _
                (when-Holds d r (ltb 0 reset) reset_vme (reset_vme-Holds d r)) (Under-start w h dis)
                λ _ w1 k1.
                  part_then d (Side 2 w) (equip_vme ident) _ (equip_vme-Holds d r ident) k1
                    λ _ w2 k2.
                      part_then d (Side 2 w) (remote_reg_read 0x100 true) _
                        (get_far-Holds d r 0x100) k2 λ _ w3 k3. (k3, λ _. inl ok))
        | inr e ↦ rw e (Under-start w h dis, λ z. absurd (==→ne res 0 e z))
      ]

  pub camac-Side :
      (w : World)
      → held w.trace ≡ true
      → Disciplined w.trace
      → Returns (Side 3 w) (sis5100rem_init reset d w)
  unfolding sis5100rem_init
  camac-Side w h dis =
      let ident = w.sc.remote_ident in
      let res : ℕ =
        if kind ident == 0x00010100 || kind ident == 0x00020100
        then at_least 1 ident
        else minus_one in
      elim (Bool-cases (res == 0)) [
        | inl e ↦
            let ok = two_kinds ident 0x00010100 0x00020100 1 (==→eq res 0 e) in
            rw e (
              part_then d (Side 3 w) has_dsp _ (has_dsp-Holds d r) (Under-start w h dis)
                λ b w1 k1. (Under-sc _ (set_dsp-Same b w1.sc) k1, λ _. inl ok))
        | inr e ↦ rw e (Under-start w h dis, λ z. absurd (==→ne res 0 e z))
      ]

  pub lvd-Side :
      (w : World)
      → held w.trace ≡ true
      → Disciplined w.trace
      → Returns (Side 4 w) (zellvd_rem_init reset d w)
  unfolding zellvd_rem_init
  lvd-Side w h dis =
      let ident = w.sc.remote_ident in
      let res : ℕ =
        if kind ident == 0x00010100
        then at_least 1 ident
        else if kind ident == 0x00010200
        then at_least 17 ident
        else if kind ident == 0x00010300
        then at_least 1 ident
        else minus_one in
      elim (Bool-cases (res == 0)) [
        | inl e ↦
            let ok = chain_of_kinds ident 0x00010100 0x00010200 0x00010300 1 17 1 (==→eq res 0 e) in
            rw e (
              part_then d (Side 4 w) (when (ltb 0 reset) (put_far 8 0)) _
                (when-Holds d r (ltb 0 reset) (put_far 8 0) (put_far-Holds d r 8 0))
                (Under-start w h dis) λ _ w1 k1. (k1, λ _. inl ok))
        | inr e ↦ rw e (Under-start w h dis, λ z. absurd (==→ne res 0 e z))
      ]

  pub pandapixel-Side :
      (w : World)
      → held w.trace ≡ true
      → Disciplined w.trace
      → Returns (Side 5 w) (pandapixel_rem_init reset d w)
  unfolding pandapixel_rem_init
  pandapixel-Side w h dis =
      let ident = w.sc.remote_ident in
      let res : ℕ = if bit_and (ident / 2 ^ 8) 0xff == 1 then at_least 16 ident else 0 in
      elim (Bool-cases (res == 0)) [
        | inl e ↦ rw e (
            part_then d (Side 5 w) (when (ltb 0 reset) (put_far 8 0)) _
              (when-Holds d r (ltb 0 reset) (put_far 8 0) (put_far-Holds d r 8 0))
              (Under-sc _ (set_dsp-Same false w.sc) (Under-start w h dis))
              λ _ w1 k1. (
                k1,
                λ _. inr (
                    inl
                      (refl, λ one. at_least-le 16 ident (rw (eq→== _ 1 one) at (==→eq res 0 e)))),
              ))
        | inr e ↦ rw e (Under-start w h dis, λ z. absurd (==→ne res 0 e z))
      ]

  pub psf4ad-Side :
      (w : World)
      → held w.trace ≡ true
      → Disciplined w.trace
      → Returns (Side 6 w) (psf4ad_rem_init reset d w)
  unfolding psf4ad_rem_init
  psf4ad-Side w h dis =
      (Under-sc _ (set_dsp-Same false w.sc) (Under-start w h dis), λ _. inr (inr refl))
