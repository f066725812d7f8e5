-- ===== src/Dsp/Load.antt =====
-- What sis1100_dsp_load (sis3100/sis1100-2.13/src/sis1100_dsp.c) does as a whole.
use mdaq_midas.Common.{
  ap₂, eq→==, ne→==, ◌∙◌, bit_or, bit_at, bit_at-ext, bit_at-or, bit_at-zero, ℕ, zero, suc, ◌+◌,
  ◌/◌, ◌%◌, ◌^◌, ◌≡◌, ◌≢◌, ◌≤◌, ◌⊎◌, refl, ap, not, ◌==◌, Bool, true, false, Bool-cases, inl, inr,
  List, [], ◌∷◌, length, arith, true-ne-false, sym, ==→eq, ==→ne, if◌then◌else◌,
}
use mdaq_midas.Bus.{Access, Device, World, Responsive, ◌>>=◌}
use mdaq_midas.Bus.Spec.{Returns, Returns-cases, writes, held, Disciplined}
use mdaq_midas.Bus.Observed.{codes}
use mdaq_midas.Eeprom.{eio, efault}
use mdaq_midas.Vme.{enxio, einval}
use mdaq_midas.Dsp.Code.{
  DspCode, Instruction, load_instruction, load_loop, guarded, start_address, dsp_load,
}
use mdaq_midas.Dsp.Stage.{Stage, taken, instruction_sent, instruction_taken, load_instruction-Stage}

-- The instructions at consecutive addresses of the DSP,
abbrev pub code_sent : ℕ → List Instruction → List Access → List Access
code_sent addr [] ws = ws
code_sent addr (v ∷ vs) ws = code_sent ((addr + 4) % 2 ^ 32) vs (instruction_sent addr v ws)

-- and at consecutive addresses of user memory.
abbrev pub code_taken : ℕ → List Instruction → List (ℕ × ℕ) → List (ℕ × ℕ)
code_taken a [] bs = bs
code_taken a (v ∷ vs) bs = code_taken (a + 6) vs (instruction_taken a v bs)

-- k instructions without an error, after the codes cs.
abbrev pub no_errors : ℕ → List ℕ → List ℕ
no_errors zero cs = cs
no_errors (suc k) cs = no_errors k (0 ∷ 0 ∷ cs)

-- The two codes of an instruction whose loading has failed.
abbrev pub Failed : ℕ → ℕ → Type 0
Failed e1 e2 = (e1 ≢ 0) ⊎ (e2 ≢ 0)

-- Some of n instructions have been loaded, after the codes cs: all of them, each with two codes 0, or
-- those up to one that has failed.
pub record Sent (u : World) (n code addr : ℕ) (ws : List Access) (bs : List (ℕ × ℕ)) (cs : List ℕ)
    (error : ℕ) (w' : World) : Type 0 where
  pub instructions : List Instruction
  pub answers : List ℕ
  pub outcome :
      ((error ≡ 0) × (length instructions ≡ n) × (answers ≡ no_errors (length instructions) cs))
      ⊎ ((error ≢ 0)
          × (length instructions ≤ n)
          × (k : ℕ) × (e1 : ℕ) × (e2 : ℕ) × Failed e1 e2
          × (length instructions ≡ suc k)
          × (answers ≡ e2 ∷ e1 ∷ no_errors k cs))
  pub stage :
      Stage false u w' (code_sent addr instructions ws) (code_taken code instructions bs) answers

or-zero : (a b : ℕ) → bit_or a b ≡ 0 → (a ≡ 0) × (b ≡ 0)
or-zero a b e = (
  bit_at-ext a a 0 (omega arith) (omega arith)
      λ i. omega (arith, bit_at-or i a b, ap (bit_at i) e, bit_at-zero i),
  bit_at-ext b b 0 (omega arith) (omega arith)
      λ i. omega (arith, bit_at-or i a b, ap (bit_at i) e, bit_at-zero i),
)

or-nonzero : (a b : ℕ) → bit_or a b ≢ 0 → Failed a b
or-nonzero a b ne = elim (Bool-cases (a == 0)) [
  | inr p ↦ inl (==→ne a 0 p)
  | inl p ↦ elim (Bool-cases (b == 0)) [
    | inr q ↦ inr (==→ne b 0 q)
    | inl q ↦ absurd (ne (ap₂ bit_or (==→eq a 0 p) (==→eq b 0 q)))
  ]
]

-- An instruction without an error, and then others.
Sent-suc :
    {u w' : World} (n code addr error e1 e2 : ℕ) (v : Instruction) {ws : List Access}
    {bs : List (ℕ × ℕ)} {cs : List ℕ}
    → e1 ≡ 0
    → e2 ≡ 0
    → Sent u n
        (code + 6)
        ((addr + 4) % 2 ^ 32)
        (instruction_sent addr v ws)
        (instruction_taken code v bs)
        (e2 ∷ e1 ∷ cs)
        error
        w'
    → Sent u (suc n) code addr ws bs cs error w'
Sent-suc n code addr error e1 e2 v {cs = cs} z1 z2 s = record {
  instructions = v ∷ s.instructions;
  answers = s.answers;
  outcome = elim s.outcome [
    | inl (z, all, same) ↦
        inl
          (z, ap suc all, same ∙ ap₂ (λ x y. no_errors (length s.instructions) (x ∷ y ∷ cs)) z2 z1)
    | inr (ne, few, k, f1, f2, failed, many, same) ↦ inr (
      ne,
      omega (arith, few),
      suc k,
      f1,
      f2,
      failed,
      ap suc many,
      same ∙ ap₂ (λ x y. f2 ∷ f1 ∷ no_errors k (x ∷ y ∷ cs)) z2 z1,
    )
  ];
  stage = s.stage;
}

module _ (d : Device) (r : Responsive d) {u : World} where
  load_loop-Sent :
      (n code addr : ℕ) (w : World) {ws : List Access} {bs : List (ℕ × ℕ)} {cs : List ℕ}
      → Stage false u w ws bs cs
      → Returns (Sent u n code addr ws bs cs) (load_loop n code addr d w)
  unfolding load_loop
  load_loop-Sent zero code addr w {cs = cs} k = record {
    instructions = [];
    answers = cs;
    outcome = inl (refl, refl, refl);
    stage = k;
  }
  load_loop-Sent (suc n) code addr w {ws} {bs} {cs} k =
      let (error, w1, eq, (v, e1, e2, sum, k1)) =
        Returns-cases _ (load_instruction code addr d w)
          (load_instruction-Stage d r code addr w k) in
      rw (eq, ◌>>=◌)
        (elim (Bool-cases (error == 0)) [
          | inr e ↦ rw e (record {
            instructions = v ∷ [];
            answers = e2 ∷ e1 ∷ cs;
            outcome = inr (
              ==→ne error 0 e,
              omega arith,
              0,
              e1,
              e2,
              or-nonzero e1 e2 (λ z. ==→ne error 0 e (sum ∙ z)),
              refl,
              refl,
            );
            stage = k1;
          })
          | inl e ↦
              let (e', w2, eq2, s) =
                Returns-cases _ (load_loop n (code + 6) ((addr + 4) % 2 ^ 32) d w1)
                  (load_loop-Sent n (code + 6) ((addr + 4) % 2 ^ 32) w1 k1) in
              let (z1, z2) = or-zero e1 e2 (sym sum ∙ ==→eq error 0 e) in
              rw (e, eq2, Returns) (Sent-suc n code addr e' e1 e2 v z1 z2 s)
        ])

-- Why sis1100_dsp_load refuses, and what it returns then.
abbrev pub Refused : Device → World → DspCode → ℕ → Type 0
Refused d w code res =
    ((w.sc.dsp_present ≡ false) × (res ≡ enxio))
    ⊎ (((code.dst % 4 ≢ 0) ⊎ (code.size % 6 ≢ 0)) × (res ≡ einval))
    ⊎ ((d.access_ok code.src code.size ≡ false) × (res ≡ efault))

-- sis1100_dsp_load has done its work as far as it came.
pub record Loaded (d : Device) (code : DspCode) (w : World) (res : ℕ) (w' : World) : Type 0 where
  pub present : w.sc.dsp_present ≡ true
  pub aligned : code.dst % 4 ≡ 0
  pub whole : code.size % 6 ≡ 0
  pub allowed : d.access_ok code.src code.size ≡ true
  pub outcome : (res ≡ 0) ⊎ (res ≡ eio)
  pub sent :
      Sent w
        (code.size / 6)
        code.src
        (start_address code)
        (writes w.trace)
        (taken w.trace)
        (codes w.trace)
        res
        w'

eio-or-zero :
    (error : ℕ) → ((if error == 0 then 0 else eio) ≡ 0) ⊎ ((if error == 0 then 0 else eio) ≡ eio)
eio-or-zero error = elim (Bool-cases (error == 0)) [
  | inl e ↦ rw e (inl refl)
  | inr e ↦ rw e (inr refl)
]

-- What the driver returns says as much as the error.
Sent-returned :
    {u w' : World} {n code addr : ℕ} {ws : List Access} {bs : List (ℕ × ℕ)} {cs : List ℕ}
    (error : ℕ)
    → Sent u n code addr ws bs cs error w'
    → Sent u n code addr ws bs cs (if error == 0 then 0 else eio) w'
Sent-returned error s = record {
  instructions = s.instructions;
  answers = s.answers;
  outcome = elim s.outcome [
    | inl (z, all, same) ↦ inl (rw (eq→== error 0 z) refl, all, same)
    | inr (ne, few, k, e1, e2, failed, many, same) ↦
        inr (rw (ne→== error 0 ne) (omega arith), few, k, e1, e2, failed, many, same)
  ];
  stage = s.stage;
}

not-false : (b : Bool) → not b ≡ false → b ≡ true
not-false true e = refl
not-false false e = absurd (true-ne-false e)

not-true : (b : Bool) → not b ≡ true → b ≡ false
not-true false e = refl
not-true true e = absurd (true-ne-false (sym e))

-- sis1100_dsp_load on a responsive device, with sem_hw free, ends. Without a DSP it returns ENXIO, with
-- an address that is not one of a word or a size that is not one of whole instructions EINVAL, with
-- memory that the caller may not read EFAULT, each without any effect. Else it returns 0, after it has
-- loaded all the instructions and the link has given the code 0 for both words of each; or EIO, after the
-- link has given a code that is not 0 for a word of the last instruction that it has loaded, and 0 for
-- both words of each one before. It has taken the six bytes of each from
-- consecutive addresses of user memory, and sent to the DSP, for each in order and nothing else, its low
-- word to the register for 48 digits and then its high word to the next address. The softc is as before,
-- and the link is touched only under sem_hw, which is free again.
pub dsp_load-Loaded :
    (code : DspCode) (d : Device) (w : World)
    → Responsive d
    → held w.trace ≡ false
    → Disciplined w.trace
    → Returns
        (λ res w'. ((w' ≡ w) × Refused d w code res) ⊎ Loaded d code w res w')
        (dsp_load code d w)
unfolding dsp_load guarded
dsp_load-Loaded code d w r free dis = elim (Bool-cases (not w.sc.dsp_present)) [
  | inl e ↦ rw e (inl (refl, inl (not-true w.sc.dsp_present e, refl)))
  | inr e ↦ rw e (elim (Bool-cases (not (code.dst % 4 == 0))) [
    | inl f ↦ rw f (
        inl (refl, inr (inl (inl (==→ne (code.dst % 4) 0 (not-true (code.dst % 4 == 0) f)), refl))))
    | inr f ↦ rw f (elim (Bool-cases (not (code.size % 6 == 0))) [
      | inl g ↦ rw g (
          inl (
            refl,
            inr (inl (inr (==→ne (code.size % 6) 0 (not-true (code.size % 6 == 0) g)), refl)),
          ))
      | inr g ↦ rw g (elim (Bool-cases (not (d.access_ok code.src code.size))) [
        | inl h ↦ rw h (inl (refl, inr (inr (not-true (d.access_ok code.src code.size) h, refl))))
        | inr h ↦
            let (error, w1, eq, s) =
              Returns-cases _ (load_loop (code.size / 6) code.src (start_address code) d w) (
                load_loop-Sent d r (code.size / 6) code.src (start_address code) w (record {
                  same_sc = refl;
                  lock = free;
                  disciplined = dis;
                  written = refl;
                  bytes = refl;
                  answers = refl;
                })) in
            rw (h, eq, Returns)
              (inr (record {
                present = not-false w.sc.dsp_present e;
                aligned = ==→eq (code.dst % 4) 0 (not-false (code.dst % 4 == 0) f);
                whole = ==→eq (code.size % 6) 0 (not-false (code.size % 6 == 0) g);
                allowed = not-false (d.access_ok code.src code.size) h;
                outcome = eio-or-zero error;
                sent = Sent-returned error s;
              }))
      ])
    ])
  ])
]
