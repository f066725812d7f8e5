-- ===== src/Front/Shown.antt =====
-- What sis1100_front_io (sis3100/sis1100-2.13/src/sis1100_front_io.c) does as a whole.
use mdaq_midas.Common.{
  ℕ, ◌+◌, ◌-◌, ◌<◌, ◌≡◌, refl, ap, bit_and, ◌==◌, Bool, true, false, not, if◌then◌else◌, Bool-cases,
  inl, inr, List, [], ◌∷◌, ◌++◌, bit_at,
}
use Prim.Native.Nat.{min, max}
use mathlib.Core.Path.{subst}
use mdaq_midas.Bus.{
  Access, acquire, sem_hw, get, put, Port, reg, Device, World, log, HwType, hw_vme, hw_camac,
  hw_pci, hw_lvd, hw_pandapixel, hw_psf4ad, hw_invalid, opt_csr, ◌>>=◌, when, write, value_at,
}
use mdaq_midas.Bus.Spec.{Returns, Returns-cases, writes, held, Disciplined, is_link, Touches-held}
use mdaq_midas.Remote.{lock_unless, unlock_unless}
use mdaq_midas.Front.Panel.{outputs, far_io, controller_io, front_io, far_in_out, far_sc}
use mdaq_midas.Front.Digits.{outputs-output}

-- A register of the controller is written if the command has some of its digits.
abbrev pub command_of : Port → ℕ → List Access
command_of p v = if not (v == 0) then put p v ∷ [] else []

-- What is written to the other side, after ws.
abbrev pub far_commands : HwType → ℕ → List Access → List Access
far_commands hw_vme data_ ws =
    command_of far_sc (bit_and data_ 0x00800080)
    ++ (command_of far_in_out (bit_and data_ 0x7f007f) ++ ws)
far_commands hw_camac data_ ws =
    command_of far_sc (bit_and data_ 0x00800080)
    ++ (command_of far_in_out (bit_and data_ 0x770077) ++ ws)
far_commands _ data_ ws = ws

-- The softc is as before, ws have been written since u, and sem_hw is held as b says.
pub record Written (b : Bool) (u w : World) (ws : List Access) : Type 0 where
  pub same_sc : w.sc ≡ u.sc
  pub lock : held w.trace ≡ b
  pub disciplined : Disciplined w.trace
  pub written : writes w.trace ≡ ws

commanded :
    (d : Device) (n : ℕ) (v : ℕ) {u w : World} {ws : List Access}
    → Written true u w ws
    → Returns
        (λ _ w'. Written true u w' (command_of (reg n) v ++ ws))
        (when (not (v == 0)) (write (reg n) v) d w)
commanded d n v k = elim (Bool-cases (not (v == 0))) [
  | inl e ↦ rw e (record {
    same_sc = k.same_sc;
    lock = k.lock;
    disciplined = (Touches-held (is_link (reg n)) k.lock, k.disciplined);
    written = ap (λ l. put (reg n) v ∷ l) k.written;
  })
  | inr e ↦ rw e k
]

-- The trace after sem_hw has been taken, unless the caller holds it.
abbrev pub entered : Bool → List Access → List Access
entered true t = t
entered false t = acquire sem_hw ∷ t

module _ (d : Device) {u : World} where
  controller_io-Written :
      (io data_ : ℕ) (w : World) {ws : List Access}
      → Written true u w ws
      → Returns
          (λ _ w'. Written true u w' (
            command_of far_sc (bit_and data_ 0x00800080)
            ++ (command_of far_in_out (bit_and data_ io) ++ ws)))
          (controller_io io data_ d w)
  unfolding controller_io
  controller_io-Written io data_ w k =
      let io_now = value_at d w.trace far_in_out in
      let w1 = log (get far_in_out io_now) w in
      let w2 = log (get far_sc (value_at d w1.trace far_sc)) w1 in
      let k2 : Written true u w2 _ = record {
        same_sc = k.same_sc;
        lock = k.lock;
        disciplined = (k.lock, (k.lock, k.disciplined));
        written = k.written;
      } in
      let (x, w3, eq3, k3) =
        Returns-cases _
          (when (not (bit_and data_ io == 0)) (write far_in_out (bit_and data_ io)) d w2)
          (commanded d 0x880 (bit_and data_ io) k2) in
      let (y, w4, eq4, k4) =
        Returns-cases _
          (when (not (bit_and data_ 0x00800080 == 0)) (write far_sc (bit_and data_ 0x00800080)) d
            w3)
          (commanded d 0x900 (bit_and data_ 0x00800080) k3) in
      rw (eq3, ◌>>=◌) (rw (eq4, Returns) k4)

  far_io-Written :
      (hw : HwType) (data_ : ℕ) (w : World) {ws : List Access}
      → Written true u w ws
      → Returns (λ _ w'. Written true u w' (far_commands hw data_ ws)) (far_io hw data_ d w)
  unfolding far_io controller_io
  far_io-Written hw_vme data_ w k = controller_io-Written 0x7f007f data_ w k
  far_io-Written hw_camac data_ w k = controller_io-Written 0x770077 data_ w k
  far_io-Written hw_pci data_ w k = k
  far_io-Written hw_lvd data_ w k = k
  far_io-Written hw_pandapixel data_ w k = k
  far_io-Written hw_psf4ad data_ w k = k
  far_io-Written hw_invalid data_ w k = k

  lock_unless-Written :
      (locked : Bool) (w : World) {ws : List Access}
      → Written locked u w ws
      → Returns
          (λ _ w'. (w'.trace ≡ entered locked w.trace) × Written true u w' ws)
          (lock_unless locked d w)
  unfolding lock_unless
  lock_unless-Written true w k = (refl, k)
  lock_unless-Written false w k = (
    refl,
    record {
      same_sc = k.same_sc;
      lock = refl;
      disciplined = (k.lock, k.disciplined);
      written = k.written;
    },
  )

  unlock_unless-Written :
      (locked : Bool) (w : World) {ws : List Access}
      → Written true u w ws
      → Returns (λ _ w'. Written locked u w' ws) (unlock_unless locked d w)
  unfolding unlock_unless
  unlock_unless-Written true w k = k
  unlock_unless-Written false w k = record {
    same_sc = k.same_sc;
    lock = refl;
    disciplined = (k.lock, k.disciplined);
    written = k.written;
  }

-- What opt_csr holds when a command comes.
abbrev pub opt_before : Bool → Device → World → ℕ
opt_before locked d w = value_at d (entered locked w.trace) opt_csr

-- The effect of a command on the driver's own output i, and on the other side.
pub record Shown (data_ i : ℕ) (locked : Bool) (d : Device) (w w' : World) : Type 0 where
  pub new : ℕ
  pub all :
      Written locked w w' (far_commands w.sc.remote_hw data_ (put opt_csr new ∷ writes w.trace))
  pub output :
      bit_at (4 + i) new
      ≡ max
          (bit_at (8 + i) data_)
          (min (bit_at (4 + i) (opt_before locked d w)) (1 - bit_at (24 + i) data_))

-- sis1100_front_io ends on every device. It writes opt_csr, in which each of the four outputs of the
-- driver's own panel is then set if the command has its digit for setting, cleared if it has only the
-- one for clearing, and else as opt_csr had it when it came. It writes to in_out and then to vme_master_sc or camac_sc of a
-- VME or CAMAC controller the digits that the command has of them, if there are any, and nothing
-- else. The softc is as before. It takes sem_hw and frees it unless the caller holds it, and touches
-- the registers of the other side only under sem_hw.
pub front_io-Shown :
    (data_ i : ℕ) (locked : Bool) (d : Device) (w : World)
    → i < 4
    → held w.trace ≡ locked
    → Disciplined w.trace
    → Returns (λ _ w'. Shown data_ i locked d w w') (front_io data_ locked d w)
unfolding front_io
front_io-Shown data_ i locked d w lt h dis =
    let k0 : Written locked w w (writes w.trace) = record {
      same_sc = refl;
      lock = h;
      disciplined = dis;
      written = refl;
    } in
    let (x, w1, eq1, (t1, k1)) =
      Returns-cases _ (lock_unless locked d w) (lock_unless-Written d locked w k0) in
    let opt = value_at d w1.trace opt_csr in
    let new = outputs opt data_ in
    let w2 = log (put opt_csr new) (log (get opt_csr opt) w1) in
    let k2 : Written true w w2 (put opt_csr new ∷ writes w.trace) = record {
      same_sc = k1.same_sc;
      lock = k1.lock;
      disciplined = (tt, (tt, k1.disciplined));
      written = ap (λ l. put opt_csr new ∷ l) k1.written;
    } in
    let (y, w3, eq3, k3) =
      Returns-cases _ (far_io w1.sc.remote_hw data_ d w2)
        (far_io-Written d w1.sc.remote_hw data_ w2 k2) in
    let (z, w4, eq4, k4) =
      Returns-cases _ (unlock_unless locked d w3) (unlock_unless-Written d locked w3 k3) in
    rw (eq1, ◌>>=◌)
      (rw (eq3, ◌>>=◌)
        (rw (eq4, Returns)
          (record {
            new = new;
            all =
                subst
                  (λ sc.
                    Written locked w w4
                      (far_commands sc.remote_hw data_ (put opt_csr new ∷ writes w.trace)))
                  k1.same_sc k4;
            output =
                subst
                  (λ o.
                    bit_at (4 + i) new
                    ≡ max (bit_at (8 + i) data_)
                        (min (bit_at (4 + i) o) (1 - bit_at (24 + i) data_)))
                  (ap (λ t. value_at d t opt_csr) t1) (outputs-output opt data_ i lt);
          })))
