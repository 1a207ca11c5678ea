-- ===== src/Pep10/View/Memory.antt =====
-- src/libisa/isa/pep10/local_processor.tpp: reads and writes of bytes and words, on views.
use libsim.Prelude.{
  ℕ, ◌+◌, ◌*◌, ◌/◌, ◌%◌, ◌<◌, ◌≡◌, ◌≢◌, refl, sym, ap, ◌∙◌, subst, Bool, true, false, ◌==◌,
  if◌then◌else◌, u16, u8, arith, bit_and, bit_or, ◌<<<◌, ◌>>>◌,
}
use libsim.Prelude.Bits.{bit_or_bytes, bit_and_byte, halve, halve-bit_and}
use libsim.Prelude.Exec.{Outcome, ok, Exec, ◌>>◌}
use libsim.Storage.Device.{Device}
use libsim.Storage.Ram.{Ram}
use libsim.Pep10.State.{Machine}
use libsim.Pep10.Access.{in_memory, read_byte, read_word, write_byte, write_word}
use libsim.Pep10.View.{View, set_byte, set_word, word_at, Shows, Runs}
use libsim.Pep10.View.Access.{Runs-pure, Runs-bind}

-- The two bytes that `write_word` stores.
high_byte : (v : ℕ) → bit_and (v % 65536) 0xff00 / 256 ≡ v / 256 % 256
high_byte v =
    let shift : (x : ℕ) → x / 256 ≡ halve 8 x = λ x. omega arith in
    shift (bit_and (v % 65536) 0xff00)
    ∙ halve-bit_and 8 (v % 65536) 0xff00
    ∙ ap (λ t. bit_and t 0xff) (sym (shift (v % 65536)))
    ∙ bit_and_byte (v % 65536 / 256)
    ∙ omega arith

module _ {M H : Type 0} ⦃dev : Device M H ℕ⦄ (ram : Ram dev) where
  peek-Runs : (a : ℕ) (w : View) → Runs ram (in_memory (dev.read (u16 a))) w (w.byte (u16 a)) w
  peek-Runs a w = record {
    from = λ m h.
        let (v, e) = ram.read_in_range (u16 a) m.memory h.good (omega (arith, h.full)) in
        let known : v ≡ w.byte (u16 a) =
          ok_injective (ap (λ p. p.0) (sym e) ∙ h.bytes (u16 a) (omega arith)) in
        (m, ap (λ p. (p.0, record m { memory = p.1 })) e ∙ ap (λ t. (ok t, m)) known, h);
  }
    where
      ok_injective : {x y : ℕ} → ok x ≡ ok y → x ≡ y
      ok_injective e = cc

  poke-Runs :
      (a v : ℕ) (w : View) → Runs ram (in_memory (dev.write (u16 a) (u8 v))) w tt (set_byte a v w)
  poke-Runs a v w = record {
    from = λ m h.
        let (d', e, good, top, bytes) =
          ram.write_in_range (u16 a) (u8 v) m.memory h.good (omega (arith, h.full)) in
        (
          record m { memory = d' },
          ap (λ p. (p.0, record m { memory = p.1 })) e,
          record {
            wf = record { registers = h.wf.registers; csrs = h.wf.csrs };
            good = good;
            full = top ∙ h.full;
            registers = h.registers;
            flags = h.flags;
            bytes = λ p lt. bytes p ∙ pick (u16 a == p) (h.bytes p lt);
            small = λ p. under (u16 a == p) (h.small p);
            calls = h.calls;
          },
        );
  }
    where
      pick :
          (b : Bool) {r : Outcome ℕ} {x : ℕ}
          → r ≡ ok x
          → (if b then ok (u8 v) else r) ≡ ok (if b then u8 v else x)
      pick true e = refl
      pick false e = e

      under : (b : Bool) {x : ℕ} → x < 256 → (if b then u8 v else x) < 256
      under true h = omega arith
      under false h = h

  pub read_byte-Runs : (a : ℕ) (w : View) → Runs ram (read_byte a) w (w.byte (u16 a)) w
  unfolding read_byte
  read_byte-Runs = peek-Runs

  pub write_byte-Runs : (a v : ℕ) (w : View) → Runs ram (write_byte a v) w tt (set_byte a v w)
  unfolding write_byte
  write_byte-Runs = poke-Runs

  -- From every machine that shows w, read_word succeeds, changes nothing that a view shows, and
  -- gives the two bytes at the address and the next, modulo 2^16, the high byte first.
  pub read_word-Runs : (a : ℕ) (w : View) → Runs ram (read_word a) w (word_at w a) w
  unfolding read_word
  read_word-Runs a w = record {
    from = λ m h.
        subst (λ v. (m' : Machine M H) × (read_word a m ≡ (ok v, m')) × Shows ram m' w)
          (joined (w.byte (u16 a)) (w.byte (u16 (u16 a + 1))) (h.small (u16 a))
              (h.small (u16 (u16 a + 1)))
            ∙ ap (λ t. w.byte (u16 a) * 256 + w.byte t) next)
          ((Runs-bind ram (in_memory (dev.read (u16 a))) _ (peek-Runs a w) (
              Runs-bind ram (in_memory (dev.read (u16 (u16 a + 1)))) _ (peek-Runs (u16 a + 1) w)
                (Runs-pure ram _ w))).from
            m h);
  }
    where
      joined : (x y : ℕ) → x < 256 → y < 256 → u16 (bit_or (x <<< 8) y) ≡ x * 256 + y
      joined x y p q = omega (arith, bit_or_bytes x y q)

      next : u16 (u16 a + 1) ≡ u16 (a + 1)
      next = omega arith

  -- From every machine that shows w, write_word succeeds and stores the value's high and low byte at
  -- the address and the next, modulo 2^16; nothing else that a view shows changes.
  pub write_word-Runs : (a v : ℕ) (w : View) → Runs ram (write_word a v) w tt (set_word a v w)
  unfolding write_word
  write_word-Runs a v w =
      subst (λ x. Runs ram x w tt (set_word a v w))
        (ap (λ t. high >> in_memory (dev.write (u16 (u16 a + 1)) t)) (sym low))
        (subst (λ w'. Runs ram (high >> in_memory (dev.write (u16 (u16 a + 1)) (u8 v))) w tt w')
          same
          (Runs-bind ram high _ (poke-Runs a (bit_and (u16 v) 0xff00 >>> 8) w)
            (poke-Runs (u16 a + 1) v _)))
    where
      high : Exec (Machine M H) (Unit {0})
      high = in_memory (dev.write (u16 a) (u8 (bit_and (u16 v) 0xff00 >>> 8)))

      low : bit_and (u16 v) 0xff ≡ u8 v
      low = omega (arith, bit_and_byte (v % 65536))

      upper : u8 (bit_and (u16 v) 0xff00 >>> 8) ≡ u8 (v / 256)
      upper = omega (arith, high_byte v)

      next : u16 (u16 a + 1) ≡ u16 (a + 1)
      next = omega arith

      same : set_byte (u16 a + 1) v (set_byte a (bit_and (u16 v) 0xff00 >>> 8) w) ≡ set_word a v w
      same = λ i. record w {
        byte = λ p. if next i == p then u8 v else if u16 a == p then upper i else w.byte p;
      }

-- Reading a word back, and reading past a write to other bytes.
pub word_at-set_word : (a v : ℕ) (w : View) → word_at (set_word a v w) a ≡ v % 65536
word_at-set_word a v w = ground arith

pub word_at-set_word_same :
    (a b v : ℕ) (w : View) → u16 a ≡ u16 b → word_at (set_word b v w) a ≡ v % 65536
word_at-set_word_same a b v w same =
    let next : u16 (b + 1) ≡ u16 (a + 1) = omega arith in
    subst (λ q. (set_word b v w).byte q * 256 + (set_word b v w).byte (u16 (a + 1)) ≡ v % 65536)
      (sym same)
      (subst (λ q. (set_word b v w).byte (u16 b) * 256 + (set_word b v w).byte q ≡ v % 65536) next
        (word_at-set_word b v w))

pub byte-set_word_other :
    (a v : ℕ) (w : View) (p : ℕ) → p ≢ u16 a → p ≢ u16 (a + 1) → (set_word a v w).byte p ≡ w.byte p
byte-set_word_other a v w p far near = ground arith

pub word_at-set_word_other :
    (a b v : ℕ) (w : View)
    → u16 a ≢ u16 b
    → u16 (a + 1) ≢ u16 b
    → u16 a ≢ u16 (b + 1)
    → word_at (set_word b v w) a ≡ word_at w a
word_at-set_word_other a b v w p q r =
    ap (λ t. t * 256 + (set_word b v w).byte (u16 (a + 1))) (byte-set_word_other b v w (u16 a) p r)
    ∙ ap (λ t. w.byte (u16 a) * 256 + t) (byte-set_word_other b v w (u16 (a + 1)) q (omega arith))

pub word_at-set_byte_other :
    (a b v : ℕ) (w : View)
    → u16 a ≢ u16 b
    → u16 (a + 1) ≢ u16 b
    → word_at (set_byte b v w) a ≡ word_at w a
word_at-set_byte_other a b v w p q = ground arith
