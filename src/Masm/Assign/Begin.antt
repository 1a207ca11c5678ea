-- ===== src/Masm/Assign/Begin.antt =====
-- src/libisa/masm/ir/directives.tpp and base.hpp: what a line is once its begin was set.
use libsim.Prelude.{ℕ, zero, suc, ◌+◌, ◌≤◌, ◌≡◌, refl, sym, ap, ◌∙◌, List, sub16, arith}
use libsim.Prelude.Exec.{Outcome, ok, err, crash}
use libsim.Pep10.Isa.{then_ok}
use libsim.Symbol.{Entry}
use libsim.Masm.Args.{value}
use libsim.Masm.Ir.{
  Common, Kind, bytes_type, object_code_bytes, span_from, set_begin_address, align_from,
  num_bytes_generated, dot_align,
}
use libsim.Masm.Ir.Emit.{then_ok-ok, ok-injective, IsParsed, object_code_bytes-IsParsed}
use libsim.Masm.Assign.{point_next}
use libsim.Masm.Assign.Layout.{last_address, size-IsUnaligned}

-- A line that begins at an address, and is otherwise as before.
abbrev pub BeginsAt : ℕ → Common → Common → Type 0
BeginsAt b c c' =
    (c'.begin_address ≡ b)
    × (c'.emits_object_code ≡ c.emits_object_code)
    × (c'.symbol_entry ≡ c.symbol_entry)

align-begin : (b v : ℕ) (c c' : Common) → align_from b v c ≡ ok c' → BeginsAt b c c'
unfolding align_from
align-begin b zero c c' h = absurd (cc h)
align-begin b (suc v) c c' h =
    let eq = ok-injective h in
    (
      ap (λ r. r.begin_address) (sym eq),
      ap (λ r. r.emits_object_code) (sym eq),
      ap (λ r. r.symbol_entry) (sym eq),
    )

span-begin :
    (b : ℕ) (x : Outcome ℕ) (c c' : Common)
    → then_ok x (λ n. ok (span_from b n c)) ≡ ok c'
    → BeginsAt b c c'
unfolding span_from
span-begin b (ok n) c c' h =
    let eq = ok-injective h in
    (
      ap (λ r. r.begin_address) (sym eq),
      ap (λ r. r.emits_object_code) (sym eq),
      ap (λ r. r.symbol_entry) (sym eq),
    )
span-begin b (err e) c c' h = absurd (cc h)
span-begin b crash c c' h = absurd (cc h)

pub set_begin-BeginsAt :
    (es : List Entry) (c c' : Common) (kind : Kind) (b : ℕ)
    → set_begin_address es c kind b ≡ ok c'
    → BeginsAt b c c'
unfolding set_begin_address
set_begin-BeginsAt es c c' (dot_align argument direction) b h =
    let (v, e, made) = then_ok-ok (value es argument) (λ v. align_from b v c) c' h in
    align-begin b v c c' made
set_begin-BeginsAt es c c' kind b h = span-begin b (object_code_bytes es c kind) c c' h

align-end : (b v : ℕ) (c c' : Common) → align_from b v c ≡ ok c' → c'.end_address ≤ 65535
unfolding align_from
align-end b zero c c' h = absurd (cc h)
align-end b (suc v) c c' h = omega (arith, ap (λ r. r.end_address) (ok-injective h))

-- The end that the line's begin and size come to.
pub set_begin-end :
    (fs gs : List Entry) (c c' : Common) (kind : Kind) (b n : ℕ)
    → IsParsed kind
    → b + n ≤ 65535
    → set_begin_address fs c kind b ≡ ok c'
    → object_code_bytes gs c' kind ≡ ok n
    → c'.end_address ≡ last_address kind b n
unfolding set_begin_address span_from object_code_bytes num_bytes_generated
set_begin-end fs gs c c' (dot_align argument direction) b n p fits h size =
    let (v, e, made) = then_ok-ok (value fs argument) (λ v. align_from b v c) c' h in
    let begun = align-begin b v c c' made in
    omega (arith, fits, align-end b v c c' made, begun.0, ok-injective size)
set_begin-end fs gs c c' kind b n p fits h size =
    let (k, size0, made) =
      then_ok-ok (object_code_bytes fs c kind) (λ n. ok (span_from b n c)) c' h in
    let agree = ok-injective (
      sym size0
      ∙ object_code_bytes-IsParsed fs gs c kind p
      ∙ size-IsUnaligned gs c c' kind tt
      ∙ size) in
    sym (ap (λ x. x.end_address) (ok-injective made)) ∙ ap (λ m. sub16 (b + m) 1) agree

-- The direction of an alignment changes neither its size nor its code.
pub point_next-same :
    (es : List Entry) (c : Common) (kind : Kind)
    → object_code_bytes es c (point_next kind) ≡ object_code_bytes es c kind
unfolding point_next object_code_bytes
point_next-same es c (dot_align argument direction) = refl
point_next-same es c kind = refl

pub point_next-IsParsed : (kind : Kind) → IsParsed kind → IsParsed (point_next kind)
unfolding point_next
point_next-IsParsed (dot_align argument direction) h = h
point_next-IsParsed kind h = h

pub point_next-last_address :
    (kind : Kind) (b n : ℕ) → last_address (point_next kind) b n ≡ last_address kind b n
unfolding point_next
point_next-last_address (dot_align argument direction) b n = refl
point_next-last_address kind b n = refl

pub point_next-bytes_type : (kind : Kind) → bytes_type (point_next kind) ≡ bytes_type kind
unfolding point_next bytes_type
point_next-bytes_type (dot_align argument direction) = refl
point_next-bytes_type kind = refl
