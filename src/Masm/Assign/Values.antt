-- ===== src/Masm/Assign/Values.antt =====
-- src/libisa/masm/backend/assign_addr.tpp: the values of symbols after the loop that assigns addresses
-- forwards.
use libsim.Prelude.{
  ℕ, ◌+◌, ◌-◌, ◌≡◌, inl, inr, refl, sym, ap, ◌∙◌, subst, Bool, true, false, Option, none, List, [],
  ◌∷◌, ◌++◌, ltb, if◌then◌else◌, ◌&&◌, All, both_true, if-cases,
}
use libsim.Prelude.Exec.{Outcome, ok}
use libsim.Pep10.Isa.{then_ok}
use libsim.Symbol.{Entry, SymbolType}
use libsim.Masm.Ir.{
  Common, Kind, Lines, simple, macro_invocation, end_of_lines, line, bytes_type, symbolic_operand,
  object_code_bytes, macro_bytes, span_from, set_begin_address, dot_align,
}
use libsim.Masm.Ir.Emit.{then_ok-ok, ok-injective}
use libsim.Masm.Assign.{
  Pass, Assigned, visit_line, visit_macro, point_next, move_to, before, stop_at,
  assign_section_forward, location_type, is_equate, positive_overflow,
}
use libsim.Masm.Assign.Begin.{set_begin-BeginsAt}
use libsim.Masm.Assign.Labels.{Labels, visit-Labels}
use libsim.Masm.Assign.Labelled.{
  symbols, Fresh, Distinct, LabelOf, Labelled, Same, Labels-Same, Labelled-Same, Distinct-append,
  Confined, Same-Confined, forward-Confined,
}

point_next-LabelOf :
    (es : List Entry) (c : Common) (kind : Kind)
    → LabelOf es c kind
    → LabelOf es c (point_next kind)
unfolding point_next is_equate bytes_type location_type
point_next-LabelOf es c (dot_align argument direction) h = h
point_next-LabelOf es c kind h = h

-- A label that is fresh for the lines that follow outlasts them.
label-Confined :
    (ls : Lines) (p : Pass) (d : Assigned) (address : ℕ) (type : SymbolType) (o : Option ℕ)
    → Confined ls p d
    → Fresh o (symbols ls)
    → Labels p.entries address type o
    → Labels d.pass.entries address type o
label-Confined ls p d address type o h fresh k =
    Labels-Same p.entries d.pass.entries address type o
      (Same-Confined ls p d (o ∷ []) h (fresh, tt)).0 k

simple-Labelled :
    (ls : Lines) (c c' : Common) (kind : Kind) (q : Pass) (n : ℕ) (good : Bool)
    (rest : Outcome Assigned) (d : Assigned)
    → ((r : Assigned) → rest ≡ ok r → Confined ls (move_to (q.base_address + n) q) r)
    → ((r : Assigned) → rest ≡ ok r → r.success ≡ true → Labelled r.pass.entries r.lines)
    → Fresh c'.symbol_entry (symbols ls)
    → LabelOf q.entries c' kind
    → (if ltb (65535 - q.base_address) n
        then ok (stop_at (simple c' (point_next kind)) ls (positive_overflow c.source_line) q)
        else (then_ok rest λ r. ok (before good (simple c' (point_next kind)) r)))
      ≡ ok d
    → d.success ≡ true
    → Labelled d.pass.entries d.lines
unfolding stop_at before move_to
simple-Labelled ls c c' kind q n good rest d confined more fresh label h t =
    elim (if-cases (ltb (65535 - q.base_address) n) _ _ _ h) [
      | inl over ↦ absurd (cc (ok-injective over.1, t))
      | inr fits ↦
          let (r, e, made) = then_ok-ok rest _ d fits.1 in
          let eq = ok-injective made in
          let goods = both_true good r.success (ap (λ x. x.success) eq ∙ t) in
          subst (λ x. Labelled x.pass.entries x.lines) eq
            (
              point_next-LabelOf r.pass.entries c' kind (λ off.
                  label-Confined ls (move_to (q.base_address + n) q) r c'.begin_address
                    (location_type (bytes_type kind)) c'.symbol_entry (confined r e) fresh
                    (label off)),
              more r e goods.1,
            )
    ]

macro-Labelled :
    (body ls : Lines) (c' : Common) (p : Pass) (good : Bool) (inner r d : Assigned)
    → Confined body p inner
    → Confined ls inner.pass r
    → (inner.success ≡ true → Labelled inner.pass.entries inner.lines)
    → (r.success ≡ true → Labelled r.pass.entries r.lines)
    → Fresh c'.symbol_entry (symbols body ++ symbols ls)
    → Distinct (symbols body ++ symbols ls)
    → Labels p.entries c'.begin_address SymbolType.object c'.symbol_entry
    → before (good && inner.success) (macro_invocation c' inner.lines) r ≡ d
    → d.success ≡ true
    → Labelled d.pass.entries d.lines
unfolding before
macro-Labelled body ls c' p good inner r d inside outside first more fresh apart label eq t =
    let goods = both_true (good && inner.success) r.success (ap (λ x. x.success) eq ∙ t) in
    let parts = Distinct-append (symbols body) (symbols ls) apart in
    let both = Distinct-append (c'.symbol_entry ∷ symbols body) (symbols ls) (fresh, apart) in
    subst (λ x. Labelled x.pass.entries x.lines) eq
      (
        label-Confined ls inner.pass r c'.begin_address SymbolType.object c'.symbol_entry outside
            both.2.0
            (label-Confined body p inner c'.begin_address SymbolType.object c'.symbol_entry inside
              both.0.0 label),
        Labelled-Same inner.pass.entries r.pass.entries inner.lines
            (subst (All (Same inner.pass.entries r.pass.entries)) (sym inside.kept)
              (Same-Confined ls inner.pass r (symbols body) outside parts.2))
            (first (both_true good inner.success goods.0).1),
        more goods.1,
      )

-- A section on whose lines no symbol stands twice is assigned forwards without an error. Then every symbol that
-- is defined once and stands on a line, also in a macro, holds as its value the begin of the line, with the
-- line's type, except on an `.EQUATE`.
pub forward-Labelled :
    (ls : Lines) (p : Pass) (d : Assigned)
    → Distinct (symbols ls)
    → assign_section_forward ls p ≡ ok d
    → d.success ≡ true
    → Labelled d.pass.entries d.lines
unfolding assign_section_forward visit_line visit_macro move_to span_from
forward-Labelled end_of_lines p d a h t =
    subst (λ x. Labelled x.pass.entries x.lines) (ok-injective h) tt
forward-Labelled (line (simple c kind) ls) p d a h t =
    let (c', begun, h1) = then_ok-ok (set_begin_address p.entries c kind p.base_address) _ d h in
    let q = visit_line c' kind p in
    let (n, size, h2) = then_ok-ok (object_code_bytes q.1.entries c' kind) _ d h1 in
    let same = (set_begin-BeginsAt p.entries c c' kind p.base_address begun).2 in
    simple-Labelled ls c c' kind q.1 n q.0 _ d (λ r e. forward-Confined ls _ r e)
      (λ r e u. forward-Labelled ls _ r a.1 e u) (subst (λ o. Fresh o (symbols ls)) (sym same) a.0)
      (visit-Labels c' (symbolic_operand kind) (location_type (bytes_type kind)) (is_equate kind) p)
      h2 t
forward-Labelled (line (macro_invocation c body) ls) p d a h t =
    let (n, size, h1) = then_ok-ok (macro_bytes p.entries body) _ d h in
    let c' = span_from p.base_address n c in
    let q = visit_macro c' p in
    let (inner, e, h2) = then_ok-ok (assign_section_forward body q.1) _ d h1 in
    let (r, f, made) = then_ok-ok (assign_section_forward ls inner.pass) _ d h2 in
    let parts = Distinct-append (symbols body) (symbols ls) a.1 in
    macro-Labelled body ls c' q.1 q.0 inner r d (forward-Confined body q.1 inner e)
      (forward-Confined ls inner.pass r f) (λ u. forward-Labelled body q.1 inner parts.0 e u)
      (λ u. forward-Labelled ls inner.pass r parts.1 f u) a.0 a.1
      (visit-Labels c' none SymbolType.object false p refl) (ok-injective made) t
