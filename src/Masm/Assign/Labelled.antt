-- ===== src/Masm/Assign/Labelled.antt =====
-- src/libisa/masm/backend/assign_addr.tpp: the symbols that stand on the lines of a section, and what the loops
-- leave alone.
use libsim.Prelude.{
  ℕ, ◌+◌, ◌-◌, ◌≡◌, inl, inr, refl, sym, ap, ◌∙◌, subst, Bool, false, Option, none, some, List, [],
  ◌∷◌, ◌++◌, ltb, if◌then◌else◌, get_elem?, All, if-cases,
}
use libsim.Prelude.Exec.{Outcome, ok}
use libsim.Pep10.Isa.{then_ok}
use libsim.Symbol.{Entry, SymbolType}
use libsim.Masm.Ir.{
  Common, Kind, Lines, simple, macro_invocation, end_of_lines, line, bytes_type, symbolic_operand,
  object_code_bytes, macro_bytes, span_from, set_begin_address,
}
use libsim.Masm.Ir.Emit.{then_ok-ok, ok-injective}
use libsim.Masm.Assign.{
  Pass, Assigned, visit_line, visit_macro, point_next, move_to, before, stop_at,
  assign_section_forward, location_type, is_equate, positive_overflow,
}
use libsim.Masm.Assign.Begin.{set_begin-BeginsAt}
use libsim.Masm.Assign.Labels.{Apart, Labels, visit_frame}

-- The symbols of all lines.
abbrev pub symbols : Lines → List (Option ℕ)
symbols end_of_lines = []
symbols (line (simple c kind) ls) = c.symbol_entry ∷ symbols ls
symbols (line (macro_invocation c body) ls) = c.symbol_entry ∷ (symbols body ++ symbols ls)

abbrev pub Fresh : Option ℕ → List (Option ℕ) → Type 0
Fresh none os = Unit
Fresh (some i) os = All (Apart i) os

-- No symbol stands on two lines.
abbrev pub Distinct : List (Option ℕ) → Type 0
Distinct [] = Unit
Distinct (o ∷ os) = Fresh o os × Distinct os

abbrev pub LabelOf : List Entry → Common → Kind → Type 0
LabelOf es c kind =
    is_equate kind ≡ false
    → Labels es c.begin_address (location_type (bytes_type kind)) c.symbol_entry

-- Each symbol that is defined once, on a line that is no `.EQUATE`, holds the begin of the line.
abbrev pub Labelled : List Entry → Lines → Type 0
Labelled es end_of_lines = Unit
Labelled es (line (simple c kind) ls) = LabelOf es c kind × Labelled es ls
Labelled es (line (macro_invocation c body) ls) =
    Labels es c.begin_address SymbolType.object c.symbol_entry × Labelled es body × Labelled es ls

abbrev pub Same : List Entry → List Entry → Option ℕ → Type 0
Same es fs none = Unit
Same es fs (some i) = get_elem? fs i ≡ get_elem? es i

pub Labels-Same :
    (es fs : List Entry) (address : ℕ) (type : SymbolType) (o : Option ℕ)
    → Same es fs o
    → Labels es address type o
    → Labels fs address type o
Labels-Same es fs address type none h k = tt
Labels-Same es fs address type (some i) h k = λ e g s. k e (sym h ∙ g) s

All-append_left {ℓ κ} :
    {A : Type ℓ} (P : A → Type κ) (xs ys : List A) → All P (xs ++ ys) → All P xs × All P ys
All-append_left P [] ys h = (tt, h)
All-append_left P (x ∷ xs) ys h = let rest = All-append_left P xs ys h.1 in ((h.0, rest.0), rest.1)

pub Labelled-Same :
    (es fs : List Entry) (ms : Lines)
    → All (Same es fs) (symbols ms)
    → Labelled es ms
    → Labelled fs ms
Labelled-Same es fs end_of_lines h k = tt
Labelled-Same es fs (line (simple c kind) ls) h k = (
  λ e.
      Labels-Same es fs c.begin_address (location_type (bytes_type kind)) c.symbol_entry h.0
        (k.0 e),
  Labelled-Same es fs ls h.1 k.1,
)
Labelled-Same es fs (line (macro_invocation c body) ls) h k =
    let parts = All-append_left (Same es fs) (symbols body) (symbols ls) h.1 in
    (
      Labels-Same es fs c.begin_address SymbolType.object c.symbol_entry h.0 k.0,
      Labelled-Same es fs body parts.0 k.1,
      Labelled-Same es fs ls parts.1 k.2,
    )

pub Distinct-append :
    (xs ys : List (Option ℕ))
    → Distinct (xs ++ ys)
    → Distinct xs × Distinct ys × All (λ o. Fresh o ys) xs
Distinct-append [] ys h = (tt, h, tt)
Distinct-append (none ∷ xs) ys h =
    let rest = Distinct-append xs ys h.1 in ((tt, rest.0), rest.1, (tt, rest.2))
Distinct-append (some i ∷ xs) ys h =
    let rest = Distinct-append xs ys h.1 in
    let apart = All-append_left (Apart i) xs ys h.0 in
    ((apart.0, rest.0), rest.1, (apart.1, rest.2))

-- A loop over lines leaves the other symbols alone, and its lines keep theirs.
pub record Confined (ls : Lines) (p : Pass) (d : Assigned) : Type 0 where
  pub frame :
      (j : ℕ) → All (Apart j) (symbols ls) → get_elem? d.pass.entries j ≡ get_elem? p.entries j
  pub kept : symbols d.lines ≡ symbols ls

-- The symbols that are apart from those of some lines are the same after them.
pub Same-Confined :
    (ls : Lines) (p : Pass) (d : Assigned) (os : List (Option ℕ))
    → Confined ls p d
    → All (λ o. Fresh o (symbols ls)) os
    → All (Same p.entries d.pass.entries) os
Same-Confined ls p d [] h k = tt
Same-Confined ls p d (none ∷ os) h k = (tt, Same-Confined ls p d os h k.1)
Same-Confined ls p d (some i ∷ os) h k = (h.frame i k.0, Same-Confined ls p d os h k.1)

simple-Confined :
    (ls : Lines) (c c' : Common) (kind : Kind) (p q : Pass) (n : ℕ) (good : Bool)
    (rest : Outcome Assigned) (d : Assigned)
    → ((r : Assigned) → rest ≡ ok r → Confined ls (move_to (q.base_address + n) q) r)
    → c'.symbol_entry ≡ c.symbol_entry
    → ((j : ℕ) → Apart j c.symbol_entry → get_elem? q.entries j ≡ get_elem? p.entries j)
    → (if ltb (65535 - q.base_address) n
        then ok (stop_at (simple c' (point_next kind)) ls (positive_overflow c.source_line) q)
        else (then_ok rest λ r. ok (before good (simple c' (point_next kind)) r)))
      ≡ ok d
    → Confined (line (simple c kind) ls) p d
unfolding stop_at before move_to
simple-Confined ls c c' kind p q n good rest d more same frame h =
    elim (if-cases (ltb (65535 - q.base_address) n) _ _ _ h) [
      | inl over ↦
          subst (Confined (line (simple c kind) ls) p) (ok-injective over.1)
            (record { frame = λ j a. frame j a.0; kept = ap (λ o. o ∷ symbols ls) same })
      | inr fits ↦
          let (r, e, made) = then_ok-ok rest _ d fits.1 in
          let inside = more r e in
          subst (Confined (line (simple c kind) ls) p) (ok-injective made) (record {
            frame = λ j a. inside.frame j a.1 ∙ frame j a.0;
            kept = rw (same, inside.kept) refl;
          })
    ]

pub forward-Confined :
    (ls : Lines) (p : Pass) (d : Assigned) → assign_section_forward ls p ≡ ok d → Confined ls p d
unfolding assign_section_forward visit_line visit_macro move_to before span_from
forward-Confined end_of_lines p d h =
    subst (Confined end_of_lines p) (ok-injective h) (record { frame = λ j a. refl; kept = refl })
forward-Confined (line (simple c kind) ls) p d h =
    let (c', begun, h1) = then_ok-ok (set_begin_address p.entries c kind p.base_address) _ d h in
    let q = visit_line c' kind p in
    let (n, size, h2) = then_ok-ok (object_code_bytes q.1.entries c' kind) _ d h1 in
    let same = (set_begin-BeginsAt p.entries c c' kind p.base_address begun).2 in
    simple-Confined ls c c' kind p q.1 n q.0 _ d (λ r e. forward-Confined ls _ r e) same
      (λ j a.
        visit_frame c' (symbolic_operand kind) (location_type (bytes_type kind)) (is_equate kind) p
          j (subst (Apart j) (sym same) a))
      h2
forward-Confined (line (macro_invocation c body) ls) p d h =
    let (n, size, h1) = then_ok-ok (macro_bytes p.entries body) _ d h in
    let c' = span_from p.base_address n c in
    let q = visit_macro c' p in
    let (inner, e, h2) = then_ok-ok (assign_section_forward body q.1) _ d h1 in
    let (r, f, made) = then_ok-ok (assign_section_forward ls inner.pass) _ d h2 in
    let inside = forward-Confined body q.1 inner e in
    let rest = forward-Confined ls inner.pass r f in
    subst (Confined (line (macro_invocation c body) ls) p) (ok-injective made) (record {
      frame = λ j a.
          let parts = All-append_left (Apart j) (symbols body) (symbols ls) a.1 in
          rest.frame j parts.1
          ∙ inside.frame j parts.0
          ∙ visit_frame c' none SymbolType.object false p j a.0;
      kept = rw (inside.kept, rest.kept) refl;
    })
