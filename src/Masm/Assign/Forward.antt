-- ===== src/Masm/Assign/Forward.antt =====
-- src/libisa/masm/backend/assign_addr.tpp: what the loop that assigns addresses forwards leaves of the lines.
use libsim.Prelude.{
  ℕ, ◌+◌, ◌-◌, ◌≤◌, ◌≡◌, inl, inr, refl, sym, ap, ◌∙◌, subst, Bool, true, false, none, List, [],
  ◌∷◌, ltb, if◌then◌else◌, ◌&&◌, arith, both_true, if-cases,
}
use libsim.Prelude.Exec.{Outcome, ok}
use libsim.Pep10.Isa.{then_ok}
use libsim.Symbol.{Entry, SymbolType}
use libsim.Masm.Ir.{
  Common, Kind, Lines, simple, macro_invocation, end_of_lines, line, bytes_type, symbolic_operand,
  object_code_bytes, macro_bytes, span_from, set_begin_address,
}
use libsim.Masm.Ir.Emit.{
  then_ok-ok, ok-injective, flatten, IsParsed, object_code_bytes-IsParsed, IsEmitting,
}
use libsim.Masm.Assign.{
  Pass, Assigned, visit_line, visit_macro, point_next, move_to, before, stop_at,
  assign_section_forward, positive_overflow, location_type, is_equate,
}
use libsim.Masm.Assign.Begin.{
  BeginsAt, set_begin-BeginsAt, set_begin-end, point_next-same, point_next-IsParsed,
  point_next-last_address, point_next-bytes_type,
}
use libsim.Masm.Assign.Layout.{Consecutive, Consecutive-append, visit-base_address, last_address}

-- The arguments of all lines are those that the parser makes.
abbrev pub AllParsed : Lines → Type 0
AllParsed end_of_lines = Unit
AllParsed (line (simple c kind) ls) = IsParsed kind × AllParsed ls
AllParsed (line (macro_invocation c body) ls) = AllParsed body × AllParsed ls

-- What a loop over lines promises of the lines that it returns.
pub record LaidOut (es : List Entry) (ls : Lines) (b : ℕ) (ms : Lines) (e : ℕ) : Type 0 where
  pub laid : Consecutive es b (flatten ms) e
  pub parsed : AllParsed ms
  pub emitting : IsEmitting ls → IsEmitting ms

pub ltb-false : (a b : ℕ) → ltb a b ≡ false → b ≤ a
ltb-false a b h = ground arith

-- What the rest of the loop promises, if it goes well.
abbrev Continues : List Entry → Lines → ℕ → Outcome Assigned → Type 0
Continues es ls b rest =
    (d : Assigned)
    → b ≤ 65535
    → rest ≡ ok d
    → d.success ≡ true
    → LaidOut es ls b d.lines d.pass.base_address

-- A line that fits, in front of the rest.
before-LaidOut :
    (es : List Entry) (ls : Lines) (c c' : Common) (kind : Kind) (b n : ℕ) (good : Bool)
    (d : Assigned)
    → IsParsed kind
    → BeginsAt b c c'
    → object_code_bytes es c' kind ≡ ok n
    → b + n ≤ 65535
    → c'.end_address ≡ last_address kind b n
    → (d.success ≡ true → LaidOut es ls (b + n) d.lines d.pass.base_address)
    → (good && d.success) ≡ true
    → LaidOut es
        (line (simple c kind) ls)
        b
        (line (simple c' (point_next kind)) d.lines)
        d.pass.base_address
before-LaidOut es ls c c' kind b n good d p begun size fits ends more t =
    let rest = more (both_true good d.success t).1 in
    record {
      laid = (
        n,
        point_next-same es c' kind ∙ size,
        begun.0,
        fits,
        ends ∙ sym (point_next-last_address kind b n),
        rest.laid,
      );
      parsed = (point_next-IsParsed kind p, rest.parsed);
      emitting = λ k. (
        elim k.0 [ inl off ↦ inl (point_next-bytes_type kind ∙ off) | inr on ↦ inr (begun.1 ∙ on) ],
        rest.emitting k.1,
      );
    }

simple-LaidOut :
    (es : List Entry) (ls : Lines) (c c' : Common) (kind : Kind) (p q : Pass) (n : ℕ) (good : Bool)
    (rest : Outcome Assigned) (d : Assigned)
    → IsParsed kind
    → BeginsAt p.base_address c c'
    → q.base_address ≡ p.base_address
    → object_code_bytes q.entries c' kind ≡ ok n
    → (p.base_address + n ≤ 65535 → c'.end_address ≡ last_address kind p.base_address n)
    → Continues es ls (q.base_address + n) rest
    → (if ltb (65535 - q.base_address) n
        then ok (stop_at (simple c' (point_next kind)) ls (positive_overflow c.source_line) q)
        else (then_ok rest λ r. ok (before good (simple c' (point_next kind)) r)))
      ≡ ok d
    → d.success ≡ true
    → q.base_address ≤ 65535
    → LaidOut es (line (simple c kind) ls) p.base_address d.lines d.pass.base_address
unfolding stop_at before
simple-LaidOut es ls c c' kind p q n good rest d parsed begun same size ends more h t low =
    elim (if-cases (ltb (65535 - q.base_address) n) _ _ _ h) [
      | inl over ↦ absurd (cc (ok-injective over.1, t))
      | inr fits ↦
          let (r, e, made) = then_ok-ok rest _ d fits.1 in
          let eq = ok-injective made in
          let below = ltb-false (65535 - q.base_address) n fits.0 in
          subst
            (λ x. LaidOut es (line (simple c kind) ls) p.base_address x.lines x.pass.base_address)
            eq
            (subst
              (λ b.
                LaidOut es (line (simple c kind) ls) b (line (simple c' (point_next kind)) r.lines)
                  r.pass.base_address)
              same
              (before-LaidOut es ls c c' kind q.base_address n good r parsed
                (begun.0 ∙ sym same, begun.1, begun.2)
                (object_code_bytes-IsParsed es q.entries c' kind parsed ∙ size) (omega arith)
                (ends (omega arith) ∙ ap (λ b. last_address kind b n) (sym same))
                (more r (omega arith) e) (ap (λ x. x.success) eq ∙ t)))
    ]

Consecutive-end :
    (es : List Entry) (b e : ℕ) (items : List (Common × Kind))
    → Consecutive es b items e
    → b ≤ 65535
    → e ≤ 65535
Consecutive-end es b e [] h low = omega (arith, h)
Consecutive-end es b e ((c, kind) ∷ items) (n, size, start, fits, ends, h) low =
    Consecutive-end es (b + n) e items h fits

-- A macro that is laid out, in front of the rest.
macro-LaidOut :
    (es : List Entry) (body ls : Lines) (c c' : Common) (b : ℕ) (good : Bool) (inner r d : Assigned)
    → (inner.success ≡ true → LaidOut es body b inner.lines inner.pass.base_address)
    → (inner.pass.base_address ≤ 65535
        → r.success ≡ true
        → LaidOut es ls inner.pass.base_address r.lines r.pass.base_address)
    → b ≤ 65535
    → c'.emits_object_code ≡ c.emits_object_code
    → before (good && inner.success) (macro_invocation c' inner.lines) r ≡ d
    → d.success ≡ true
    → LaidOut es (line (macro_invocation c body) ls) b d.lines d.pass.base_address
unfolding before
macro-LaidOut es body ls c c' b good inner r d first more low same eq t =
    let goods = both_true (good && inner.success) r.success (ap (λ x. x.success) eq ∙ t) in
    let inside = first (both_true good inner.success goods.0).1 in
    let rest = more (Consecutive-end es b inner.pass.base_address _ inside.laid low) goods.1 in
    subst (λ x. LaidOut es (line (macro_invocation c body) ls) b x.lines x.pass.base_address) eq
      (record {
        laid =
            Consecutive-append es b inner.pass.base_address r.pass.base_address _ _ inside.laid
              rest.laid;
        parsed = (inside.parsed, rest.parsed);
        emitting = λ k. (same ∙ k.0, inside.emitting k.1, rest.emitting k.2);
      })

pub forward-LaidOut :
    (es : List Entry) (ls : Lines) (p : Pass) (d : Assigned)
    → AllParsed ls
    → p.base_address ≤ 65535
    → assign_section_forward ls p ≡ ok d
    → d.success ≡ true
    → LaidOut es ls p.base_address d.lines d.pass.base_address
unfolding assign_section_forward move_to visit_line visit_macro span_from
forward-LaidOut es end_of_lines p d a low h t =
    subst (λ r. LaidOut es end_of_lines p.base_address r.lines r.pass.base_address) (ok-injective h)
      (record { laid = refl; parsed = tt; emitting = λ k. tt })
forward-LaidOut es (line (simple c kind) ls) p d a low h t =
    let (c', begun, h1) = then_ok-ok (set_begin_address p.entries c kind p.base_address) _ d h in
    let (n, size, h2) =
      then_ok-ok (object_code_bytes (visit_line c' kind p).1.entries c' kind) _ d h1 in
    let base =
      visit-base_address c' (symbolic_operand kind) (location_type (bytes_type kind))
        (is_equate kind) p in
    simple-LaidOut es ls c c' kind p (visit_line c' kind p).1 n (visit_line c' kind p).0 _ d a.0
      (set_begin-BeginsAt p.entries c c' kind p.base_address begun) base size
      (λ u.
        set_begin-end p.entries (visit_line c' kind p).1.entries c c' kind p.base_address n a.0 u
          begun size)
      (λ r le e u. forward-LaidOut es ls _ r a.1 le e u) h2 t (omega (arith, base))
forward-LaidOut es (line (macro_invocation c body) ls) p d a low h t =
    let (n, size, h1) = then_ok-ok (macro_bytes p.entries body) _ d h in
    let c' = span_from p.base_address n c in
    let base = visit-base_address c' none SymbolType.object false p in
    let (inner, e, h2) = then_ok-ok (assign_section_forward body (visit_macro c' p).1) _ d h1 in
    let (r, f, made) = then_ok-ok (assign_section_forward ls inner.pass) _ d h2 in
    macro-LaidOut es body ls c c' p.base_address (visit_macro c' p).0 inner r d
      (λ u.
        subst (λ b. LaidOut es body b inner.lines inner.pass.base_address) base
          (forward-LaidOut es body _ inner a.0 (omega (arith, base)) e u))
      (λ le u. forward-LaidOut es ls inner.pass r a.1 le f u) low refl (ok-injective made) t
