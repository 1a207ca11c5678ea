-- ===== src/Masm/Assign/Backward.antt =====
-- src/libisa/masm/backend/assign_addr.tpp: what the loop that assigns addresses backwards leaves of the
-- lines. `.ALIGN` is left out: its begin is the address before its bytes.
use libsim.Prelude.{
  ℕ, ◌+◌, ◌≤◌, ◌≡◌, ◌⊎◌, inl, inr, refl, sym, ap, ◌∙◌, subst, Bool, true, false, none, List, [],
  ◌∷◌, ◌++◌, ltb, if◌then◌else◌, ◌&&◌, arith, u16, sub16, both_true, if-cases,
}
use libsim.Prelude.Exec.{ok}
use libsim.Symbol.{Entry, SymbolType}
use libsim.Masm.Ir.{
  Common, Kind, Line, Lines, simple, macro_invocation, end_of_lines, line, bytes_type, no_bytes,
  symbolic_operand, object_code_bytes, macro_bytes, span_to, set_end_address, dot_align,
}
use libsim.Masm.Ir.Emit.{
  then_ok-ok, ok-injective, flatten, IsParsed, object_code_bytes-IsParsed, IsEmitting,
}
use libsim.Masm.Assign.{
  Pass, Assigned, visit_line, visit_macro, move_to, before, stop_at, assign_section_backward,
  negative_overflow, location_type, is_equate,
}
use libsim.Masm.Assign.Layout.{IsUnaligned, NoAlign, size-IsUnaligned, visit-base_address}
use libsim.Masm.Assign.Burned.{IsSilent, IsBurned}
use libsim.Masm.Assign.Forward.{AllParsed, ltb-false}

-- Lines that hold no others stand one after the other, modulo 2 ^ 16.
abbrev pub Around : List Entry → ℕ → List (Common × Kind) → ℕ → Type 0
Around es b [] e = b ≡ e
Around es b ((c, kind) ∷ items) e =
    (n : ℕ) × (object_code_bytes es c kind ≡ ok n)
    × (c.begin_address ≡ b)
    × Around es (u16 (b + n)) items e

Around-append :
    (es : List Entry) (b m e : ℕ) (xs ys : List (Common × Kind))
    → Around es b xs m
    → Around es m ys e
    → Around es b (xs ++ ys) e
Around-append es b m e [] ys h k = rw h k
Around-append es b m e ((c, kind) ∷ xs) ys (n, size, start, h) k =
    (n, size, start, Around-append es (u16 (b + n)) m e xs ys h k)

pub Around-parts :
    (es : List Entry) (b e : ℕ) (xs ys : List (Common × Kind))
    → Around es b (xs ++ ys) e
    → (m : ℕ) × Around es b xs m × Around es m ys e
Around-parts es b e [] ys h = (b, refl, h)
Around-parts es b e ((c, kind) ∷ xs) ys (n, size, start, h) =
    let (m, front, back) = Around-parts es (u16 (b + n)) e xs ys h in
    (m, (n, size, start, front), back)

-- The line ends at the given address.
set_end_address-IsUnaligned :
    (es : List Entry) (c c' : Common) (kind : Kind) (address : ℕ)
    → IsUnaligned kind
    → set_end_address es c kind address ≡ ok c'
    → (n : ℕ) × (object_code_bytes es c kind ≡ ok n) × (span_to address n c ≡ c')
unfolding set_end_address
set_end_address-IsUnaligned es c c' (dot_align argument direction) address u h = absurd u
set_end_address-IsUnaligned es c c' kind address u h =
    let (n, size, made) =
      then_ok-ok (object_code_bytes es c kind) (λ n. ok (span_to address n c)) c' h in
    (n, size, ok-injective made)

pub record LaidBack (es : List Entry) (ls : Lines) (b : ℕ) (d : Assigned) : Type 0 where
  pub laid : Around es (u16 (d.pass.base_address + 1)) (flatten d.lines) (u16 (b + 1))
  pub parsed : AllParsed d.lines
  pub emitting : IsEmitting ls → IsEmitting d.lines
  pub silent : IsSilent ls → IsSilent d.lines
  pub burned : IsBurned ls → IsBurned d.lines
  pub finished : d.stopped ≡ false

step_address : (b n : ℕ) → n ≤ b + 1 → u16 (u16 (sub16 b n + 1) + n) ≡ u16 (b + 1)
step_address b n h = omega arith

-- A line that fits, below those that follow.
back-LaidBack :
    (es : List Entry) (ls : Lines) (c c' : Common) (kind : Kind) (b n k : ℕ) (good : Bool)
    (r : Assigned) (q : Pass)
    → IsParsed kind
    → IsUnaligned kind
    → LaidBack es ls b r
    → object_code_bytes r.pass.entries c kind ≡ ok k
    → span_to r.pass.base_address k c ≡ c'
    → q.base_address ≡ r.pass.base_address
    → object_code_bytes q.entries c' kind ≡ ok n
    → n ≤ q.base_address + 1
    → LaidBack es
        (line (simple c kind) ls)
        b
        (before good (simple c' kind) (record r { pass = move_to (sub16 q.base_address n) q }))
unfolding before move_to span_to
back-LaidBack es ls c c' kind b n k good r q parsed un rest size0 made same size fits =
    let agree = ok-injective (
      sym size0
      ∙ object_code_bytes-IsParsed r.pass.entries q.entries c kind parsed
      ∙ size-IsUnaligned q.entries c c' kind un
      ∙ size) in
    let start = sym (ap (λ x. x.begin_address) made) in
    let address = step_address q.base_address n fits in
    let flag = sym (ap (λ x. x.emits_object_code) made) in
    let emits : (bytes_type kind ≡ no_bytes) ⊎ (c.emits_object_code ≡ true)
        → (bytes_type kind ≡ no_bytes) ⊎ (c'.emits_object_code ≡ true) =
      λ h. elim h [ inl off ↦ inl off | inr on ↦ inr (flag ∙ on) ] in
    record {
      laid = (
        n,
        object_code_bytes-IsParsed es q.entries c' kind parsed ∙ size,
        start ∙ rw (agree, same) refl,
        subst (λ x. Around es x (flatten r.lines) (u16 (b + 1)))
            (sym (address ∙ ap (λ x. u16 (x + 1)) same)) rest.laid,
      );
      parsed = (parsed, rest.parsed);
      emitting = λ h. (emits h.0, rest.emitting h.1);
      silent = λ h. (flag ∙ h.0, rest.silent h.1);
      burned = λ h. elim h [
        | inl on ↦ inl (emits on.0, rest.emitting on.1)
        | inr off ↦ inr (flag ∙ off.0, rest.burned off.1)
      ];
      finished = rest.finished;
    }

simple-LaidBack :
    (es : List Entry) (ls : Lines) (c c' : Common) (kind : Kind) (b n : ℕ) (good : Bool)
    (r d : Assigned) (q : Pass)
    → IsParsed kind
    → IsUnaligned kind
    → (r.success ≡ true → LaidBack es ls b r)
    → set_end_address r.pass.entries c kind r.pass.base_address ≡ ok c'
    → q.base_address ≡ r.pass.base_address
    → object_code_bytes q.entries c' kind ≡ ok n
    → (if ltb (q.base_address + 1) n
        then ok (stop_at (simple c' kind) r.lines (negative_overflow c.source_line) q)
        else ok
            (before good (simple c' kind) (record r { pass = move_to (sub16 q.base_address n) q })))
      ≡ ok d
    → d.success ≡ true
    → LaidBack es (line (simple c kind) ls) b d
unfolding stop_at before
simple-LaidBack es ls c c' kind b n good r d q parsed un more ended same size h t =
    elim (if-cases (ltb (q.base_address + 1) n) _ _ _ h) [
      | inl over ↦ absurd (cc (ok-injective over.1, t))
      | inr fits ↦
          let eq = ok-injective fits.1 in
          let goods = both_true good r.success (ap (λ x. x.success) eq ∙ t) in
          let (k, size0, made) =
            set_end_address-IsUnaligned r.pass.entries c c' kind r.pass.base_address un ended in
          subst (LaidBack es (line (simple c kind) ls) b) eq (
            back-LaidBack es ls c c' kind b n k good r q parsed un (more goods.1) size0 made same
              size (ltb-false (q.base_address + 1) n fits.0))
    ]

-- A macro that is laid out, below the lines that follow.
macro-LaidBack :
    (es : List Entry) (body ls : Lines) (c c' : Common) (b : ℕ) (good : Bool) (inner r d : Assigned)
    → (r.success ≡ true → LaidBack es ls b r)
    → (inner.success ≡ true → LaidBack es body r.pass.base_address inner)
    → c'.emits_object_code ≡ c.emits_object_code
    → before
        (good && inner.success)
        (macro_invocation c' inner.lines)
        (record r { pass = inner.pass })
      ≡ d
    → d.success ≡ true
    → LaidBack es (line (macro_invocation c body) ls) b d
unfolding before
macro-LaidBack es body ls c c' b good inner r d more first same eq t =
    let goods = both_true (good && inner.success) r.success (ap (λ x. x.success) eq ∙ t) in
    let inside = first (both_true good inner.success goods.0).1 in
    let rest = more goods.1 in
    subst (LaidBack es (line (macro_invocation c body) ls) b) eq (record {
      laid =
          Around-append es (u16 (inner.pass.base_address + 1)) (u16 (r.pass.base_address + 1))
            (u16 (b + 1)) (flatten inner.lines) (flatten r.lines) inside.laid rest.laid;
      parsed = (inside.parsed, rest.parsed);
      emitting = λ k. (same ∙ k.0, inside.emitting k.1, rest.emitting k.2);
      silent = λ k. (same ∙ k.0, inside.silent k.1, rest.silent k.2);
      burned = λ k. elim k [
        | inl on ↦ inl (same ∙ on.0, inside.emitting on.1, rest.emitting on.2)
        | inr off ↦ inr (same ∙ off.0, inside.silent off.1, rest.burned off.2)
      ];
      finished = rest.finished;
    })

-- A loop that stopped did not succeed.
stopped-LaidBack :
    (es : List Entry) (ls ms : Lines) (b : ℕ) (l : Line) (r d : Assigned)
    → (r.success ≡ true → LaidBack es ls b r)
    → r.stopped ≡ true
    → record r { lines = line l r.lines } ≡ d
    → d.success ≡ true
    → LaidBack es ms b d
stopped-LaidBack es ls ms b l r d more on eq t =
    let rest = more (ap (λ x. x.success) eq ∙ t) in absurd (cc (on, rest.finished))

pub backward-LaidBack :
    (es : List Entry) (ls : Lines) (p : Pass) (d : Assigned)
    → AllParsed ls
    → NoAlign ls
    → assign_section_backward ls p ≡ ok d
    → d.success ≡ true
    → LaidBack es ls p.base_address d
unfolding assign_section_backward visit_line visit_macro span_to
backward-LaidBack es end_of_lines p d a u h t =
    subst (LaidBack es end_of_lines p.base_address) (ok-injective h) (record {
      laid = refl;
      parsed = tt;
      emitting = λ k. tt;
      silent = λ k. tt;
      burned = λ k. tt;
      finished = refl;
    })
backward-LaidBack es (line (simple c kind) ls) p d a u h t =
    let (r, e, h0) = then_ok-ok (assign_section_backward ls p) _ d h in
    let more = backward-LaidBack es ls p r a.1 u.1 e in
    elim (if-cases r.stopped _ _ _ h0) [
      | inl on ↦
          stopped-LaidBack es ls (line (simple c kind) ls) p.base_address (simple c kind) r d more
            on.0 (ok-injective on.1) t
      | inr off ↦
          let (c', ended, h1) =
            then_ok-ok (set_end_address r.pass.entries c kind r.pass.base_address) _ d off.1 in
          let q = visit_line c' kind r.pass in
          let (n, size, h2) = then_ok-ok (object_code_bytes q.1.entries c' kind) _ d h1 in
          let base =
            visit-base_address c' (symbolic_operand kind) (location_type (bytes_type kind))
              (is_equate kind) r.pass in
          simple-LaidBack es ls c c' kind p.base_address n q.0 r d q.1 a.0 u.0 more ended base size
            h2 t
    ]
backward-LaidBack es (line (macro_invocation c body) ls) p d a u h t =
    let (r, e, h0) = then_ok-ok (assign_section_backward ls p) _ d h in
    let more = backward-LaidBack es ls p r a.1 u.1 e in
    elim (if-cases r.stopped _ _ _ h0) [
      | inl on ↦
          stopped-LaidBack es ls (line (macro_invocation c body) ls) p.base_address
            (macro_invocation c body) r d more on.0 (ok-injective on.1) t
      | inr off ↦
          let (n, size, h1) = then_ok-ok (macro_bytes r.pass.entries body) _ d off.1 in
          let c' = span_to r.pass.base_address n c in
          let q = visit_macro c' r.pass in
          let (inner, f, made) = then_ok-ok (assign_section_backward body q.1) _ d h1 in
          let base = visit-base_address c' none SymbolType.object false r.pass in
          macro-LaidBack es body ls c c' p.base_address q.0 inner r d more
            (λ v.
              subst (λ b. LaidBack es body b inner) base
                (backward-LaidBack es body q.1 inner a.0 u.0 f v))
            refl (ok-injective made) t
    ]
