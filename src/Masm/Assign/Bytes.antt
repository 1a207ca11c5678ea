-- ===== src/Masm/Assign/Bytes.antt =====
-- src/libisa/masm/backend/assign_addr.tpp and project/section.tpp: where the code of a line lies among the bytes of a
-- section that was assigned forwards.
use libsim.Prelude.{
  ℕ, ◌+◌, ◌≤◌, ◌≡◌, sym, ap, ◌∙◌, subst, true, List, [], ◌∷◌, ◌++◌, length, arith, All,
}
use mathlib.Core.List.{append_assoc}
use libsim.Prelude.Exec.{ok}
use libsim.Symbol.{Entry}
use libsim.Masm.Ir.{
  Common, Kind, Lines, end_of_lines, line, simple, macro_invocation, code_of, to_bytes,
}
use libsim.Masm.Ir.Emit.{
  then_ok-ok, ok-injective, flatten, IsParsed, length-code_of, IsEmitting, codes, to_bytes-flatten,
}
use libsim.Masm.Assign.{Pass, Assigned, assign_section_forward}
use libsim.Masm.Assign.Layout.{Consecutive}
use libsim.Masm.Assign.Forward.{AllParsed, forward-LaidOut}

abbrev pub ListParsed : List (Common × Kind) → Type 0
ListParsed = All λ item. IsParsed item.1

ListParsed-append :
    (xs ys : List (Common × Kind)) → ListParsed xs → ListParsed ys → ListParsed (xs ++ ys)
ListParsed-append [] ys h k = k
ListParsed-append (x ∷ xs) ys h k = (h.0, ListParsed-append xs ys h.1 k)

pub AllParsed-flatten : (ls : Lines) → AllParsed ls → ListParsed (flatten ls)
AllParsed-flatten end_of_lines h = tt
AllParsed-flatten (line (simple c kind) ls) h = (h.0, AllParsed-flatten ls h.1)
AllParsed-flatten (line (macro_invocation c body) ls) h =
    ListParsed-append (flatten body) (flatten ls) (AllParsed-flatten body h.0)
      (AllParsed-flatten ls h.1)

pub length-append : (xs ys : List ℕ) → length (xs ++ ys) ≡ length xs + length ys
length-append [] ys = omega arith
length-append (x ∷ xs) ys = omega (arith, length-append xs ys)

-- The code of a line lies in the section's as far from the start as the line's address is from
-- the section's.
abbrev pub LiesAt : List Entry → ℕ → List ℕ → Common → Kind → Type 0
LiesAt es base code c kind =
    (front : List ℕ) × (body : List ℕ) × (back : List ℕ) × (code ≡ front ++ (body ++ back))
    × (code_of es c kind ≡ ok body)
    × (base + length front ≡ c.begin_address)

-- Consecutive lines have code from the first address to the last.
length-codes :
    (es : List Entry) (b e : ℕ) (items : List (Common × Kind)) (code : List ℕ)
    → Consecutive es b items e
    → ListParsed items
    → codes es items ≡ ok code
    → b + length code ≡ e
length-codes es b e [] code h p k = omega (arith, h, ap length (ok-injective k))
length-codes es b e ((c, kind) ∷ items) code (n, size, start, fits, ends, h) p k =
    let (front, made, k1) = then_ok-ok (code_of es c kind) _ code k in
    let (back, rest, k2) = then_ok-ok (codes es items) _ code k1 in
    omega (
      arith,
      length-code_of es c kind n front p.0 size made,
      length-codes es (b + n) e items back h p.1 rest,
      length-append front back,
      ap length (ok-injective k2),
    )

codes-LiesAt :
    (es : List Entry) (b e : ℕ) (before after : List (Common × Kind)) (c : Common) (kind : Kind)
    (code : List ℕ)
    → Consecutive es b (before ++ (c, kind) ∷ after) e
    → ListParsed (before ++ (c, kind) ∷ after)
    → codes es (before ++ (c, kind) ∷ after) ≡ ok code
    → LiesAt es b code c kind
codes-LiesAt es b e [] after c kind code (n, size, start, fits, ends, h) p k =
    let (body, made, k1) = then_ok-ok (code_of es c kind) _ code k in
    let (back, rest, k2) = then_ok-ok (codes es after) _ code k1 in
    ([], body, back, sym (ok-injective k2), made, omega (arith, start))
codes-LiesAt es b e ((c0, kind0) ∷ before) after c kind code (n, size, start, fits, ends, h) p k =
    let (front, made, k1) = then_ok-ok (code_of es c0 kind0) _ code k in
    let (rest, made1, k2) = then_ok-ok (codes es (before ++ (c, kind) ∷ after)) _ code k1 in
    let (fore, body, back, split, own, place) =
      codes-LiesAt es (b + n) e before after c kind rest h p.1 made1 in
    let long = length-code_of es c0 kind0 n front p.0 size made in
    (
      front ++ fore,
      body,
      back,
      sym (ok-injective k2)
          ∙ ap (λ l. front ++ l) split
          ∙ sym (append_assoc front fore (body ++ back)),
      own,
      omega (arith, place, long, length-append front fore),
    )

-- A section with the parser's arguments, whose lines with bytes all emit code, is assigned forwards from an
-- address below 2 ^ 16 without an error, and its bytes are taken. Then the bytes end at the address behind its
-- last line, and the code of each line, also in a macro, begins in them at the line's address.
pub forward-to_bytes :
    (es : List Entry) (ls : Lines) (p : Pass) (d : Assigned) (code : List ℕ)
    → AllParsed ls
    → IsEmitting ls
    → p.base_address ≤ 65535
    → assign_section_forward ls p ≡ ok d
    → d.success ≡ true
    → to_bytes es d.lines ≡ ok code
    → (p.base_address + length code ≡ d.pass.base_address)
      × ((front back : List (Common × Kind)) (c : Common) (kind : Kind)
          → flatten d.lines ≡ front ++ (c, kind) ∷ back
          → LiesAt es p.base_address code c kind)
forward-to_bytes es ls p d code a m low h t k =
    let out = forward-LaidOut es ls p d a low h t in
    let parsed = AllParsed-flatten d.lines out.parsed in
    let whole = sym (to_bytes-flatten es d.lines (out.emitting m)) ∙ k in
    let b = p.base_address in
    let e = d.pass.base_address in
    (
      length-codes es b e (flatten d.lines) code out.laid parsed whole,
      λ front back c kind eq.
          codes-LiesAt es b e front back c kind code
            (subst (λ items. Consecutive es b items e) eq out.laid) (subst ListParsed eq parsed)
            (subst (λ items. codes es items ≡ ok code) eq whole),
    )
