-- ===== src/Masm/Assign/BackwardBytes.antt =====
-- src/libisa/masm/backend/assign_addr.tpp and project/section.tpp: where the code of a line lies among the bytes of a
-- section that was assigned backwards.
use libsim.Prelude.{
  ℕ, ◌+◌, ◌≡◌, sym, ap, ◌∙◌, subst, true, List, [], ◌∷◌, ◌++◌, length, arith, u16, All,
}
use mathlib.Core.List.{append_assoc}
use libsim.Prelude.Exec.{ok}
use libsim.Symbol.{Entry}
use libsim.Masm.Ir.{Common, Kind, Lines, code_of, to_bytes}
use libsim.Masm.Ir.Emit.{then_ok-ok, ok-injective, flatten, length-code_of, codes}
use libsim.Masm.Assign.{Pass, Assigned, assign_section_backward}
use libsim.Masm.Assign.Forward.{AllParsed}
use libsim.Masm.Assign.Bytes.{ListParsed, AllParsed-flatten, length-append}
use libsim.Masm.Assign.Layout.{NoAlign}
use libsim.Masm.Assign.Backward.{Around, Around-parts, backward-LaidBack}
use libsim.Masm.Assign.Burned.{IsBurned, IsOff, IsBurned-Parts}

-- The code of a line lies in the section's, modulo 2 ^ 16, as far from the start as the line's
-- address is from the section's.
abbrev pub LiesAround : List Entry → ℕ → List ℕ → Common → Kind → Type 0
LiesAround es base code c kind =
    (front : List ℕ) × (body : List ℕ) × (back : List ℕ) × (code ≡ front ++ (body ++ back))
    × (code_of es c kind ≡ ok body)
    × (u16 (base + length front) ≡ u16 c.begin_address)

length-Around :
    (es : List Entry) (b e : ℕ) (items : List (Common × Kind)) (code : List ℕ)
    → Around es b items e
    → ListParsed items
    → codes es items ≡ ok code
    → u16 (b + length code) ≡ u16 e
length-Around es b e [] code h p k = omega (arith, h, ap length (ok-injective k))
length-Around es b e ((c, kind) ∷ items) code (n, size, start, h) p k =
    let (front, made, k1) = then_ok-ok (code_of es c kind) _ code k in
    let (back, rest, k2) = then_ok-ok (codes es items) _ code k1 in
    omega (
      arith,
      length-code_of es c kind n front p.0 size made,
      length-Around es (u16 (b + n)) e items back h p.1 rest,
      length-append front back,
      ap length (ok-injective k2),
    )

codes-LiesAround :
    (es : List Entry) (b e : ℕ) (front after : List (Common × Kind)) (c : Common) (kind : Kind)
    (code : List ℕ)
    → Around es b (front ++ (c, kind) ∷ after) e
    → ListParsed (front ++ (c, kind) ∷ after)
    → codes es (front ++ (c, kind) ∷ after) ≡ ok code
    → LiesAround es b code c kind
codes-LiesAround es b e [] after c kind code (n, size, start, h) p k =
    let (body, made, k1) = then_ok-ok (code_of es c kind) _ code k in
    let (back, rest, k2) = then_ok-ok (codes es after) _ code k1 in
    ([], body, back, sym (ok-injective k2), made, omega (arith, start))
codes-LiesAround es b e ((c0, kind0) ∷ front) after c kind code (n, size, start, h) p k =
    let (first, made, k1) = then_ok-ok (code_of es c0 kind0) _ code k in
    let (rest, made1, k2) = then_ok-ok (codes es (front ++ (c, kind) ∷ after)) _ code k1 in
    let (fore, body, back, split, own, place) =
      codes-LiesAround es (u16 (b + n)) e front after c kind rest h p.1 made1 in
    let long = length-code_of es c0 kind0 n first p.0 size made in
    (
      first ++ fore,
      body,
      back,
      sym (ok-injective k2)
          ∙ ap (λ l. first ++ l) split
          ∙ sym (append_assoc first fore (body ++ back)),
      own,
      omega (arith, place, long, length-append first fore),
    )

ListParsed-back : (xs ys : List (Common × Kind)) → ListParsed (xs ++ ys) → ListParsed ys
ListParsed-back [] ys h = h
ListParsed-back ((c, kind) ∷ xs) ys h = ListParsed-back xs ys h.1

-- A section with the parser's arguments and without `.ALIGN`, whose lines are first some that are turned off and
-- then such that those with bytes emit code, is assigned backwards without an error, and its bytes are taken.
-- Then the lines, those of macros among them, split in a part that is turned off, which reaches from the
-- address behind the one that is left to some address, and the rest. Modulo 2 ^ 16, the bytes begin at that
-- address and end with the given one, and the code of each line of the rest begins in them at the line's
-- address.
pub backward-to_bytes :
    (es : List Entry) (ls : Lines) (p : Pass) (d : Assigned) (code : List ℕ)
    → AllParsed ls
    → NoAlign ls
    → IsBurned ls
    → assign_section_backward ls p ≡ ok d
    → d.success ≡ true
    → to_bytes es d.lines ≡ ok code
    → (off on : List (Common × Kind)) × (first : ℕ) × (flatten d.lines ≡ off ++ on)
      × All IsOff off
      × Around es (u16 (d.pass.base_address + 1)) off first
      × (u16 (first + length code) ≡ u16 (p.base_address + 1))
      × ((front back : List (Common × Kind)) (c : Common) (kind : Kind)
          → on ≡ front ++ (c, kind) ∷ back
          → LiesAround es first code c kind)
backward-to_bytes es ls p d code a u m h t k =
    let out = backward-LaidBack es ls p d a u h t in
    let parts = IsBurned-Parts es d.lines (out.burned m) in
    let e = u16 (p.base_address + 1) in
    let (first, before, laid) =
      Around-parts es (u16 (d.pass.base_address + 1)) e parts.off parts.on
        (subst (λ items. Around es (u16 (d.pass.base_address + 1)) items e) parts.split out.laid) in
    let parsed =
      ListParsed-back parts.off parts.on
        (subst ListParsed parts.split (AllParsed-flatten d.lines out.parsed)) in
    let whole = sym parts.code ∙ k in
    (
      parts.off,
      parts.on,
      first,
      parts.split,
      parts.turned_off,
      before,
      omega (arith, length-Around es first e parts.on code laid parsed whole),
      λ front back c kind eq.
          codes-LiesAround es first e front back c kind code
            (subst (λ items. Around es first items e) eq laid) (subst ListParsed eq parsed)
            (subst (λ items. codes es items ≡ ok code) eq whole),
    )
