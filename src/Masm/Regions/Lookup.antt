-- ===== src/Masm/Regions/Lookup.antt =====
-- src/libisa/masm/elf/addr_line_mapping.hpp: looking up an address among the regions of lines.
use libsim.Prelude.{
  ℕ, ◌+◌, ◌≤◌, ◌<◌, ◌≡◌, inl, inr, refl, sym, ap, ◌⊎◌, Bool-cases, ◌∙◌, subst, true, false, some,
  List, [], ◌∷◌, ◌++◌, ◌==◌, if◌then◌else◌, arith, if-cases,
}
use libsim.Prelude.Exec.{Outcome, ok}
use libsim.Pep10.Isa.{then_ok}
use libsim.Symbol.{Entry}
use libsim.Masm.Ir.{Common, Kind, dot_align, object_code_bytes}
use libsim.Masm.Ir.Emit.{then_ok-ok, ok-injective}
use libsim.Masm.Assign.Layout.{Consecutive, IsUnaligned, last_address}
use libsim.Masm.Regions.{Region, region_contains, line_at, region_of}

-- The regions of lines that hold no others.
abbrev pub regions_of : List Entry → List (Common × Kind) → Outcome (List Region)
regions_of es [] = ok []
regions_of es ((c, kind) ∷ items) =
    then_ok (object_code_bytes es c kind)
      λ n. then_ok (regions_of es items) λ rest. ok (if n == 0 then rest else region_of c ∷ rest)

-- The line that has the address.
abbrev pub Stands : List Entry → ℕ → Common → Kind → Type 0
Stands es address c kind =
    (n : ℕ) × (object_code_bytes es c kind ≡ ok n)
    × (c.begin_address ≤ address)
    × (address < c.begin_address + n)

-- Later lines begin at the address or behind.
begins_behind :
    (es : List Entry) (b e : ℕ) (front back : List (Common × Kind)) (c : Common) (kind : Kind)
    → Consecutive es b (front ++ (c, kind) ∷ back) e
    → b ≤ c.begin_address
begins_behind es b e [] back c kind (n, size, start, fits, ends, h) = omega (arith, start)
begins_behind es b e ((c0, kind0) ∷ front) back c kind (n, size, start, fits, ends, h) =
    omega (arith, begins_behind es (b + n) e front back c kind h)

region_hit :
    (c : Common) (kind : Kind) (b n address : ℕ)
    → c.begin_address ≡ b
    → c.end_address ≡ last_address kind b n
    → b + n ≤ 65535
    → b ≤ address
    → address < b + n
    → region_contains (region_of c) address ≡ true
unfolding region_contains region_of
region_hit c (dot_align argument direction) b n address start ends fits low high = ground arith
region_hit c _ b n address start ends fits low high = ground arith

-- An address behind a line with bytes is not in its region, unless it is the first one behind an `.ALIGN`.
region_behind :
    (c : Common) (kind : Kind) (b n address : ℕ)
    → c.begin_address ≡ b
    → c.end_address ≡ last_address kind b n
    → b + n ≤ 65535
    → (n == 0) ≡ false
    → b + n ≤ address
    → (region_contains (region_of c) address ≡ false)
      ⊎ ((region_contains (region_of c) address ≡ true)
          × (¬ IsUnaligned kind)
          × (c.end_address ≡ address)
          × (address ≡ b + n))
unfolding region_contains region_of
region_behind c (dot_align argument direction) b n address start ends fits some_bytes high =
    elim (Bool-cases (address == b + n)) [
      | inl first ↦ inr (ground arith, (λ u. u), ground arith, ground arith)
      | inr later ↦ inl (ground arith)
    ]
region_behind c _ b n address start ends fits some_bytes high = inl (ground arith)

line_at-hit :
    (r : Region) (regions : List Region) (address : ℕ)
    → region_contains r address ≡ true
    → line_at (r ∷ regions) address ≡ some r.line_number
unfolding line_at
line_at-hit r regions address h = rw h refl

line_at-miss :
    (r : Region) (regions : List Region) (address : ℕ)
    → region_contains r address ≡ false
    → line_at (r ∷ regions) address ≡ line_at regions address
unfolding line_at
line_at-miss r regions address h = rw h refl

-- A line with bytes has a region, and one without has none.
regions_of-cons :
    (es : List Entry) (c : Common) (kind : Kind) (n : ℕ) (items : List (Common × Kind))
    (regions : List Region)
    → object_code_bytes es c kind ≡ ok n
    → regions_of es ((c, kind) ∷ items) ≡ ok regions
    → (rest : List Region) × (regions_of es items ≡ ok rest)
      × ((if n == 0 then rest else region_of c ∷ rest) ≡ regions)
regions_of-cons es c kind n items regions size h =
    let (k, size0, h1) = then_ok-ok (object_code_bytes es c kind) _ regions h in
    let (rest, made, h2) = then_ok-ok (regions_of es items) _ regions h1 in
    (
      rest,
      made,
      subst (λ m. (if m == 0 then rest else region_of c ∷ rest) ≡ regions)
          (ok-injective (sym size0 ∙ size)) (ok-injective h2),
    )

-- One of the lines is an `.ALIGN` whose region ends with the address and is the first that has it.
abbrev pub Shadowed : ℕ → List (Common × Kind) → List Region → Type 0
Shadowed address items regions =
    (front back : List (Common × Kind)) × (c : Common) × (kind : Kind) × (items
      ≡ front ++ (c, kind) ∷ back)
    × (¬ IsUnaligned kind)
    × (c.end_address ≡ address)
    × (line_at regions address ≡ some c.listing_line)

-- The table leads from the address to the line, or the address is the line's first and leads to an
-- `.ALIGN` before it.
abbrev pub LeadsTo : ℕ → List (Common × Kind) → Common → List Region → Type 0
LeadsTo address before c regions =
    (line_at regions address ≡ some c.listing_line)
    ⊎ ((address ≡ c.begin_address) × Shadowed address before regions)

LeadsTo-cons :
    (address : ℕ) (item : Common × Kind) (items : List (Common × Kind)) (c : Common)
    (rest regions : List Region)
    → line_at regions address ≡ line_at rest address
    → LeadsTo address items c rest
    → LeadsTo address (item ∷ items) c regions
LeadsTo-cons address item items c rest regions same (inl found) = inl (same ∙ found)
LeadsTo-cons address item items c rest regions same
      (inr (first, (front, back, c0, kind0, split, align, ends, found))) =
    inr
      (first, (item ∷ front, back, c0, kind0, ap (λ l. item ∷ l) split, align, ends, same ∙ found))

pub line_at-regions_of :
    (es : List Entry) (b e address : ℕ) (front back : List (Common × Kind)) (c : Common)
    (kind : Kind) (regions : List Region)
    → Consecutive es b (front ++ (c, kind) ∷ back) e
    → regions_of es (front ++ (c, kind) ∷ back) ≡ ok regions
    → Stands es address c kind
    → LeadsTo address front c regions
unfolding region_of
line_at-regions_of es b e address [] back c kind regions (n, size, start, fits, ends, h) r
      (k, size1, low, high) =
    let same = ok-injective (sym size ∙ size1) in
    let (rest, made, eq) = regions_of-cons es c kind n back regions size r in
    elim (if-cases (n == 0) _ _ _ eq) [
      | inl zeros ↦ absurd (ground (arith, zeros.0))
      | inr bytes ↦ inl (
          subst (λ x. line_at x address ≡ some c.listing_line) bytes.1
            (line_at-hit (region_of c) rest address (
              region_hit c kind b n address start ends fits (omega (arith, start))
                (omega (arith, start)))))
    ]
line_at-regions_of es b e address ((c0, kind0) ∷ front) back c kind regions
      (n, size, start, fits, ends, h) r s =
    let (rest, made, eq) =
      regions_of-cons es c0 kind0 n (front ++ (c, kind) ∷ back) regions size r in
    let found = line_at-regions_of es (b + n) e address front back c kind rest h made s in
    let behind = begins_behind es (b + n) e front back c kind h in
    elim (if-cases (n == 0) _ _ _ eq) [
      | inl zeros ↦
          LeadsTo-cons address (c0, kind0) front c rest regions
            (ap (λ x. line_at x address) (sym zeros.1)) found
      | inr bytes ↦
          elim (region_behind c0 kind0 b n address start ends fits bytes.0
            (omega (arith, s.2, behind))) [
              | inl miss ↦
                  LeadsTo-cons address (c0, kind0) front c rest regions
                    (ap (λ x. line_at x address) (sym bytes.1)
                      ∙ line_at-miss (region_of c0) rest address miss)
                    found
              | inr hit ↦ inr (
                omega (arith, s.2, behind, hit.3),
                (
                  [],
                  front,
                  c0,
                  kind0,
                  refl,
                  hit.1,
                  hit.2,
                  subst (λ x. line_at x address ≡ some c0.listing_line) bytes.1
                      (line_at-hit (region_of c0) rest address hit.0),
                ),
              )
            ]
    ]
