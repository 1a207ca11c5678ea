-- ===== src/Masm/Assign/Burned.antt =====
-- src/libisa/masm/ir and backend/sanity.tpp: a section whose first lines are turned off, as those above a `.BURN`
-- are, and its code.
use libsim.Prelude.{◌≡◌, ◌⊎◌, inl, inr, refl, sym, ap, ◌∙◌, false, List, [], ◌∷◌, ◌++◌, All}
use mathlib.Core.List.{append_assoc}
use libsim.Symbol.{Entry}
use libsim.Masm.Ir.{
  Common, Kind, Lines, simple, macro_invocation, end_of_lines, line, append_object_code, to_bytes,
}
use libsim.Masm.Ir.Emit.{flatten, IsEmitting, codes, to_bytes-flatten, joined-nil}

-- All lines are turned off, also those of macros.
abbrev pub IsSilent : Lines → Type 0
IsSilent end_of_lines = Unit
IsSilent (line (simple c kind) ls) = (c.emits_object_code ≡ false) × IsSilent ls
IsSilent (line (macro_invocation c body) ls) =
    (c.emits_object_code ≡ false) × IsSilent body × IsSilent ls

-- Lines that are turned off, and then lines that emit their code.
abbrev pub IsBurned : Lines → Type 0
IsBurned end_of_lines = Unit
IsBurned (line (simple c kind) ls) =
    IsEmitting (line (simple c kind) ls) ⊎ ((c.emits_object_code ≡ false) × IsBurned ls)
IsBurned (line (macro_invocation c body) ls) =
    IsEmitting (line (macro_invocation c body) ls)
    ⊎ ((c.emits_object_code ≡ false) × IsSilent body × IsBurned ls)

abbrev pub IsOff : Common × Kind → Type 0
IsOff item = item.0.emits_object_code ≡ false

All-append : (xs ys : List (Common × Kind)) → All IsOff xs → All IsOff ys → All IsOff (xs ++ ys)
All-append [] ys h k = k
All-append (x ∷ xs) ys h k = (h.0, All-append xs ys h.1 k)

flatten-IsOff : (ls : Lines) → IsSilent ls → All IsOff (flatten ls)
flatten-IsOff end_of_lines h = tt
flatten-IsOff (line (simple c kind) ls) h = (h.0, flatten-IsOff ls h.1)
flatten-IsOff (line (macro_invocation c body) ls) h =
    All-append (flatten body) (flatten ls) (flatten-IsOff body h.1) (flatten-IsOff ls h.2)

-- The lines of a section in two parts: the code is that of the second.
pub record Parts (es : List Entry) (ls : Lines) : Type 0 where
  pub off : List (Common × Kind)
  pub on : List (Common × Kind)
  pub split : flatten ls ≡ off ++ on
  pub turned_off : All IsOff off
  pub code : to_bytes es ls ≡ codes es on

emitting-Parts : (es : List Entry) (ls : Lines) → IsEmitting ls → Parts es ls
emitting-Parts es ls h = record {
  off = [];
  on = flatten ls;
  split = refl;
  turned_off = tt;
  code = to_bytes-flatten es ls h;
}

pub IsBurned-Parts : (es : List Entry) (ls : Lines) → IsBurned ls → Parts es ls
unfolding to_bytes append_object_code
IsBurned-Parts es end_of_lines h = emitting-Parts es end_of_lines tt
IsBurned-Parts es (line (simple c kind) ls) (inl h) = emitting-Parts es (line (simple c kind) ls) h
IsBurned-Parts es (line (simple c kind) ls) (inr h) =
    let rest = IsBurned-Parts es ls h.1 in
    record {
      off = (c, kind) ∷ rest.off;
      on = rest.on;
      split = ap (λ items. (c, kind) ∷ items) rest.split;
      turned_off = (h.0, rest.turned_off);
      code = rw h.0 (sym (joined-nil (to_bytes es ls)) ∙ rest.code);
    }
IsBurned-Parts es (line (macro_invocation c body) ls) (inl h) =
    emitting-Parts es (line (macro_invocation c body) ls) h
IsBurned-Parts es (line (macro_invocation c body) ls) (inr h) =
    let rest = IsBurned-Parts es ls h.2 in
    record {
      off = flatten body ++ rest.off;
      on = rest.on;
      split =
          ap (λ items. flatten body ++ items) rest.split
          ∙ sym (append_assoc (flatten body) rest.off rest.on);
      turned_off = All-append (flatten body) rest.off (flatten-IsOff body h.1) rest.turned_off;
      code = rw h.0 (sym (joined-nil (to_bytes es ls)) ∙ rest.code);
    }
