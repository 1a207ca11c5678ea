-- ===== src/Symbol/Loops.antt =====
-- src/libisa/symbol/table.tpp: what the loops of `reference` and `define` leave of a symbol.
use libsim.Prelude.{
  ℕ, zero, suc, ◌≡◌, ◌≢◌, ◌⊎◌, inl, inr, refl, sym, ap, ◌∙◌, Option, none, some, List, [], ◌∷◌,
  ◌==◌, ltb, get_elem?, Bool-cases, ==_iff, arith,
}
use libsim.Symbol.{
  Entry, Program, Binding, DefinitionState, local, imported, global, external_multiple, update,
  change, with_state, import_from, adopt, adopt_from, refresh, refresh_one, refresh_binding,
  is_global, link,
}
use libsim.Symbol.Exported.{get_elem?-update}

-- The symbol at `i` is there, and satisfies `P`.
pub record At (p : Program) (i : ℕ) (P : Entry → Type 0) : Type 0 where
  pub entry : Entry
  pub found : get_elem? p.entries i ≡ some entry
  pub holds : P entry

At-change :
    (p : Program) (i k : ℕ) (f : Entry → Entry) (P : Entry → Type 0)
    → ((e : Entry) → P e → P (f e))
    → At p i P
    → At (change k f p) i P
unfolding change
At-change p i k f P keep a =
    let (e, found, h) = get_elem?-update k i f p.entries P keep a.entry a.found a.holds in
    record { entry = e; found = found; holds = h }

-- A change of the symbol itself.
pub At-change_self :
    (i : ℕ) (f : Entry → Entry) (xs : List Entry) (e : Entry)
    → get_elem? xs i ≡ some e
    → get_elem? (update i f xs) i ≡ some (f e)
unfolding update
At-change_self i f [] e h = cc
At-change_self zero f (x ∷ xs) e h =
    ap (λ (o : Option Entry). elim o [ none ↦ none | some y ↦ some (f y) ]) h
At-change_self (suc i) f (x ∷ xs) e h = At-change_self i f xs e h

get_elem?-update_ne :
    (i j : ℕ) (f : Entry → Entry) (xs : List Entry)
    → i ≢ j
    → get_elem? (update i f xs) j ≡ get_elem? xs j
unfolding update
get_elem?-update_ne i j f [] n = refl
get_elem?-update_ne zero zero f (x ∷ xs) n = absurd (n refl)
get_elem?-update_ne zero (suc j) f (x ∷ xs) n = refl
get_elem?-update_ne (suc i) zero f (x ∷ xs) n = refl
get_elem?-update_ne (suc i) (suc j) f (x ∷ xs) n = get_elem?-update_ne i j f xs (λ e. n (ap suc e))

-- What `reference` may make of a symbol: it stays, or is imported, or is found to be defined elsewhere more
-- than once.
abbrev pub Referenced : Entry → Entry → Type 0
Referenced old e = (e ≡ old) ⊎ (e.binding ≡ imported) ⊎ (e.state ≡ external_multiple)

module _ (old : Entry) (i : ℕ) where
  abbrev Adopted : Entry → Type 0
  Adopted e = (e ≡ old) ⊎ (e.binding ≡ imported)

  adopt_from-At :
      (o : ℕ) (m : Option Entry) (p : Program) → At p i Adopted → At (adopt_from i o m p) i Adopted
  unfolding adopt_from import_from
  adopt_from-At o none p a = a
  adopt_from-At o (some other) p a = elim (Bool-cases (is_global other.binding)) [
    | inl e ↦ rw e (At-change p i i (import_from o other.state) Adopted (λ x h. inr refl) a)
    | inr e ↦ rw e a
  ]

  adopt-At : (symbols : List ℕ) (p : Program) → At p i Adopted → At (adopt i symbols p) i Adopted
  unfolding adopt
  adopt-At [] p a = a
  adopt-At (o ∷ symbols) p a = adopt-At symbols _ (adopt_from-At o (get_elem? p.entries o) p a)

  pub link-At :
      (symbols : List ℕ) (count : ℕ) (p : Program)
      → get_elem? p.entries i ≡ some old
      → At (link i symbols count p) i (Referenced old)
  unfolding link with_state
  link-At symbols count p found = elim (Bool-cases (ltb 1 count)) [
    | inl e ↦ rw e (
        At-change p i i (with_state external_multiple) (Referenced old) (λ x h. inr (inr refl))
          start)
    | inr e ↦ elim (Bool-cases (count == 1)) [
      | inl f ↦
          let a = adopt-At symbols p (record { entry = old; found = found; holds = inl refl }) in
          rw (e, f) (record { entry = a.entry; found = a.found; holds = widen a.entry a.holds })
      | inr f ↦ rw (e, f) start
    ]
  ]
    where
      start : At p i (Referenced old)
      start = record { entry = old; found = found; holds = inl refl }

      widen : (e : Entry) → Adopted e → Referenced old e
      widen e h = elim h [ inl x ↦ inl x | inr x ↦ inr (inl x) ]

-- The loops touch symbols only.
adopt-names : (i : ℕ) (symbols : List ℕ) (p : Program) → (adopt i symbols p).names ≡ p.names
unfolding adopt
adopt-names i [] p = refl
adopt-names i (o ∷ symbols) p =
    adopt-names i symbols (adopt_from i o (get_elem? p.entries o) p) ∙ one (get_elem? p.entries o)
  where
    one : (m : Option Entry) → (adopt_from i o m p).names ≡ p.names
    one none = unfold adopt_from in refl
    one (some other) = elim (Bool-cases (is_global other.binding)) [
      | inl e ↦ unfold adopt_from change in rw e refl
      | inr e ↦ unfold adopt_from in rw e refl
    ]

pub link-names :
    (i : ℕ) (symbols : List ℕ) (count : ℕ) (p : Program) → (link i symbols count p).names ≡ p.names
unfolding link change
link-names i symbols count p = elim (Bool-cases (ltb 1 count)) [
  | inl e ↦ rw e refl
  | inr e ↦ elim (Bool-cases (count == 1)) [
    | inl f ↦ rw (e, f) (adopt-names i symbols p)
    | inr f ↦ rw (e, f) refl
  ]
]

refresh_one-names :
    (table i : ℕ) (s : DefinitionState) (m : Option Entry) (o : ℕ) (p : Program)
    → (refresh_one table i s m o p).names ≡ p.names
unfolding refresh_one
refresh_one-names table i s none o p = refl
refresh_one-names table i s (some other) o p = elim (Bool-cases (other.parent == table)) [
  | inl e ↦ rw e refl
  | inr e ↦ rw e (by_binding other.binding)
]
  where
    by_binding : (b : Binding) → (refresh_binding i o s b p).names ≡ p.names
    by_binding imported = unfold refresh_binding change in refl
    by_binding local = unfold refresh_binding in refl
    by_binding global = unfold refresh_binding in refl

pub refresh-names :
    (table i : ℕ) (s : DefinitionState) (symbols : List ℕ) (p : Program)
    → (refresh table i s symbols p).names ≡ p.names
unfolding refresh
refresh-names table i s [] p = refl
refresh-names table i s (o ∷ symbols) p =
    refresh-names table i s symbols _ ∙ refresh_one-names table i s (get_elem? p.entries o) o p

abbrev binding_or : Binding → Option Entry → Binding
binding_or b none = b
binding_or b (some e) = e.binding

-- The loop of `define` leaves a global symbol as it is.
module _ (table i : ℕ) (s : DefinitionState) (e : Entry) (is_exported : e.binding ≡ global) where
  refresh_binding-here :
      (b : Binding) (p : Program)
      → b ≡ global
      → get_elem? p.entries i ≡ some e
      → get_elem? (refresh_binding i i s b p).entries i ≡ some e
  unfolding refresh_binding
  refresh_binding-here imported p g found = cc
  refresh_binding-here local p g found = found
  refresh_binding-here global p g found = found

  refresh_binding-there :
      (b : Binding) (o : ℕ) (p : Program)
      → o ≢ i
      → get_elem? p.entries i ≡ some e
      → get_elem? (refresh_binding i o s b p).entries i ≡ some e
  unfolding refresh_binding change
  refresh_binding-there imported o p n found =
      get_elem?-update_ne o i (import_from i s) p.entries n ∙ found
  refresh_binding-there local o p n found = found
  refresh_binding-there global o p n found = found

  refresh_one-found :
      (m : Option Entry) (o : ℕ) (p : Program)
      → get_elem? p.entries o ≡ m
      → get_elem? p.entries i ≡ some e
      → get_elem? (refresh_one table i s m o p).entries i ≡ some e
  unfolding refresh_one
  refresh_one-found none o p there found = found
  refresh_one-found (some other) o p there found = elim (Bool-cases (other.parent == table)) [
    | inl q ↦ rw q found
    | inr q ↦ rw q (elim (Bool-cases (o == i)) [
      | inl same ↦
          let here : o ≡ i = (==_iff o i).0 same in
          let binding : other.binding ≡ global =
            ap (binding_or global) (sym there ∙ ap (get_elem? p.entries) here ∙ found)
            ∙ is_exported in
          rw here (refresh_binding-here other.binding p binding found)
      | inr n ↦ refresh_binding-there other.binding o p (λ x. ground arith) found
    ])
  ]

  pub refresh-found :
      (symbols : List ℕ) (p : Program)
      → get_elem? p.entries i ≡ some e
      → get_elem? (refresh table i s symbols p).entries i ≡ some e
  unfolding refresh
  refresh-found [] p found = found
  refresh-found (o ∷ symbols) p found =
      refresh-found symbols _ (refresh_one-found (get_elem? p.entries o) o p refl found)
