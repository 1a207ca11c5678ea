-- ===== src/Storage/Mmio/Output/Follows.antt =====
-- `Output` of src/libisa/components/storage/mmio.tpp: the events behind the head as the values that were written.
use libsim.Prelude.{
  ℕ, zero, suc, ◌+◌, ◌-◌, ◌≤◌, ◌<◌, ◌≡◌, refl, sym, ap, ◌∙◌, subst, true, Option, none, List, [],
  ◌∷◌, ◌++◌, arith, ◌==◌,
}
use libsim.Prelude.Exec.{ok}
use libsim.Storage.Channel.{Channel}
use libsim.Storage.Channel.Chain.{Chain}
use libsim.Storage.Channel.Walk.{written_by}
use libsim.Storage.Channel.Ends.{on, next_value-on, next_value-last}
use libsim.Storage.Mmio.Output.Log.{drain, drop_last}

module _ {V : Type 0} where
  -- The events behind the `k`th are those of the values.
  abbrev pub Follows : (ch : Channel V) → Chain ch → ℕ → List V → Type 0
  Follows ch c k [] = k ≡ c.last
  Follows ch c k (v ∷ vs) = (k < c.last) × ((c.event (suc k)).value ≡ v) × Follows ch c (suc k) vs

  -- The endpoint on the tail wrote them all.
  pub record Shows (default : V) (ch : Channel V) (c : Chain ch) (id : ℕ) (written : List V)
      (cached : Option V) : Type 0 where
    pub follows : Follows ch c 0 written
    pub own : (k : ℕ) → k < c.last → (c.event (suc k)).publisher ≡ id
    pub first_value : (c.event 0).value ≡ default
    pub uncached : cached ≡ none → c.last ≡ 0

  pub Follows-append :
      (ch ch' : Channel V) (c : Chain ch) (c' : Chain ch') (k : ℕ) (vs : List V) (v : V)
      → c'.last ≡ suc c.last
      → ((j : ℕ) → j ≤ c.last → (c'.event j).value ≡ (c.event j).value)
      → (c'.event (suc c.last)).value ≡ v
      → Follows ch c k vs
      → Follows ch' c' k (vs ++ v ∷ [])
  Follows-append ch ch' c c' k [] v more same new f =
      (omega (arith, more, f), ap (λ j. (c'.event (suc j)).value) f ∙ new, omega (arith, more, f))
  Follows-append ch ch' c c' k (w ∷ vs) v more same new f = (
    omega (arith, more, f.0),
    same (suc k) f.0 ∙ f.1,
    Follows-append ch ch' c c' (suc k) vs v more same new f.2,
  )

  pub Follows-drop_last :
      (ch ch' : Channel V) (c : Chain ch) (c' : Chain ch') (k : ℕ) (vs : List V)
      → c'.last ≡ c.last - 1
      → ((j : ℕ) → (c'.event j).value ≡ (c.event j).value)
      → (vs ≡ [] → k ≡ 0)
      → Follows ch c k vs
      → Follows ch' c' k (drop_last vs)
  unfolding drop_last
  Follows-drop_last ch ch' c c' k [] less same start f = omega (arith, less, start refl, f)
  Follows-drop_last ch ch' c c' k (v ∷ []) less same start f = omega (arith, less, f.2)
  Follows-drop_last ch ch' c c' k (v ∷ w ∷ vs) less same start f = (
    omega (arith, less, f.2.0),
    same (suc k) ∙ f.1,
    Follows-drop_last ch ch' c c' (suc k) (w ∷ vs) less same (λ e. cc) f.2,
  )

  pub Follows-same :
      (ch ch' : Channel V) (c : Chain ch) (c' : Chain ch') (k : ℕ) (vs : List V)
      → c'.last ≡ c.last
      → ((j : ℕ) → (c'.event j).value ≡ (c.event j).value)
      → Follows ch c k vs
      → Follows ch' c' k vs
  Follows-same ch ch' c c' k [] e same f = f ∙ sym e
  Follows-same ch ch' c c' k (v ∷ vs) e same f =
      (omega (arith, f.0, e), same (suc k) ∙ f.1, Follows-same ch ch' c c' (suc k) vs e same f.2)

  pub drain-Follows :
      (ch : Channel V) (c : Chain ch) (id : ℕ) (fuel k : ℕ) (vs : List V)
      → c.last < fuel + k
      → Follows ch c k vs
      → drain fuel (on ch c id k) ≡ (ok vs, on ch c id c.last)
  unfolding drain
  drain-Follows ch c id zero k [] h f = absurd (omega arith)
  drain-Follows ch c id zero k (v ∷ vs) h f = absurd (omega (arith, f.0))
  drain-Follows ch c id (suc fuel) k [] h f =
      let at_last : drain (suc fuel) (on ch c id c.last) ≡ (ok [], on ch c id c.last) =
        rw (next_value-last ch c id) refl in
      subst (λ j. drain (suc fuel) (on ch c id j) ≡ (ok [], on ch c id c.last)) (sym f) at_last
  drain-Follows ch c id (suc fuel) k (v ∷ vs) h f =
      rw (next_value-on ch c id k f.0, drain-Follows ch c id fuel (suc k) vs (omega arith) f.2, f.1)
        refl

  pub written_by-own :
      (ch : Channel V) (c : Chain ch) (id k : ℕ)
      → k ≤ c.last
      → ((j : ℕ) → j < c.last → (c.event (suc j)).publisher ≡ id)
      → written_by ch c id k ≡ k
  written_by-own ch c id zero h own = refl
  written_by-own ch c id (suc k) h own =
      let mine : ((c.event (suc k)).publisher == id) ≡ true = (let e = own k h in ground arith) in
      rw mine refl
