-- ===== src/Storage/Layered/Dispatch.antt =====
-- src/libisa/components/storage/layered.tpp: which device a call reaches, and what layers of plain storage
-- promise together.
use libsim.Prelude.{
  ℕ, ◌-◌, ◌≤◌, ◌≡◌, inl, inr, refl, ap, sym, ◌∙◌, Bool, true, false, List, [], ◌∷◌, if◌then◌else◌,
  ◌==◌, ltb, arith, Bool-cases, All, ==_iff,
}
use libsim.Prelude.Exec.{Outcome, ok, Exec}
use libsim.Storage.Device.{Device}
use libsim.Storage.Ram.{Ram}
use libsim.Storage.Layered.{
  Layered, covers, first, read_miss, write_miss, read, write, layered_device, in_layers,
}

-- Some layer has a value for the offset, the first of them being where the proof ends.
pub data IsCovered {D H : Type 0} (dev : Device D H ℕ) (offset : ℕ) : List (ℕ × D) → Type 0 where
  here :
      {layer : ℕ × D} {layers : List (ℕ × D)}
      → covers dev offset layer ≡ true
      → IsCovered dev offset (layer ∷ layers)
  later :
      {layer : ℕ × D} {layers : List (ℕ × D)}
      → covers dev offset layer ≡ false
      → IsCovered dev offset layers
      → IsCovered dev offset (layer ∷ layers)

module _ {D H : Type 0} (dev : Device D H ℕ) where
  -- No layer has a value for the offset.
  abbrev pub IsUncovered : ℕ → List (ℕ × D) → Type 0
  IsUncovered offset [] = Unit
  IsUncovered offset (layer ∷ layers) =
      (covers dev offset layer ≡ false) × IsUncovered offset layers

module _ {D H : Type 0} (dev : Device D H ℕ) (ram : Ram dev) where
  -- Every layer is good.
  abbrev pub AllGood : List (ℕ × D) → Type 0
  AllGood layers = All (λ layer. ram.IsGood layer.1) layers

  covers-in_range :
      (p base : ℕ) (d : D)
      → covers dev p (base, d) ≡ true
      → (base ≤ p) × (p - base ≤ dev.max_offset d)
  unfolding covers
  covers-in_range p base d e = (ground arith, ground arith)

  covers_resp :
      (p base : ℕ) (d d' : D)
      → dev.max_offset d' ≡ dev.max_offset d
      → covers dev p (base, d') ≡ covers dev p (base, d)
  unfolding covers
  covers_resp p base d d' e = rw e refl

  first-read :
      (p : ℕ) (miss : Outcome ℕ) (layers : List (ℕ × D))
      → AllGood layers
      → IsCovered dev p layers
      → (v : ℕ) × (first dev dev.read p miss layers ≡ (ok v, layers))
  unfolding first
  first-read p miss [] good found = elim found [ ]
  first-read p miss ((base, d) ∷ layers) good (here e) =
      let (v, q) = ram.read_in_range (p - base) d good.0 (covers-in_range p base d e).1 in
      (v, rw (e, q) refl)
  first-read p miss ((base, d) ∷ layers) good (later e c) =
      let (v, q) = first-read p miss layers good.1 c in (v, rw (e, q) refl)

  -- What a write to a covered offset leaves.
  record Stored (a v : ℕ) (miss : Outcome ℕ) (layers after : List (ℕ × D)) : Type 0 where
    good : AllGood after
    same : (p : ℕ) → IsCovered dev p layers → IsCovered dev p after
    reads :
        (p : ℕ)
        → (first dev dev.read p miss after).0
          ≡ (if a == p then ok v else (first dev dev.read p miss layers).0)

  same_here :
      (base : ℕ) (d d' : D) (layers : List (ℕ × D))
      → dev.max_offset d' ≡ dev.max_offset d
      → (p : ℕ) → IsCovered dev p ((base, d) ∷ layers)
      → IsCovered dev p ((base, d') ∷ layers)
  same_here base d d' layers top p (here e) = here (covers_resp p base d d' top ∙ e)
  same_here base d d' layers top p (later e c) = later (covers_resp p base d d' top ∙ e) c

  same_later :
      (layer : ℕ × D) (layers after : List (ℕ × D))
      → ((p : ℕ) → IsCovered dev p layers → IsCovered dev p after)
      → (p : ℕ) → IsCovered dev p (layer ∷ layers)
      → IsCovered dev p (layer ∷ after)
  same_later layer layers after f p (here e) = here e
  same_later layer layers after f p (later e c) = later e (f p c)

  covers_differ :
      (a p : ℕ) (layer : ℕ × D) (b c : Bool)
      → covers dev a layer ≡ b
      → covers dev p layer ≡ c
      → (b ≡ c → ⊥)
      → (a == p) ≡ false
  covers_differ a p layer b c e f differ = elim (Bool-cases (a == p)) [
    | inl same ↦ absurd (differ (sym e ∙ ap (λ q. covers dev q layer) ((==_iff a p).0 same) ∙ f))
    | inr other ↦ other
  ]

  reads_here :
      (a v base : ℕ) (miss : Outcome ℕ) (d d' : D) (layers : List (ℕ × D))
      → covers dev a (base, d) ≡ true
      → dev.max_offset d' ≡ dev.max_offset d
      → ((q : ℕ) → (dev.read q d').0 ≡ (if (a - base) == q then ok v else (dev.read q d).0))
      → (p : ℕ)
      → (first dev dev.read p miss ((base, d') ∷ layers)).0
        ≡ (if a == p then ok v else (first dev dev.read p miss ((base, d) ∷ layers)).0)
  unfolding first
  reads_here a v base miss d d' layers e top read p = elim (Bool-cases (covers dev p (base, d))) [
    | inl c ↦
        let in_a = covers-in_range a base d e in
        let in_p = covers-in_range p base d c in
        let shifted : ((a - base) == (p - base)) ≡ (a == p) = ground arith in
        rw (covers_resp p base d d' top, c, read (p - base), shifted) refl
    | inr c ↦
        rw (covers_resp p base d d' top, c, covers_differ a p (base, d) true false e c (λ q. cc))
          refl
  ]

  first-write :
      (a v : ℕ) (miss : Outcome ℕ) (refusal : Outcome (Unit {0})) (layers : List (ℕ × D))
      → AllGood layers
      → IsCovered dev a layers
      → (after : List (ℕ × D)) × (first dev (λ o. dev.write o v) a refusal layers ≡ (ok tt, after))
        × Stored a v miss layers after
  unfolding first
  first-write a v miss refusal [] good found = elim found [ ]
  first-write a v miss refusal ((base, d) ∷ layers) good (here e) =
      let (d', ran, good', top, read) =
        ram.write_in_range (a - base) v d good.0 (covers-in_range a base d e).1 in
      (
        (base, d') ∷ layers,
        rw (e, ran) refl,
        record {
          good = (good', good.1);
          same = same_here base d d' layers top;
          reads = reads_here a v base miss d d' layers e top read;
        },
      )
  first-write a v miss refusal ((base, d) ∷ layers) good (later e c) =
      let (after, ran, stored) = first-write a v miss refusal layers good.1 c in
      (
        (base, d) ∷ after,
        rw (e, ran) refl,
        record {
          good = (good.0, stored.good);
          same = same_later (base, d) layers after stored.same;
          reads = λ p. elim (Bool-cases (covers dev p (base, d))) [
            | inl f ↦ rw (f, covers_differ a p (base, d) false true e f (λ q. cc)) refl
            | inr f ↦ rw (f, stored.reads p) refl
          ];
        },
      )

  -- Layers of plain storage, of which some has each offset up to the bound, are plain storage together,
  -- with or without a history, and also where they overlap.
  pub layered-Ram : (history : Bool) → Ram (layered_device history dev)
  unfolding read write in_layers
  layered-Ram history = record {
    IsGood = λ s. AllGood s.layers × ((p : ℕ) → p ≤ s.max_offset → IsCovered dev p s.layers);
    read_in_range = λ p s good h.
        let within : ltb s.max_offset p ≡ false = ground arith in
        let (v, e) =
          first-read p (read_miss s.read_policy s.default) s.layers good.0 (good.1 p h) in
        (v, rw (within, e) refl);
    write_in_range = λ a v s good h.
        let within : ltb s.max_offset a ≡ false = ground arith in
        let (after, ran, stored) =
          first-write a v (read_miss s.read_policy s.default) (write_miss s.write_policy) s.layers
            good.0 (good.1 a h) in
        (
          record s { layers = after },
          rw (within, ran) refl,
          (stored.good, λ p q. stored.same p (good.1 p q)),
          refl,
          λ p. elim (Bool-cases (ltb s.max_offset p)) [
            | inl out ↦ let far : (a == p) ≡ false = ground arith in rw (out, far) refl
            | inr inside ↦ rw inside (stored.reads p)
          ],
        );
  }

  -- A write to an offset in range succeeds, and a read of any offset then gives the value if the offset is
  -- the same, and otherwise what it gave before. This takes layers of plain storage, of which some has
  -- each offset up to the bound; they may overlap.
  pub layered-write-read :
      (a v p : ℕ) (s : Layered D)
      → AllGood s.layers
      → ((q : ℕ) → q ≤ s.max_offset → IsCovered dev q s.layers)
      → a ≤ s.max_offset
      → ((write dev a v s).0 ≡ ok tt)
        × ((read dev p (write dev a v s).1).0 ≡ (if a == p then ok v else (read dev p s).0))
  unfolding layered-Ram
  layered-write-read a v p s good covered h =
      let (d', ran, good', top, reads) =
        (layered-Ram true).write_in_range a v s (good, covered) h in
      rw ran (refl, reads p)
