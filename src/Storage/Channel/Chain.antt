-- ===== src/Storage/Channel/Chain.antt =====
-- src/libisa/components/storage/pubsub.tpp: the events from the head to the tail, and how appending one extends
-- them.
use libsim.Prelude.{
  ℕ, suc, ◌≤◌, ◌<◌, ◌≡◌, ◌≢◌, inl, inr, refl, sym, ap, ◌∙◌, false, Option, none, some, ◌==◌,
  if◌then◌else◌, get_elem?, set, length, arith, get_elem?-set_self, get_elem?-set_ne, get_elem?-lt,
  leb, Bool-cases, ==_iff,
}
use libsim.Storage.Channel.{Event, Channel, new_event, new_channel}

-- The events from the head to the tail: where the `k`th of them is stored, and what it is. Each has the
-- displacement `k`, none is empty, and they are linked in both directions.
pub record Chain {ℓ} {V : Type ℓ} (ch : Channel V) : Type ℓ where
  pub last : ℕ
  pub place : ℕ → ℕ
  pub event : ℕ → Event V
  pub head_at : place 0 ≡ ch.head
  pub tail_at : place last ≡ ch.tail
  pub room : last < length ch.events
  pub stored : (k : ℕ) → k ≤ last → get_elem? ch.events (place k) ≡ some (event k)
  pub displaced : (k : ℕ) → k ≤ last → (event k).displacement ≡ k
  pub live : (k : ℕ) → k ≤ last → (event k).empty ≡ false
  pub first : (event 0).prev_node ≡ none
  pub back : (k : ℕ) → k < last → (event (suc k)).prev_node ≡ some (place k)
  pub ahead : (k : ℕ) → k < last → (event k).next_node ≡ some (place (suc k))
  pub final : (event last).next_node ≡ none

-- A sequence with one more element, or with another element at `k`.
abbrev pub extend {ℓ} : {A : Type ℓ} → (ℕ → A) → ℕ → A → ℕ → A
extend f last a k = if leb k last then f k else a

abbrev pub put {ℓ} : {A : Type ℓ} → (ℕ → A) → ℕ → A → ℕ → A
put f k a j = if j == k then a else f j

module _ {ℓ} {A : Type ℓ} (f : ℕ → A) where
  pub extend_old : (last : ℕ) (a : A) (k : ℕ) → k ≤ last → extend f last a k ≡ f k
  extend_old last a k h = ground arith

  pub extend_new : (last : ℕ) (a : A) → extend f last a (suc last) ≡ a
  extend_new last a = ground arith

  pub put_same : (k : ℕ) (a : A) → put f k a k ≡ a
  put_same k a = ground arith

  pub put_other : (k : ℕ) (a : A) (j : ℕ) → j ≢ k → put f k a j ≡ f j
  put_other k a j h = ground arith

  pub put_field {κ} :
      {B : Type κ} (g : A → B) (k : ℕ) (a : A) → g a ≡ g (f k) → (j : ℕ) → g (put f k a j) ≡ g (f j)
  put_field g k a e j = ground arith

module _ {ℓ} {V : Type ℓ} where
  -- Two events of a chain are stored at different places.
  pub place_injective :
      (ch : Channel V) (c : Chain ch) (j k : ℕ)
      → j ≤ c.last
      → k ≤ c.last
      → c.place j ≡ c.place k
      → j ≡ k
  place_injective ch c j k p q e =
      let same : some (c.event j) ≡ some (c.event k) =
        sym (c.stored j p) ∙ ap (get_elem? ch.events) e ∙ c.stored k q in
      sym (c.displaced j p) ∙ ap (displacement_or 0) same ∙ c.displaced k q
    where
      displacement_or : ℕ → Option (Event V) → ℕ
      displacement_or n none = n
      displacement_or n (some e) = e.displacement

  unfoldable pub new_channel-Chain : (v : V) → Chain (new_channel v)
  unfolding new_channel new_event
  new_channel-Chain v = record {
    last = 0;
    place = λ k. 0;
    event = λ k. new_event v 0 false none 0;
    head_at = refl;
    tail_at = refl;
    room = omega arith;
    stored = λ k p. refl;
    displaced = λ k p. omega arith;
    live = λ k p. refl;
    first = refl;
    back = λ k p. absurd (omega arith);
    ahead = λ k p. absurd (omega arith);
    final = refl;
  }

  -- What a store to one event of a chain leaves of the others.
  pub stored_put :
      (ch : Channel V) (c : Chain ch) (k : ℕ)
      → k ≤ c.last
      → (e : Event V) (j : ℕ) → j ≤ c.last
      → get_elem? (set ch.events (c.place k) e) (c.place j) ≡ some (put c.event k e j)
  stored_put ch c k p e j q = elim (Bool-cases (j == k)) [
    | inl same ↦
        rw (same, (==_iff j k).0 same)
          (get_elem?-set_self ch.events (c.place k) e
            (get_elem?-lt ch.events (c.place k) (c.event k) (c.stored k p)))
    | inr other ↦ rw other (
        get_elem?-set_ne ch.events (c.place k) (c.place j) e
          (λ same. let eq = place_injective ch c k j p q same in absurd (ground arith))
        ∙ c.stored j q)
  ]
