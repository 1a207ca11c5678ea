-- ===== src/Storage/Mmio/Output/Log.antt =====
-- `Output` of src/libisa/components/storage/mmio.tpp with its history, from components/delta/delta_mmio.tpp: the
-- device as a log that undo shortens.
use libsim.Prelude.{ℕ, zero, suc, true, Option, none, some, List, [], ◌∷◌, ◌++◌, length}
use libsim.Prelude.Exec.{Outcome, ok, Exec, ◌>>=◌, ◌>>◌, pure, zoom}
use libsim.Storage.Channel.{Attached, next_value, set_to_head}
use libsim.Storage.Mmio.{count_one}
use libsim.Storage.Mmio.Output.{
  Output, write, get, endpoint, take_delta, apply_backward, clear_delta,
}

-- What the machine and a subscriber can do: write a value, get it back, forget the history, undo it,
-- and look at all that is in the channel.
pub data Command (V : Type 0) : Type 0 where
  put : V → Command V
  peek forget undo look : Command V

-- The values in the channel behind the first, the cached value, and the count of the history.
pub record Log (V : Type 0) : Type 0 where
  pub written : List V
  pub cached : Option V
  pub count : ℕ

module _ {V : Type 0} where
  -- A subscriber's loop over `next_value`.
  unfoldable pub drain : ℕ → Exec (Attached V) (List V)
  drain zero = pure []
  drain (suc fuel) = do
    next ← next_value
    elim next [ none ↦ pure [] | some v ↦ do vs ← drain fuel; pure (v ∷ vs) ]

  -- A new subscriber goes to the head, and reads on until there is no value.
  unfoldable pub subscribe : Exec (Output V) (List V)
  unfolding drain
  subscribe = do
    e ← endpoint
    zoom (λ s. record s.port { endpoint = e })
        (λ a s. record s { port = record s.port { channel = a.channel } })
        (do set_to_head; (λ a. drain (length a.channel.events) a))

  unfoldable pub command : Command V → Exec (Output V) (List V)
  command (put v) = do write true 0 v; pure []
  command peek = do v ← get 0; pure (v ∷ [])
  command forget = do clear_delta true; pure []
  command undo = do count ← take_delta true; apply_backward count; pure []
  command look = subscribe

  unfoldable pub results : List (Command V) → Output V → List (Outcome (List V))
  unfolding command
  results [] s = []
  results (c ∷ cs) s = let (r, s') = command c s in r ∷ results cs s'

  unfoldable pub drop_last : List V → List V
  drop_last [] = []
  drop_last (v ∷ []) = []
  drop_last (v ∷ w ∷ vs) = v ∷ drop_last (w ∷ vs)

  unfoldable pub shorten : ℕ → List V → List V
  unfolding drop_last
  shorten zero vs = vs
  shorten (suc n) vs = shorten n (drop_last vs)

  -- An undo shortens the log, and leaves the cached value.
  unfoldable pub of_log : V → Command V → Log V → Outcome (List V) × Log V
  unfolding shorten count_one
  of_log default (put v) l =
      (ok [], record { written = l.written ++ v ∷ []; cached = some v; count = count_one l.count })
  of_log default peek l = elim l.cached [
    | none ↦ (ok (default ∷ []), record l { cached = some default })
    | some v ↦ (ok (v ∷ []), l)
  ]
  of_log default forget l = (ok [], record l { count = 0 })
  of_log default undo l = (ok [], record l { written = shorten l.count l.written; count = 0 })
  of_log default look l = (ok l.written, l)

  unfoldable pub log_results : V → List (Command V) → Log V → List (Outcome (List V))
  unfolding of_log
  log_results default [] l = []
  log_results default (c ∷ cs) l = let (r, l') = of_log default c l in r ∷ log_results default cs l'
