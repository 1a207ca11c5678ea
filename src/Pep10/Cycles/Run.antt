-- ===== src/Pep10/Cycles/Run.antt =====
-- src/libisa/isa/pep10/local_processor.tpp and local_machine.tpp: the cycle count in `step` and `run`.
use libsim.Prelude.{
  ℕ, zero, suc, ◌+◌, ◌^◌, ◌<◌, ◌≤◌, ◌≡◌, ◌≢◌, refl, ap, subst, Bool, true, false, if◌then◌else◌,
  leb, u64, arith, none, some, Option,
}
use libsim.Prelude.Exec.{
  Errc, Outcome, ok, err, crash, Exec, ◌>>=◌, ◌>>◌, lift, abort, modify, on_failure, branch, pure,
  gets, must, value, storage, no_mm_input,
}
use libsim.Prelude.Keeps.{Keeps, Keeps-observe, keeps_rules}
use libsim.Storage.Device.{Device}
use libsim.Pep10.Access.{read_register, read_register_at}
use libsim.Pep10.State.{Machine}
use libsim.Pep10.Invariant.{access_rules}
use libsim.Pep10.Invariant.Unary.{unary_dispatch-Keeps}
use libsim.Pep10.Invariant.Nonunary.{nonunary_dispatch-Keeps}
use libsim.Pep10.Step.{
  StepResult, nominal, needs_mmi, halted_port, at_breakpoint, failure_result, ret_helper,
  finish_step, lost_operand, step_unary, step_nonunary, step, run,
}
use libsim.Pep10.Cycles.{
  HasCycles, HasCycles-Accesses, in_registers-Keeps, unwind_active_instruction-Cycles,
  save_deltas-Cycles,
}

-- The cycle count that a result of a step comes with, from a count of `k`.
abbrev pub Counted : ℕ → Outcome StepResult → ℕ → Type 0
Counted k (ok needs_mmi) n = n ≡ k
Counted k (ok _) n = n ≡ u64 (k + 1)
Counted k (err e) n = n ≡ k
Counted k crash n = Unit

record Counts {M H : Type 0} (k : ℕ) (x : Exec (Machine M H) StepResult) : Type 0 where
  at : (s : Machine M H) → HasCycles k s → Counted k (x s).0 (x s).1.processor.cycle_count

-- With a count of `k`, a result for which a cycle was counted, or an exception.
abbrev Finishes : ℕ → Outcome StepResult → ℕ → Type 0
Finishes k (ok needs_mmi) n = ⊥
Finishes k (ok _) n = n ≡ k
Finishes k (err e) n = ⊥
Finishes k crash n = Unit

record Finished {M H : Type 0} (k : ℕ) (x : Exec (Machine M H) StepResult) : Type 0 where
  at : (s : Machine M H) → HasCycles k s → Finishes k (x s).0 (x s).1.processor.cycle_count

Counted-Finishes :
    (k : ℕ) (r : Outcome StepResult) (n : ℕ) → Finishes (u64 (k + 1)) r n → Counted k r n
Counted-Finishes k (ok needs_mmi) n h = absurd h
Counted-Finishes k (ok _) n h = h
Counted-Finishes k (err e) n h = absurd h
Counted-Finishes k crash n h = tt

module _ {M H A : Type 0} {k : ℕ} where
  continue-Counts :
      (r : Outcome A) (f : A → Exec (Machine M H) StepResult) (s : Machine M H)
      → ((a : A) → Counts k (f a))
      → HasCycles k s
      → Counted k ((lift r >>= f) s).0 ((lift r >>= f) s).1.processor.cycle_count
  continue-Counts (ok a) f s kf h = (kf a).at s h
  continue-Counts (err c) f s kf h = h
  continue-Counts crash f s kf h = tt

  Counts-bind :
      (x : Exec (Machine M H) A) (f : A → Exec (Machine M H) StepResult)
      → Keeps (HasCycles k) x
      → ((a : A) → Counts k (f a))
      → Counts k (x >>= f)
  Counts-bind x f kx kf = record { at = λ s h. continue-Counts (x s).0 f (x s).1 kf (kx.at s h) }

  branch-Counts :
      (r : Outcome A) (g : Errc → Exec (Machine M H) StepResult)
      (f : A → Exec (Machine M H) StepResult) (s : Machine M H)
      → ((c : Errc) → Counts k (g c))
      → ((a : A) → Counts k (f a))
      → HasCycles k s
      → Counted k (branch r g f s).0 (branch r g f s).1.processor.cycle_count
  branch-Counts (ok a) g f s kg kf h = (kf a).at s h
  branch-Counts (err c) g f s kg kf h = (kg c).at s h
  branch-Counts crash g f s kg kf h = tt

  Counts-on_failure :
      (x : Exec (Machine M H) A) (g : Errc → Exec (Machine M H) StepResult)
      (f : A → Exec (Machine M H) StepResult)
      → Keeps (HasCycles k) x
      → ((c : Errc) → Counts k (g c))
      → ((a : A) → Counts k (f a))
      → Counts k (on_failure x g f)
  Counts-on_failure x g f kx kg kf = record {
    at = λ s h. branch-Counts (x s).0 g f (x s).1 kg kf (kx.at s h);
  }

  -- An error inside `must` is an exception.
  continue-Finished :
      (r : Outcome A) (f : A → Exec (Machine M H) StepResult) (s : Machine M H)
      → ((a : A) → Finished k (f a))
      → HasCycles k s
      → Finishes k ((lift (value r) >>= f) s).0 ((lift (value r) >>= f) s).1.processor.cycle_count
  continue-Finished (ok a) f s kf h = (kf a).at s h
  continue-Finished (err c) f s kf h = tt
  continue-Finished crash f s kf h = tt

  Finished-must :
      (x : Exec (Machine M H) A) (f : A → Exec (Machine M H) StepResult)
      → Keeps (HasCycles k) x
      → ((a : A) → Finished k (f a))
      → Finished k (must x >>= f)
  Finished-must x f kx kf = record {
    at = λ s h. continue-Finished (x s).0 f (x s).1 kf (kx.at s h);
  }

  Finished-gets :
      (g : Machine M H → A) (f : A → Exec (Machine M H) StepResult)
      → ((a : A) → Finished k (f a))
      → Finished k (gets g >>= f)
  Finished-gets g f kf = record { at = λ s h. (kf (g s)).at s h }

failure_result-Counted : (c : Errc) (k n : ℕ) → n ≡ k → Counted k (failure_result c) n
unfolding failure_result
failure_result-Counted (storage no_mm_input) k n h = h
failure_result-Counted _ k n h = h

module _ {M H : Type 0} {k : ℕ} where
  Counts-abort : Counts {M = M} {H = H} k abort
  Counts-abort = record { at = λ s h. tt }

  Counts-if :
      (b : Bool) (x y : Exec (Machine M H) StepResult)
      → Counts k x
      → Counts k y
      → Counts k (if b then x else y)
  Counts-if true x y kx ky = kx
  Counts-if false x y kx ky = ky

  Counts-failure_result : (c : Errc) → Counts {M = M} {H = H} k (lift (failure_result c))
  Counts-failure_result c = record {
    at = λ s h. failure_result-Counted c k s.processor.cycle_count h;
  }

  Finished-pure :
      (stopped found : Bool)
      → Finished {M = M} {H = H} k
          (pure (if stopped then halted_port else if found then at_breakpoint else nominal))
  Finished-pure true found = record { at = λ s h. h }
  Finished-pure false true = record { at = λ s h. h }
  Finished-pure false false = record { at = λ s h. h }

  -- The increment, and a rest that leaves the count alone.
  Counts-increment :
      (rest : Exec (Machine M H) StepResult)
      → Finished (u64 (k + 1)) rest
      → Counts k (
          (modify λ m. record m {
            processor = record m.processor { cycle_count = u64 (m.processor.cycle_count + 1) };
          })
          >> rest)
  Counts-increment rest kr = record {
    at = λ s h. Counted-Finishes k _ _ (kr.at _ (ap (λ n. u64 (n + 1)) h));
  }

ruleset counts_rules = (
  keeps_rules, access_rules, HasCycles-Accesses, Counts-bind, Counts-on_failure, Counts-abort,
  Counts-if, Counts-failure_result, unary_dispatch-Keeps, nonunary_dispatch-Keeps,
  unwind_active_instruction-Cycles, save_deltas-Cycles,
)

module _ {M H : Type 0} ⦃dev : Device M H ℕ⦄ (k : ℕ) where
  ret_helper-Counts : (c : Errc) → Counts {M = M} {H = H} k (ret_helper c)
  unfolding ret_helper
  ret_helper-Counts c = search counts_rules depth 8

  lost_operand-Counts : Counts {M = M} {H = H} k lost_operand
  unfolding lost_operand
  lost_operand-Counts = search counts_rules depth 8

  finish_step-Counts : Counts {M = M} {H = H} k finish_step
  unfolding finish_step read_register read_register_at
  finish_step-Counts =
      search
        (
          counts_rules, Counts-increment, Finished-gets, Finished-must, Keeps-observe,
          Finished-pure, in_registers-Keeps,
        )
        depth 16

  step_unary-Counts : (is : ℕ) → Counts {M = M} {H = H} k (step_unary is)
  unfolding step_unary
  step_unary-Counts is = search (counts_rules, ret_helper-Counts, finish_step-Counts) depth 8

  step_nonunary-Counts : (is pc : ℕ) → Counts {M = M} {H = H} k (step_nonunary is pc)
  unfolding step_nonunary
  step_nonunary-Counts is pc =
      search (counts_rules, ret_helper-Counts, finish_step-Counts, lost_operand-Counts) depth 12

  step-Counts : Counts {M = M} {H = H} k step
  unfolding step
  step-Counts =
      search (counts_rules, ret_helper-Counts, step_unary-Counts, step_nonunary-Counts) depth 12

module _ {M H : Type 0} ⦃dev : Device M H ℕ⦄ where
  -- A step that ends well, be it nominal, at a breakpoint or halted, has counted one cycle, modulo 2^64. One
  -- that fails or waits for input, whose effects are undone, has counted none. Of a step that throws, nothing
  -- is said.
  pub step-cycle_count :
      (m : Machine M H)
      → Counted m.processor.cycle_count (step m).0 (step m).1.processor.cycle_count
  step-cycle_count m = (step-Counts m.processor.cycle_count).at m refl

  abbrev chosen : ℕ → ℕ → Bool → StepResult → Exec (Machine M H) (Option StepResult)
  chosen fuel max_timesteps over res = elim over [
    | true ↦ pure (some res)
    | false ↦ elim res [ nominal ↦ run fuel max_timesteps | other ↦ pure (some other) ]
  ]

  -- What `run` does after a step.
  after_step : ℕ → ℕ → StepResult → Exec (Machine M H) (Option StepResult)
  after_step fuel max_timesteps res = do
    now ← gets (λ m. m.processor.cycle_count)
    chosen fuel max_timesteps (leb max_timesteps now) res

  ends_chosen :
      (fuel max_timesteps : ℕ) (over : Bool) (res : StepResult) (m : Machine M H)
      → (over ≡ false → res ≡ nominal → (run fuel max_timesteps m).0 ≢ ok none)
      → (chosen fuel max_timesteps over res m).0 ≢ ok none
  ends_chosen fuel max_timesteps true res m go = λ e. cc
  ends_chosen fuel max_timesteps false nominal m go = go refl refl
  ends_chosen fuel max_timesteps false _ m go = λ e. cc

  ends_after :
      (fuel max_timesteps : ℕ) (r : Outcome StepResult) (m : Machine M H)
      → (r ≡ ok nominal
          → m.processor.cycle_count < max_timesteps
          → (run fuel max_timesteps m).0 ≢ ok none)
      → ((lift r >>= after_step fuel max_timesteps) m).0 ≢ ok none
  unfolding after_step
  ends_after fuel max_timesteps (ok res) m go =
      ends_chosen fuel max_timesteps (leb max_timesteps m.processor.cycle_count) res m
        λ under e. go (ap ok e) (ground arith)
  ends_after fuel max_timesteps (err c) m go = λ e. cc
  ends_after fuel max_timesteps crash m go = λ e. cc

  -- `run` does not use up its fuel, if the fuel is not 0 and with the cycle count reaches the bound, the
  -- bound is below 2^64 and the cycle count below 2^64 - 1.
  pub run-ends :
      (fuel max_timesteps : ℕ) (m : Machine M H)
      → 0 < fuel
      → max_timesteps ≤ m.processor.cycle_count + fuel
      → max_timesteps < 2 ^ 64
      → m.processor.cycle_count + 1 < 2 ^ 64
      → (run fuel max_timesteps m).0 ≢ ok none
  unfolding run after_step
  run-ends zero max_timesteps m positive enough small room = absurd (omega arith)
  run-ends (suc fuel) max_timesteps m positive enough small room =
      ends_after fuel max_timesteps (step m).0 (step m).1 λ e under.
        let counted =
          subst (λ r. Counted m.processor.cycle_count r (step m).1.processor.cycle_count) e
            (step-cycle_count m) in
        run-ends fuel max_timesteps (step m).1 (omega arith) (omega arith) small (omega arith)
