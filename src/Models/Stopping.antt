-- ===== src/Models/Stopping.antt =====
-- When a training stops.
use charge_pulse.Prelude.{
  ℕ, ◌+◌, ◌≤◌, ◌<◌, leb, none, some, List, [], ◌∷◌, ◌≡◌, refl, arith, ◌⊎◌, inl, inr, length,
  Bool-cases,
}
use charge_pulse.Incidents.Rules.{Numbers}
use charge_pulse.Features.{Floats}
use charge_pulse.Models.Training.{Progress, improves, run_epochs, fresh}

-- the number of the epoch whose weights are kept, and 0 where there is none
abbrev pub kept_epoch : {F : Type 0} → Progress F → ℕ
kept_epoch p = elim p.best_epoch [ none ↦ 0 | some e ↦ e ]

-- the epochs since the kept one are counted by the patience, which is not used up
abbrev IsRunning : {F : Type 0} → Progress F → Type 0
IsRunning p = (p.epochs ≡ kept_epoch p + p.patience) × (p.patience < 10)

module _ (nu : Numbers) (fl : Floats nu) where
  open nu use {F, decimal, less}

  -- how a run ends that has begun with `p`
  abbrev pub IsStopped : Progress F → List F → Progress F → Type 0
  IsStopped p losses q =
      (q.epochs ≤ p.epochs + length losses)
      × (q.epochs ≡ kept_epoch q + q.patience)
      × ((q.patience ≡ 10) ⊎ (q.epochs ≡ p.epochs + length losses))
      × (q.patience ≤ 10)

  run_epochs_from :
      (losses : List F) (p : Progress F)
      → IsRunning p
      → IsStopped p losses (run_epochs nu fl losses p)
  unfolding run_epochs
  run_epochs_from [] p h = (omega arith, h.0, inr (omega arith), omega (arith, h.1))
  run_epochs_from (v ∷ losses) p h = elim (Bool-cases (improves nu fl v p.best_val)) [
    | inl e ↦
        let better : Progress F = record {
          best_val = v;
          best_epoch = some (p.epochs + 1);
          patience = 0;
          epochs = p.epochs + 1;
        } in
        let r = run_epochs_from losses better (omega arith, omega arith) in
        rw e (one_more (run_epochs nu fl losses better) better (omega arith) r)
    | inr e ↦
        let worse : Progress F = record p { patience = p.patience + 1; epochs = p.epochs + 1 } in
        elim (Bool-cases (leb 10 (p.patience + 1))) [
          | inl k ↦ rw e (
              rw k
                (omega arith, omega (arith, h.0), inl (ground (arith, h.1, k)), omega (arith, h.1)))
          | inr k ↦
              let r = run_epochs_from losses worse (omega (arith, h.0), ground (arith, k)) in
              rw e (rw k (one_more (run_epochs nu fl losses worse) worse (omega arith) r))
        ]
  ]
    where
      one_more :
          (q p' : Progress F)
          → p'.epochs ≡ p.epochs + 1
          → IsStopped p' losses q
          → IsStopped p (v ∷ losses) q
      one_more q p' n r = (
        omega (arith, n, r.0),
        r.1,
        elim r.2 [ inl a ↦ inl a | inr a ↦ inr (omega (arith, n, a)) ],
        r.3,
      )

  -- A training stops, whatever the losses of the epochs: it runs no more epochs than it may, and it runs
  -- them all or stops with its patience of 10 used up. The epochs that were run are those up to the kept one, if one is
  -- kept, and as many more as its patience counts, which are at most 10.
  pub run_epochs-IsStopped :
      (losses : List F) (infinity : F)
      → IsStopped (fresh nu fl infinity) losses (run_epochs nu fl losses (fresh nu fl infinity))
  run_epochs-IsStopped losses infinity =
      run_epochs_from losses (fresh nu fl infinity) (refl, omega arith)
