-- ===== src/Models/Training.antt =====
-- What surrounds the training of a charger's model: the shape of its samples (backend/ml/training/data_loader.py),
-- the checks and the early stopping of backend/ml/training/train_anomaly.py.
use charge_pulse.Prelude.{
  ℕ, zero, suc, ◌+◌, ◌-◌, ◌*◌, ◌/◌, ltb, leb, Bool, Option, none, some, List, [], ◌∷◌, length, take,
  drop, if◌then◌else◌,
}
use charge_pulse.Incidents.Rules.{Numbers}
use charge_pulse.Features.{Floats}

-- SEQ_LEN and PATIENCE
abbrev pub seq_len : ℕ
seq_len = 96

abbrev pub patience_limit : ℕ
patience_limit = 10

module _ {A : Type 0} where
  -- the first `n` positions of the sliding window
  unfoldable pub windows_from : ℕ → ℕ → List A → List (List A)
  windows_from width zero xs = []
  windows_from width (suc n) xs = take width xs ∷ windows_from width n (drop 1 xs)

  unfoldable pub windowize : ℕ → List A → List (List A)
  unfolding windows_from
  windowize width features =
      if ltb (length features) width
      then []
      else windows_from width (length features - width + 1) features

  -- the samples for training and for validation, before their normalisation, which keeps number and shape; `none` is the RuntimeError. int(0.8 * n) is n * 4 / 5.
  unfoldable pub split_samples : List A → Option (List (List A) × List (List A))
  unfolding windowize
  split_samples matrix =
      if ltb (length matrix) (seq_len + 10)
      then none
      else let windows = windowize seq_len matrix in
        let split = length windows * 4 / 5 in some (take split windows, drop split windows)

-- `best_val`, the epoch of `best_state`, `patience`, and the epochs that were run
pub record Progress (F : Type 0) : Type 0 where
  pub best_val : F
  pub best_epoch : Option ℕ
  pub patience : ℕ
  pub epochs : ℕ

module _ (nu : Numbers) (fl : Floats nu) where
  open nu use {F, decimal, less}

  -- val_loss < best_val - 1e-5
  abbrev pub improves : F → F → Bool
  improves val_loss best_val = less val_loss (fl.minus best_val (decimal 1 5))

  -- the loop over the epochs; the losses are those that the training would give, one for each epoch that is allowed
  unfoldable pub run_epochs : List F → Progress F → Progress F
  run_epochs [] p = p
  run_epochs (val_loss ∷ rest) p =
      let better : Progress F = record {
        best_val = val_loss;
        best_epoch = some (p.epochs + 1);
        patience = 0;
        epochs = p.epochs + 1;
      } in
      let worse : Progress F = record p { patience = p.patience + 1; epochs = p.epochs + 1 } in
      let after_better = run_epochs rest better in
      let after_worse = run_epochs rest worse in
      if improves val_loss p.best_val
      then after_better
      else if leb patience_limit worse.patience
      then worse
      else after_worse

  -- before the first epoch; `infinity` is float("inf")
  abbrev pub fresh : F → Progress F
  fresh infinity = record { best_val = infinity; best_epoch = none; patience = 0; epochs = 0 }
