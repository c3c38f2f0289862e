-- ===== src/Chargers/Timeline.antt =====
-- `get_health` of backend/app/chargers/service.py. `order` is ORDER BY bucket.
use charge_pulse.Prelude.{
  ℕ, ◌*◌, ◌/◌, ◌==◌, String, Option, none, some, List, [], ◌∷◌, ◌&&◌, any, select, map, str_eq,
  if◌then◌else◌,
}
use charge_pulse.Prelude.Result.{Result, ok, err, http}
use charge_pulse.Database.{Db}
use charge_pulse.Incidents.Rules.{Numbers}
use charge_pulse.Features.{Floats, present}
use charge_pulse.Features.Worker.{FeatureRow}
use charge_pulse.Chargers.{is_owned}
use charge_pulse.Chargers.Reads.{is_between}

-- a point of the timeline; its health score is always null
pub record HealthPoint (F : Type 0) : Type 0 where
  pub time : ℕ
  pub anomaly_score : Option F

-- time_bucket('1 hour', t)
abbrev pub bucket_of : ℕ → ℕ
bucket_of t = t / 3600000000 * 3600000000

-- the buckets that occur, each once
unfoldable pub buckets : List ℕ → List ℕ
unfolding any
buckets [] = []
buckets (b ∷ bs) = let rest = buckets bs in if any (λ c. c == b) rest then rest else b ∷ rest

module _ (nu : Numbers) (fl : Floats nu) where
  -- AVG, which skips nulls and is null where nothing is left
  abbrev pub avg_of : List nu.F → Option nu.F
  avg_of [] = none
  avg_of (x ∷ xs) = some (fl.mean (x ∷ xs))

  unfoldable pub get_health :
      (List ℕ → List ℕ)
      → ℕ
      → String
      → Option ℕ
      → Option ℕ
      → List (FeatureRow nu.F)
      → Db
      → Result (List (HealthPoint nu.F))
  unfolding any select buckets present
  get_health order org_id cp_id frm to vectors db =
      let rows = select (λ r. str_eq r.cp_id cp_id && is_between frm to r.time) vectors in
      if any (is_owned org_id cp_id) db.chargers
      then ok (
          map
            (λ b. record {
              time = b;
              anomaly_score =
                  avg_of (
                    present
                      (map (λ r. r.anomaly_score) (select (λ r. bucket_of r.time == b) rows)));
            })
            (order (buckets (map (λ r. bucket_of r.time) rows))))
      else err (http 404 "charger not found")
