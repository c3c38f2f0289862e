-- ===== src/Incidents/Dedup.antt =====
-- The search for duplicates of the inference worker: which incidents it sees.
use charge_pulse.Prelude.{
  ℕ, ◌+◌, ◌≤◌, ◌<◌, String, Bool, true, false, Option, none, some, List, [], ◌∷◌, ◌++◌, ◌≡◌, refl,
  ap, ◌∙◌, arith, All, any, select, select-append, length, length-append, get_or, Bool-cases, inl,
  inr, str_eq, eq_iff,
}
use charge_pulse.Incidents.Rules.{Numbers, Rule, Features, evaluate}
use charge_pulse.Incidents.{
  Incident, Board, raise_incident, is_duplicate, whole_second, report_rule, report_rules, Arrival,
  report_model, score_of, handle_message,
}
use charge_pulse.Incidents.Announced.{report_rules-Appends, Appends-length}

module _ {F : Type 0} where
  -- detected before the current second
  abbrev pub IsEarlier : ℕ → Incident F → Type 0
  IsEarlier now i = i.detected_at ≤ whole_second now

  earlier_unseen :
      (cp_id failure_type : String) (now : ℕ) (is : List (Incident F))
      → All (IsEarlier now) is
      → any (is_duplicate cp_id failure_type (whole_second now)) is ≡ false
  unfolding any
  earlier_unseen cp_id failure_type now [] h = refl
  earlier_unseen cp_id failure_type now (i ∷ is) h =
      ground (arith, h.0, earlier_unseen cp_id failure_type now is h.1)

  report_rule-earlier :
      (clock : ℕ → ℕ) (now : ℕ) (cp_id : String) (org_id : ℕ) (window_end : String)
      (score : Option F) (rule : Rule F) (b : Board F)
      → All (IsEarlier now) b.incidents
      → length (report_rule clock now cp_id org_id window_end score rule b).incidents
        ≡ length b.incidents + 1
  unfolding report_rule raise_incident
  report_rule-earlier clock now cp_id org_id window_end score rule b h =
      rw (earlier_unseen cp_id rule.failure_type now b.incidents h)
        (length-append b.incidents (_ ∷ []))

  -- the incidents that the search finds
  abbrev pub seen : String → String → ℕ → List (Incident F) → ℕ
  seen cp_id failure_type since is = length (select (is_duplicate cp_id failure_type since) is)

  unseen :
      (p : Incident F → Bool) (is : List (Incident F)) → any p is ≡ false → length (select p is) ≡ 0
  unfolding any select
  unseen p [] h = refl
  unseen p (i ∷ is) h = ground (arith, unseen p is)

  select_one : (p : Incident F → Bool) (i : Incident F) → length (select p (i ∷ [])) ≤ 1
  unfolding select
  select_one p i = ground arith

  select_none :
      (p : Incident F → Bool) (i : Incident F) → p i ≡ false → length (select p (i ∷ [])) ≡ 0
  unfolding select
  select_none p i e = rw e refl

  -- a new incident of a type that the search has not found
  seen-append :
      (cp_id failure_type t : String) (since : ℕ) (is : List (Incident F)) (i : Incident F)
      → i.failure_type ≡ some t
      → any (is_duplicate cp_id t since) is ≡ false
      → seen cp_id failure_type since is ≤ 1
      → seen cp_id failure_type since (is ++ i ∷ []) ≤ 1
  seen-append cp_id failure_type t since is i typed absent few =
      let p : Incident F → Bool = is_duplicate cp_id failure_type since in
      let split : seen cp_id failure_type since (is ++ i ∷ [])
          ≡ length (select p is) + length (select p (i ∷ [])) =
        ap length (select-append p is (i ∷ [])) ∙ length-append (select p is) _ in
      elim (Bool-cases (str_eq t failure_type)) [
        | inl e ↦
            omega (
              arith,
              split,
              unseen p is (rw (← (eq_iff t failure_type).0 e) absent),
              select_one p i,
            )
        | inr e ↦ omega (arith, split, few, select_none p i (rw typed (ground (arith, e))))
      ]

  report_rule-seen :
      (clock : ℕ → ℕ) (now : ℕ) (cp_id : String) (org_id : ℕ) (window_end : String)
      (score : Option F) (rule : Rule F) (failure_type : String) (b : Board F)
      → seen cp_id failure_type (whole_second now) b.incidents ≤ 1
      → seen cp_id failure_type
          (whole_second now)
          (report_rule clock now cp_id org_id window_end score rule b).incidents
        ≤ 1
  unfolding report_rule raise_incident select
  report_rule-seen clock now cp_id org_id window_end score rule failure_type b h =
      elim (Bool-cases
        (any (is_duplicate cp_id rule.failure_type (whole_second now)) b.incidents)) [
          | inl e ↦ rw e h
          | inr e ↦ rw e (
              seen-append cp_id failure_type rule.failure_type (whole_second now) b.incidents _ refl
                e h)
        ]

  report_rules-seen :
      (clock : ℕ → ℕ) (now : ℕ) (cp_id : String) (org_id : ℕ) (window_end : String)
      (score : Option F) (fired : List (Rule F)) (failure_type : String) (b : Board F)
      → seen cp_id failure_type (whole_second now) b.incidents ≤ 1
      → seen cp_id failure_type
          (whole_second now)
          (report_rules clock now cp_id org_id window_end score fired b).incidents
        ≤ 1
  unfolding report_rules
  report_rules-seen clock now cp_id org_id window_end score [] failure_type b h = h
  report_rules-seen clock now cp_id org_id window_end score (rule ∷ fired) failure_type b h =
      report_rules-seen clock now cp_id org_id window_end score fired failure_type _
        (report_rule-seen clock now cp_id org_id window_end score rule failure_type b h)

module _ (nu : Numbers) (fixed4 : nu.F → String) (clock : ℕ → ℕ) where
  report_model_fired :
      (cp_id : String) (org_id : ℕ) (window_end : String) (scored : Option (nu.F × Bool))
      (rule : Rule nu.F) (fired : List (Rule nu.F)) (b : Board nu.F)
      → report_model nu fixed4 clock cp_id org_id window_end scored (rule ∷ fired) b ≡ b
  unfolding report_model
  report_model_fired cp_id org_id window_end none rule fired b = refl
  report_model_fired cp_id org_id window_end (some (score, true)) rule fired b = refl
  report_model_fired cp_id org_id window_end (some (score, false)) rule fired b = refl

  handle_message_fired :
      (cp_id : String) (m : Arrival nu.F) (features : Features nu.F) (rule : Rule nu.F)
      (fired : List (Rule nu.F)) (b : Board nu.F)
      → m.features ≡ some features
      → evaluate nu features ≡ rule ∷ fired
      → handle_message nu fixed4 clock cp_id m b
        ≡ some (
            report_rules clock m.now cp_id m.org_id
              (get_or m.window_end "None")
              (score_of m.scored)
              (rule ∷ fired)
              b)
  unfolding handle_message
  handle_message_fired cp_id m features rule fired b h e = rw h (
      rw e (
        rw (report_model_fired cp_id m.org_id (get_or m.window_end "None") m.scored rule fired b)
          refl))

  -- The search does not look an hour back: a message on which a rule fires opens a new incident
  -- whenever the incidents of the table were detected before the second of the message, open ones of the same charger
  -- and the same failure type included.
  pub handle_message_reopens :
      (cp_id : String) (m : Arrival nu.F) (features : Features nu.F) (rule : Rule nu.F)
      (fired : List (Rule nu.F)) (b : Board nu.F)
      → m.features ≡ some features
      → evaluate nu features ≡ rule ∷ fired
      → All (IsEarlier m.now) b.incidents
      → (b' : Board nu.F) × (handle_message nu fixed4 clock cp_id m b ≡ some b')
        × (length b.incidents < length b'.incidents)
  unfolding report_rules
  handle_message_reopens cp_id m features rule fired b h e earlier =
      let window_end = get_or m.window_end "None" in
      let first = report_rule clock m.now cp_id m.org_id window_end (score_of m.scored) rule b in
      (
        _,
        handle_message_fired cp_id m features rule fired b h e,
        omega (
          arith,
          report_rule-earlier clock m.now cp_id m.org_id window_end (score_of m.scored) rule b
              earlier,
          Appends-length (
              report_rules-Appends clock m.now cp_id m.org_id window_end (score_of m.scored) fired
                first),
        ),
      )

  -- Where a rule fires, the handling of one message does not open two incidents of one failure type
  -- that the search would see: of those that it sees, there is at most one after it if there was before it.
  pub handle_message_once :
      (cp_id failure_type : String) (m : Arrival nu.F) (features : Features nu.F) (rule : Rule nu.F)
      (fired : List (Rule nu.F)) (b : Board nu.F)
      → m.features ≡ some features
      → evaluate nu features ≡ rule ∷ fired
      → seen cp_id failure_type (whole_second m.now) b.incidents ≤ 1
      → (b' : Board nu.F) × (handle_message nu fixed4 clock cp_id m b ≡ some b')
        × (seen cp_id failure_type (whole_second m.now) b'.incidents ≤ 1)
  handle_message_once cp_id failure_type m features rule fired b h e few = (
    _,
    handle_message_fired cp_id m features rule fired b h e,
    report_rules-seen clock m.now cp_id m.org_id (get_or m.window_end "None") (score_of m.scored)
        (rule ∷ fired) failure_type b few,
  )
