-- ===== src/Incidents/Announced.antt =====
-- What the inference worker writes: the table of incidents and the streams agree.
use charge_pulse.Prelude.{
  ℕ, ◌≤◌, String, Bool, true, false, Option, none, some, List, [], ◌∷◌, ◌++◌, ◌≡◌, refl, sym, ap,
  ◌∙◌, arith, map, All, All-mono, any, length, length-append, get_or, Bool-cases, Option-cases, inl,
  inr,
}
use mathlib.Core.List.{append-nil, append_assoc}
use charge_pulse.Incidents.Rules.{Numbers, Rule, evaluate}
use charge_pulse.Incidents.{
  Incident, Board, entry_of, raise_incident, is_duplicate, whole_second, report_rule, report_rules,
  Arrival, report_model, score_of, handle_message, consume,
}

All-append {ℓ κ} :
    {A : Type ℓ} (P : A → Type κ) (xs ys : List A) → All P xs → All P ys → All P (xs ++ ys)
All-append P [] ys h k = k
All-append P (x ∷ xs) ys h k = (h.0, All-append P xs ys h.1 k)

some_eq {ℓ} : {A : Type ℓ} {x y : A} → some x ≡ some y → x ≡ y
some_eq e = cc

some_ne {ℓ} : {A : Type ℓ} {y : A} → ◌≡◌ {A = Option A} none (some y) → ⊥
some_ne e = cc

-- an open incident of the charger
abbrev pub IsOpenOf : {F : Type 0} → String → Incident F → Type 0
IsOpenOf cp_id i = (i.cp_id ≡ cp_id) × (i.resolved_at ≡ none)

-- an open incident of the charger and the organisation
abbrev pub IsOpenIn : {F : Type 0} → String → ℕ → Incident F → Type 0
IsOpenIn cp_id org_id i = IsOpenOf cp_id i × (i.org_id ≡ org_id)

-- `b'` is `b` with new incidents that satisfy `P`, each announced on a stream
pub record Appends {F : Type 0} (P : Incident F → Type 0) (b b' : Board F) : Type 0 where
  pub new : List (Incident F)
  pub incidents : b'.incidents ≡ b.incidents ++ new
  pub entries : b'.entries ≡ b.entries ++ map entry_of new
  pub each : All P new

module _ {F : Type 0} where
  map-append :
      (xs ys : List (Incident F)) → map entry_of xs ++ map entry_of ys ≡ map entry_of (xs ++ ys)
  map-append [] ys = refl
  map-append (x ∷ xs) ys = ap (λ l. entry_of x ∷ l) (map-append xs ys)

module _ {F : Type 0} {P : Incident F → Type 0} where
  pub Appends-none : (b : Board F) → Appends P b b
  Appends-none b = record {
    new = [];
    incidents = sym (append-nil b.incidents);
    entries = sym (append-nil b.entries);
    each = tt;
  }

  pub Appends-trans : {a b c : Board F} → Appends P a b → Appends P b c → Appends P a c
  Appends-trans {a} {b} {c} h k = record {
    new = h.new ++ k.new;
    incidents =
        k.incidents ∙ (ap (λ l. l ++ k.new) h.incidents ∙ append_assoc a.incidents h.new k.new);
    entries =
        k.entries
        ∙ (ap (λ l. l ++ map entry_of k.new) h.entries
            ∙ (append_assoc a.entries (map entry_of h.new) (map entry_of k.new)
                ∙ ap (λ l. a.entries ++ l) (map-append h.new k.new)));
    each = All-append P h.new k.new h.each k.each;
  }

  pub Appends-length : {a b : Board F} → Appends P a b → length a.incidents ≤ length b.incidents
  Appends-length {a} {b} h = rw h.incidents (omega (arith, length-append a.incidents h.new))

  pub Appends-mono :
      {Q : Incident F → Type 0} {a b : Board F}
      → ((i : Incident F) → P i → Q i)
      → Appends P a b
      → Appends Q a b
  Appends-mono f h = record {
    new = h.new;
    incidents = h.incidents;
    entries = h.entries;
    each = All-mono f h.new h.each;
  }

module _ {F : Type 0} where
  pub raise_incident-Appends :
      (clock : ℕ → ℕ) (cp_id : String) (org_id : ℕ)
      (severity failure_type title description : String) (score : Option F) (b : Board F)
      → Appends
          (IsOpenIn cp_id org_id)
          b
          (raise_incident clock cp_id org_id severity failure_type title description score b)
  unfolding raise_incident
  raise_incident-Appends clock cp_id org_id severity failure_type title description score b =
      record { new = _; incidents = refl; entries = refl; each = (((refl, refl), refl), tt) }

  report_rule-Appends :
      (clock : ℕ → ℕ) (now : ℕ) (cp_id : String) (org_id : ℕ) (window_end : String)
      (score : Option F) (rule : Rule F) (b : Board F)
      → Appends
          (IsOpenIn cp_id org_id)
          b
          (report_rule clock now cp_id org_id window_end score rule b)
  unfolding report_rule
  report_rule-Appends clock now cp_id org_id window_end score rule b =
      elim (Bool-cases
        (any (is_duplicate cp_id rule.failure_type (whole_second now)) b.incidents)) [
          | inl e ↦ rw e (Appends-none b)
          | inr e ↦ rw e (raise_incident-Appends clock cp_id org_id _ _ _ _ _ b)
        ]

  pub report_rules-Appends :
      (clock : ℕ → ℕ) (now : ℕ) (cp_id : String) (org_id : ℕ) (window_end : String)
      (score : Option F) (fired : List (Rule F)) (b : Board F)
      → Appends
          (IsOpenIn cp_id org_id)
          b
          (report_rules clock now cp_id org_id window_end score fired b)
  unfolding report_rules
  report_rules-Appends clock now cp_id org_id window_end score [] b = Appends-none b
  report_rules-Appends clock now cp_id org_id window_end score (rule ∷ fired) b =
      Appends-trans (report_rule-Appends clock now cp_id org_id window_end score rule b)
        (report_rules-Appends clock now cp_id org_id window_end score fired _)

module _ (nu : Numbers) (fixed4 : nu.F → String) (clock : ℕ → ℕ) where
  report_model-Appends :
      (cp_id : String) (org_id : ℕ) (window_end : String) (scored : Option (nu.F × Bool))
      (fired : List (Rule nu.F)) (b : Board nu.F)
      → Appends
          (IsOpenIn cp_id org_id)
          b
          (report_model nu fixed4 clock cp_id org_id window_end scored fired b)
  unfolding report_model
  report_model-Appends cp_id org_id window_end (some (score, true)) [] b =
      raise_incident-Appends clock cp_id org_id _ _ _ _ _ b
  report_model-Appends cp_id org_id window_end (some (score, true)) (r ∷ fired) b = Appends-none b
  report_model-Appends cp_id org_id window_end (some (score, false)) fired b = Appends-none b
  report_model-Appends cp_id org_id window_end none fired b = Appends-none b

  -- A message that does not raise adds incidents and nothing else: each is open, of the stream's
  -- charger and the message's organisation, and is announced by one entry with its own fields, in the order of the
  -- table.
  pub handle_message-Appends :
      (cp_id : String) (m : Arrival nu.F) (b b' : Board nu.F)
      → handle_message nu fixed4 clock cp_id m b ≡ some b'
      → Appends (IsOpenIn cp_id m.org_id) b b'
  unfolding handle_message
  handle_message-Appends cp_id m b b' e = elim (Option-cases m.features) [
    | inl h ↦ elim (some_ne (rw h at e)) [ ]
    | inr (features, h) ↦ rw (← some_eq (rw h at e)) (
        Appends-trans
          (report_model-Appends cp_id m.org_id (get_or m.window_end "None") m.scored
            (evaluate nu features) b)
          (report_rules-Appends clock m.now cp_id m.org_id (get_or m.window_end "None")
            (score_of m.scored) (evaluate nu features) _))
  ]

  -- The loop of the worker over the messages of one stream: every message is acknowledged, in order,
  -- also one whose handling raises, and the table and the stream grow together.
  pub consume_lem :
      (cp_id : String) (ms : List (Arrival nu.F)) (b : Board nu.F)
      → (Appends (IsOpenOf cp_id) b (consume nu fixed4 clock cp_id ms b).0)
        × ((consume nu fixed4 clock cp_id ms b).1 ≡ map (λ m. m.msg_id) ms)
  unfolding consume
  consume_lem cp_id [] b = (Appends-none b, refl)
  consume_lem cp_id (m ∷ ms) b =
      let (grown, acks) =
        consume_lem cp_id ms (get_or (handle_message nu fixed4 clock cp_id m b) b) in
      (
        Appends-trans
            (elim (Option-cases (handle_message nu fixed4 clock cp_id m b)) [
              | inl e ↦ rw e (Appends-none b)
              | inr (b', e) ↦
                  rw e (Appends-mono (λ i h. h.0) (handle_message-Appends cp_id m b b' e))
            ])
            grown,
        ap (λ l. m.msg_id ∷ l) acks,
      )
