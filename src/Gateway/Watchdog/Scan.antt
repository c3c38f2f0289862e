-- ===== src/Gateway/Watchdog/Scan.antt =====
-- What a scan marks and reports.
use charge_pulse.Prelude.{
  Option-cases, inl, inr, ℕ, String, Bool, true, false, List, [], ◌∷◌, ◌≡◌, refl, ap, ◌∙◌, arith,
  ◌||◌, some, none, lookup, any, select, str_eq, eq_iff, eq_refl, if◌then◌else◌, Bool-cases, inl,
  inr,
}
use charge_pulse.Gateway.Router.{World}
use charge_pulse.Gateway.Server.{Handler}
use charge_pulse.Gateway.Watchdog.{
  Watchdog, is_marked, mark, discard, is_silent, scan_one, scan_items, scan,
}

is_marked_same :
    (k j : String) (l : List String) (b : Bool)
    → str_eq k j ≡ true
    → is_marked k l ≡ b
    → is_marked j l ≡ b
is_marked_same k j l b e h = rw (← (eq_iff k j).0 e) h

is_marked_cons :
    (k j : String) (l : List String) → is_marked j (k ∷ l) ≡ (str_eq k j || is_marked j l)
unfolding is_marked any
is_marked_cons k j l = refl

is_marked-mark :
    (k j : String) (l : List String)
    → is_marked j (mark k l) ≡ (if str_eq k j then true else is_marked j l)
unfolding mark
is_marked-mark k j l = elim (Bool-cases (is_marked k l)) [
  | inl e ↦ rw e (elim (Bool-cases (str_eq k j)) [
    | inl q ↦ rw q (is_marked_same k j l true q e)
    | inr q ↦ rw q refl
  ])
  | inr e ↦ rw e (is_marked_cons k j l ∙ ground arith)
]

is_marked-discard :
    (k j : String) (l : List String)
    → is_marked j (discard k l) ≡ (if str_eq k j then false else is_marked j l)
unfolding discard is_marked any select
is_marked-discard k j [] = ground arith
is_marked-discard k j (m ∷ l) =
    ground (arith, is_marked-discard k j l, eq_iff m k, eq_iff m j, eq_iff k j)

module _ (timeout now : ℕ) where
  -- one round decides the mark of its charger and leaves the others
  is_marked-scan_one :
      (k j : String) (h : Handler) (l : List String) (w : World)
      → is_marked j (scan_one timeout now k h (l, w)).0
        ≡ (if str_eq k j then is_silent timeout now h else is_marked j l)
  unfolding scan_one
  is_marked-scan_one k j h l w = ground (
    arith,
    is_marked-mark k j l,
    is_marked-discard k j l,
    is_marked_same k j l true,
    is_marked_same k j l false,
  )

  scan_one_differ :
      (k j : String) (h : Handler) (l : List String) (w : World)
      → str_eq k j ≡ false
      → is_marked j (scan_one timeout now k h (l, w)).0 ≡ is_marked j l
  scan_one_differ k j h l w e = is_marked-scan_one k j h l w ∙ rw e refl

  scan_one_same :
      (k j : String) (h : Handler) (l : List String) (w : World)
      → str_eq k j ≡ true
      → is_marked j (scan_one timeout now k h (l, w)).0 ≡ is_silent timeout now h
  scan_one_same k j h l w e = is_marked-scan_one k j h l w ∙ rw e refl

-- the keys of the copied dict are different
abbrev pub DistinctKeys : List (String × Handler) → Type 0
DistinctKeys [] = Unit
DistinctKeys ((k, h) ∷ rest) = (lookup k rest ≡ none) × DistinctKeys rest

some-none : (h : Handler) → some h ≡ none → ⊥
some-none h e = cc

some_handler : {g h : Handler} → some g ≡ some h → g ≡ h
some_handler e = cc

lookup_cons :
    (k j : String) (h : Handler) (rest : List (String × Handler))
    → lookup j ((k, h) ∷ rest) ≡ (if str_eq k j then some h else lookup j rest)
unfolding lookup
lookup_cons k j h rest = refl

-- an entry of the rest of the dict has another key than the first one
rest_differs :
    (k j : String) (h : Handler) (rest : List (String × Handler))
    → lookup k rest ≡ none
    → lookup j rest ≡ some h
    → str_eq k j ≡ false
rest_differs k j h rest absent present = elim (Bool-cases (str_eq k j)) [
  | inl e ↦ absurd (clash (rw ((eq_iff k j).0 e) at absent))
  | inr e ↦ e
]
  where
    clash : lookup j rest ≡ none → ⊥
    clash a = cc (a, present)

module _ (timeout now : ℕ) where
  scan_items_absent :
      (items : List (String × Handler)) (j : String) (l : List String) (w : World)
      → lookup j items ≡ none
      → is_marked j (scan_items timeout now items (l, w)).0 ≡ is_marked j l
  unfolding scan_items lookup
  scan_items_absent [] j l w absent = refl
  scan_items_absent ((k, h) ∷ rest) j l w absent = elim (Bool-cases (str_eq k j)) [
    | inl e ↦ absurd (some-none h (rw e at absent))
    | inr e ↦
        let (l', w') = scan_one timeout now k h (l, w) in
        scan_items_absent rest j l' w' (rw e at absent) ∙ scan_one_differ timeout now k j h l w e
  ]

  scan_items_present :
      (items : List (String × Handler)) (j : String) (h : Handler) (l : List String) (w : World)
      → DistinctKeys items
      → lookup j items ≡ some h
      → is_marked j (scan_items timeout now items (l, w)).0 ≡ is_silent timeout now h
  unfolding scan_items lookup
  scan_items_present [] j h l w distinct present = cc
  scan_items_present ((k, g) ∷ rest) j h l w distinct present = elim (Bool-cases (str_eq k j)) [
    | inl e ↦
        let (l', w') = scan_one timeout now k g (l, w) in
        scan_items_absent rest j l' w' (rw ((eq_iff k j).0 e) at distinct.0)
        ∙ (scan_one_same timeout now k j g l w e
            ∙ ap (is_silent timeout now) (some_handler (rw e at present)))
    | inr e ↦
        let (l', w') = scan_one timeout now k g (l, w) in
        scan_items_present rest j h l' w' distinct.1 (rw e at present)
  ]

  -- the silent connections are marked already
  abbrev Reported : List (String × Handler) → List String → Type 0
  Reported items l =
      (j : String) (h : Handler)
      → lookup j items ≡ some h
      → is_silent timeout now h ≡ true
      → is_marked j l ≡ true

  scan_one_quiet :
      (k : String) (h : Handler) (l : List String) (w : World)
      → (is_silent timeout now h ≡ true → is_marked k l ≡ true)
      → (scan_one timeout now k h (l, w)).1 ≡ w
  unfolding scan_one
  scan_one_quiet k h l w reported = ground arith

  scan_items_quiet :
      (items : List (String × Handler)) (l : List String) (w : World)
      → DistinctKeys items
      → Reported items l
      → (scan_items timeout now items (l, w)).1 ≡ w
  unfolding scan_items
  scan_items_quiet [] l w distinct reported = refl
  scan_items_quiet ((k, h) ∷ rest) l w distinct reported =
      let (l', w') = scan_one timeout now k h (l, w) in
      scan_items_quiet rest l' w' distinct.1 (λ j g present silent.
        let differ = rest_differs k j g rest distinct.0 present in
        scan_one_differ timeout now k j h l w differ
        ∙ reported j g (rw lookup_cons (rw differ present)) silent)
      ∙ scan_one_quiet k h l w (reported k h (rw lookup_cons (rw (eq_refl k) refl)))

-- After a scan exactly the silent ones of the connected chargers are marked: a charger that has just
-- fallen silent is marked, one that is heard again is not, and what is marked of a charger that is not
-- connected stays.
pub scan_marks :
    (now : ℕ) (items : List (String × Handler)) (d : Watchdog) (w : World) (j : String)
    → DistinctKeys items
    → is_marked j (scan now items d w).0.stale_marked ≡ elim (lookup j items) [
      | none ↦ is_marked j d.stale_marked
      | some h ↦ is_silent d.timeout now h
    ]
unfolding scan
scan_marks now items d w j distinct = elim (Option-cases (lookup j items)) [
  | inl absent ↦ rw absent (scan_items_absent d.timeout now items j d.stale_marked w absent)
  | inr (h, present) ↦
      rw present (scan_items_present d.timeout now items j h d.stale_marked w distinct present)
]

-- A second scan at the same time writes nothing to the database and publishes nothing: a silence is
-- reported once.
pub scan_once :
    (now : ℕ) (items : List (String × Handler)) (d : Watchdog) (w : World)
    → DistinctKeys items
    → (scan now items (scan now items d w).0 (scan now items d w).1).1 ≡ (scan now items d w).1
unfolding scan
scan_once now items d w distinct =
    let (l, w') = scan_items d.timeout now items (d.stale_marked, w) in
    scan_items_quiet d.timeout now items l w' distinct (λ j h present silent.
      scan_items_present d.timeout now items j h d.stale_marked w distinct present ∙ silent)
