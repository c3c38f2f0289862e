-- ===== src/Gateway/Router/Streams.antt =====
-- What a stream holds of the entries that were added to it: `xadd(…, maxlen=STREAM_MAXLEN, approximate=True)`.
use charge_pulse.Prelude.{
  ℕ, ◌≤◌, String, Bool, List, [], ◌∷◌, ◌++◌, map, ◌≡◌, refl, sym, ap, ◌∙◌, ◌⊎◌, inl, inr, select,
  length, arith, str_eq, Bool-cases,
}
use charge_pulse.Database.{OcppEvent}
use charge_pulse.Gateway.Router.{StreamEntry, World, stream_maxlen, ocpp_stream}
use charge_pulse.Gateway.Router.Archive.{entry_of, IsArchived}

-- Redis trims an approximate MAXLEN as it likes, from the oldest entry on, and keeps at least that many entries.
abbrev pub IsTrimmed : ℕ → List StreamEntry → List StreamEntry → Type 0
IsTrimmed maxlen added kept =
    (gone : List StreamEntry) × (added ≡ gone ++ kept) × ((gone ≡ []) ⊎ (maxlen ≤ length kept))

abbrev pub added_to : String → World → List StreamEntry
added_to name w = select (λ e. str_eq e.stream name) w.xadds

-- the rows of the charger that the stream is named for
abbrev pub rows_for : String → World → List OcppEvent
rows_for name w = select (λ r. str_eq (ocpp_stream r.cp_id) name) w.db.ocpp_events

-- the stream holds the newest rows, all of them or at least `stream_maxlen`
pub record HoldsNewest (name : String) (w : World) (kept : List StreamEntry) : Type 0 where
  pub older : List OcppEvent
  pub newer : List OcppEvent
  pub rows : rows_for name w ≡ older ++ newer
  pub held : kept ≡ map entry_of newer
  pub enough : (older ≡ []) ⊎ (stream_maxlen ≤ length newer)

module _ {A B : Type 0} where
  select-map :
      (f : A → B) (p : B → Bool) (xs : List A)
      → select p (map f xs) ≡ map f (select (λ x. p (f x)) xs)
  unfolding select
  select-map f p [] = refl
  select-map f p (x ∷ xs) = elim (Bool-cases (p (f x))) [
    | inl e ↦ rw e (ap (λ l. f x ∷ l) (select-map f p xs))
    | inr e ↦ rw e (select-map f p xs)
  ]

  map-split :
      (f : A → B) (xs : List A) (ys zs : List B)
      → map f xs ≡ ys ++ zs
      → (front : List A) × (bs : List A) × (xs ≡ front ++ bs) × (map f front ≡ ys) × (map f bs ≡ zs)
  map-split f xs [] zs h = ([], xs, refl, refl, h)
  map-split f [] (y ∷ ys) zs h = cc
  map-split f (x ∷ xs) (y ∷ ys) zs h =
      let rest : map f xs ≡ ys ++ zs = cc in
      let first : f x ≡ y = cc in
      let (front, bs, whole, before, after) = map-split f xs ys zs rest in
      (
        x ∷ front,
        bs,
        ap (λ l. x ∷ l) whole,
        ap (λ l. f x ∷ l) before ∙ ap (λ z. z ∷ ys) first,
        after,
      )

  length-map : (f : A → B) (xs : List A) → length (map f xs) ≡ length xs
  length-map f [] = refl
  length-map f (x ∷ xs) = omega (arith, length-map f xs)

  map_nil : (f : A → B) (xs : List A) → map f xs ≡ [] → xs ≡ []
  map_nil f [] h = refl
  map_nil f (x ∷ xs) h = cc

-- Where table and additions agree, a stream holds the newest rows of its charger.
pub IsArchived-HoldsNewest :
    (name : String) (w : World) (kept : List StreamEntry)
    → IsArchived w
    → IsTrimmed stream_maxlen (added_to name w) kept
    → HoldsNewest name w kept
IsArchived-HoldsNewest name w kept h (gone, added, enough) =
    let agreed : map entry_of (rows_for name w) ≡ gone ++ kept =
      sym (select-map entry_of (λ e. str_eq e.stream name) w.db.ocpp_events)
      ∙ (ap (select (λ e. str_eq e.stream name)) (sym h) ∙ added) in
    let (older, newer, rows, before, after) =
      map-split entry_of (rows_for name w) gone kept agreed in
    record {
      older = older;
      newer = newer;
      rows = rows;
      held = sym after;
      enough = elim enough [
        | inl e ↦ inl (map_nil entry_of older (before ∙ e))
        | inr e ↦ inr (omega (arith, e, ap length after, length-map entry_of newer))
      ];
    }
