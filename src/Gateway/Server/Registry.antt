-- ===== src/Gateway/Server/Registry.antt =====
-- What the dict of connections holds.
use charge_pulse.Prelude.{
  ℕ, ◌==◌, String, Bool, true, false, Option, none, some, List, [], ◌∷◌, ◌≡◌, ◌≢◌, refl, ap, sym,
  ◌∙◌, lookup, if◌then◌else◌, lookup-insert, lookup-remove, eq_iff, str_eq, select, not, Bool-cases,
  inl, inr, ==_iff,
}
use charge_pulse.Gateway.Server.{
  Handler, Server, Live, first, later, Step, connect, disconnect, work, Reach, here, next, register,
  finish, IsFresh,
}

-- What is registered for a charger is a live connection of that charger, and no two live connections
-- have one number.
pub record IsRegistry (s : Server) : Type 0 where
  pub entry :
      (cp_id : String) (conn : ℕ)
      → lookup cp_id s.connected ≡ some conn
      → (h : Handler) × Live h s.live × (h.conn ≡ conn) × (h.id ≡ cp_id)
  pub unique : (g h : Handler) → Live g s.live → Live h s.live → g.conn ≡ h.conn → g ≡ h

some_eq : {m n : ℕ} → some m ≡ some n → m ≡ n
some_eq e = cc

true-false : {b : Bool} → b ≡ true → b ≡ false → ⊥
true-false e e' = cc

-- every connection but the finished one stays live
Live-select :
    (h : Handler) (conn : ℕ) {l : List Handler}
    → Live h l
    → (h.conn == conn) ≡ false
    → Live h (select (λ g. not (g.conn == conn)) l)
unfolding select
Live-select h conn (first {g} {rest} e) ne =
    rw (ap (λ (x : Handler). x.conn == conn) e ∙ ne) (first e)
Live-select h conn (later {g} {rest} l) ne = elim (Bool-cases (g.conn == conn)) [
  | inl e ↦ rw e (Live-select h conn l ne)
  | inr e ↦ rw e (later (Live-select h conn l ne))
]

Live-of_select :
    (h : Handler) (p : Handler → Bool) (l : List Handler) → Live h (select p l) → Live h l
unfolding select
Live-of_select h p [] m = m
Live-of_select h p (g ∷ l) m = go (p g) (Live-of_select h p l) m
  where
    go :
        (b : Bool)
        → (Live h (select p l) → Live h l)
        → Live h (if b then g ∷ select p l else select p l)
        → Live h (g ∷ l)
    go true ih (first e) = first e
    go true ih (later m) = later (ih m)
    go false ih m = later (ih m)

fresh_ne : (conn : ℕ) (h : Handler) (l : List Handler) → IsFresh conn l → Live h l → h.conn ≢ conn
fresh_ne conn h [] fresh m q = elim m [ ]
fresh_ne conn h (g ∷ l) fresh (first e) q =
    cc (fresh.0, (==_iff g.conn conn).1 (ap (λ (x : Handler). x.conn) e ∙ q))
fresh_ne conn h (g ∷ l) fresh (later m) q = fresh_ne conn h l fresh.1 m q

register_unique :
    (s : Server) (n g h : Handler)
    → IsRegistry s
    → IsFresh n.conn s.live
    → Live g (n ∷ s.live)
    → Live h (n ∷ s.live)
    → g.conn ≡ h.conn
    → g ≡ h
register_unique s n g h r fresh (first e) (first e') q = sym e ∙ e'
register_unique s n g h r fresh (first e) (later m) q =
    absurd (fresh_ne n.conn h s.live fresh m (sym q ∙ sym (ap (λ (x : Handler). x.conn) e)))
register_unique s n g h r fresh (later m) (first e) q =
    absurd (fresh_ne n.conn g s.live fresh m (q ∙ sym (ap (λ (x : Handler). x.conn) e)))
register_unique s n g h r fresh (later m) (later m') q = r.unique g h m m' q

pub register-IsRegistry :
    (s : Server) (n : Handler) → IsFresh n.conn s.live → IsRegistry s → IsRegistry (register n s)
unfolding register
register-IsRegistry s n fresh r = record {
  entry = λ cp_id conn e. elim (Bool-cases (str_eq n.id cp_id)) [
    | inl same ↦ (
      n,
      first refl,
      some_eq (sym (lookup-insert n.id cp_id n.conn s.connected ∙ rw same refl) ∙ e),
      (eq_iff n.id cp_id).0 same,
    )
    | inr differ ↦
        let (h, m, c, i) =
          r.entry cp_id conn
            (sym (lookup-insert n.id cp_id n.conn s.connected ∙ rw differ refl) ∙ e) in
        (h, later m, c, i)
  ];
  unique = λ g h m m' q. register_unique s n g h r fresh m m' q;
}

none-some : {n : ℕ} → ◌≡◌ {A = Option ℕ} none (some n) → ⊥
none-some e = cc

pub finish-IsRegistry :
    (s : Server) (h : Handler) (now : ℕ)
    → Live h s.live
    → IsRegistry s
    → IsRegistry (finish h now s)
unfolding finish
finish-IsRegistry s h now m r = record {
  entry = λ cp_id conn e. elim (Bool-cases (str_eq h.id cp_id)) [
    | inl same ↦ absurd (none-some (sym (lookup-remove h.id cp_id s.connected ∙ rw same refl) ∙ e))
    | inr differ ↦
        let (g, l, c, i) =
          r.entry cp_id conn (sym (lookup-remove h.id cp_id s.connected ∙ rw differ refl) ∙ e) in
        (g, Live-select g h.conn l (other_conn g l i differ), c, i)
  ];
  unique =
      λ g g' l l' q. r.unique g g' (Live-of_select g _ s.live l) (Live-of_select g' _ s.live l') q;
}
  where
    other_conn :
        (g : Handler) {cp_id : String}
        → Live g s.live
        → g.id ≡ cp_id
        → str_eq h.id cp_id ≡ false
        → (g.conn == h.conn) ≡ false
    other_conn g {cp_id} l i differ = elim (Bool-cases (g.conn == h.conn)) [
      | inl e ↦
          let same : g ≡ h = r.unique g h l m ((==_iff g.conn h.conn).0 e) in
          absurd
            (true-false ((eq_iff h.id cp_id).1 (sym (ap (λ (x : Handler). x.id) same) ∙ i)) differ)
      | inr e ↦ e
    ]

Step-IsRegistry : {s t : Server} → Step s t → IsRegistry s → IsRegistry t
Step-IsRegistry {s} (connect conn path cp_id org_id subprotocol now fresh ok e) r =
    rw e (register-IsRegistry s _ fresh r)
Step-IsRegistry {s} (disconnect h now m e) r = rw e (finish-IsRegistry s h now m r)
Step-IsRegistry {s} (work w e) r = rw e (record { entry = r.entry; unique = r.unique })

-- In every state that the gateway reaches from one where it holds, by connections, disconnections and
-- other work in any order: what is registered for a charger is a live connection of that charger, and
-- live connections have different numbers.
pub Reach-IsRegistry : {s t : Server} → IsRegistry s → Reach s t → IsRegistry t
Reach-IsRegistry r here = r
Reach-IsRegistry r (next steps step) = Step-IsRegistry step (Reach-IsRegistry r steps)
