-- ===== src/Live/Delivery.antt =====
-- Who receives what.
use charge_pulse.Prelude.{
  ℕ, suc, ◌==◌, ==_iff, Bool, true, false, List, [], ◌∷◌, ◌++◌, ◌≡◌, refl, sym, ap, ap₂, ◌∙◌, arith,
  All, select, select-others, select-swap, map, if◌then◌else◌, Bool-cases, inl, inr,
}
use charge_pulse.Incidents.{IncidentEntry}
use charge_pulse.Live.{
  Client, LiveMessage, Sent, is_client, disconnect, send_all, discard_all, is_in, broadcast,
  message_of, tail_entries,
}

-- what a socket received, in order
abbrev pub received : ℕ → List Sent → List LiveMessage
received socket sent = map (λ s. s.message) (select (λ s. s.socket == socket) sent)

-- the set does not change during the broadcast
abbrev pub IsQuiet : IncidentEntry × (ℕ → Bool) → Type 0
IsQuiet m = (n : ℕ) → m.1 n ≡ false

-- the socket is connected once, for the organisation
abbrev pub IsConnected : ℕ → ℕ → List Client → Type 0
IsConnected org_id socket clients =
    select (λ c. c.socket == socket) clients ≡ record { org_id = org_id; socket = socket } ∷ []

absurd : true ≡ false → ⊥
absurd h = cc

module _ (send : ℕ → LiveMessage → Bool) where
  dead-All :
      (changed : ℕ → Bool) (m : LiveMessage) (n : ℕ) (cs : List Client)
      → All (λ c. send c.socket m ≡ false) (send_all send changed m n cs).1
  unfolding send_all
  dead-All changed m n [] = tt
  dead-All changed m n (c ∷ cs) = elim (Bool-cases (changed n)) [
    | inl e ↦ rw e tt
    | inr e ↦ elim (Bool-cases (send c.socket m)) [
      | inl k ↦ rw e (rw k (dead-All changed m (suc n) cs))
      | inr k ↦ rw e (rw k (k, dead-All changed m (suc n) cs))
    ]
  ]

  not_dead :
      (socket : ℕ) (m : LiveMessage) (c d : Client)
      → (c.socket == socket) ≡ true
      → send socket m ≡ true
      → send d.socket m ≡ false
      → is_client d.org_id d.socket c ≡ false
  not_dead socket m c d e alive dead = elim (Bool-cases (c.socket == d.socket)) [
    | inl k ↦
        let same : d.socket ≡ socket =
          sym ((==_iff c.socket d.socket).0 k) ∙ (==_iff c.socket socket).0 e in
        elim (absurd (sym alive ∙ (ap (λ s. send s m) (sym same) ∙ dead))) [ ]
    | inr k ↦ rw k (ground arith)
  ]

  discard_all-keeps :
      (socket : ℕ) (m : LiveMessage) (dead clients : List Client)
      → send socket m ≡ true
      → All (λ c. send c.socket m ≡ false) dead
      → select (λ c. c.socket == socket) (discard_all dead clients)
        ≡ select (λ c. c.socket == socket) clients
  unfolding discard_all disconnect
  discard_all-keeps socket m [] clients alive h = refl
  discard_all-keeps socket m (d ∷ dead) clients alive h =
      discard_all-keeps socket m dead _ alive h.1
      ∙ select-others (is_client d.org_id d.socket) (λ c. c.socket == socket) clients
          (λ c e. not_dead socket m c d e alive h.0)

  sent_all :
      (changed : ℕ → Bool) (m : LiveMessage) (socket n : ℕ) (cs : List Client)
      → ((k : ℕ) → changed k ≡ false)
      → send socket m ≡ true
      → (received socket (send_all send changed m n cs).0
          ≡ map (λ c. m) (select (λ c. c.socket == socket) cs))
        × ((send_all send changed m n cs).2 ≡ true)
  unfolding send_all select
  sent_all changed m socket n [] quiet alive = (refl, rw (quiet n) refl)
  sent_all changed m socket n (c ∷ cs) quiet alive =
      let h = sent_all changed m socket (suc n) cs quiet alive in
      elim (Bool-cases (c.socket == socket)) [
        | inl e ↦
            let k : send c.socket m ≡ true =
              ap (λ s. send s m) ((==_iff c.socket socket).0 e) ∙ alive in
            rw (quiet n) (rw k (rw e (ap (λ l. m ∷ l) h.0, h.1)))
        | inr e ↦ elim (Bool-cases (send c.socket m)) [
          | inl k ↦ rw (quiet n) (rw k (rw e (h.0, h.1)))
          | inr k ↦ rw (quiet n) (rw k (rw e (h.0, h.1)))
        ]
      ]

  broadcast_lem :
      (changed : ℕ → Bool) (o org_id socket : ℕ) (m : LiveMessage) (clients : List Client)
      → ((k : ℕ) → changed k ≡ false)
      → send socket m ≡ true
      → IsConnected org_id socket clients
      → (received socket (broadcast send changed o m clients).0
          ≡ (if o == org_id then m ∷ [] else []))
        × IsConnected org_id socket (broadcast send changed o m clients).1
  unfolding broadcast select
  broadcast_lem changed o org_id socket m clients quiet alive connected =
      let h = sent_all changed m socket 0 (select (is_in o) clients) quiet alive in
      let own : select (λ (c : Client). c.socket == socket) (select (is_in o) clients)
          ≡ select (is_in o) (record { org_id = org_id; socket = socket } ∷ []) =
        select-swap (λ c. c.socket == socket) (is_in o) clients ∙ ap (select (is_in o)) connected in
      (
        h.0 ∙ (ap (map (λ c. m)) own ∙ ground arith),
        rw h.1 (
            discard_all-keeps socket m _ clients alive
              (dead-All changed m 0 (select (is_in o) clients))
            ∙ connected),
      )

  received-append :
      (socket : ℕ) (a b : List Sent)
      → received socket (a ++ b) ≡ received socket a ++ received socket b
  unfolding select
  received-append socket [] b = refl
  received-append socket (s ∷ a) b = elim (Bool-cases (s.socket == socket)) [
    | inl e ↦ rw e (ap (λ l. s.message ∷ l) (received-append socket a b))
    | inr e ↦ rw e (received-append socket a b)
  ]

  -- A socket that is connected for an organisation, and that takes what it is sent, receives one message
  -- for each entry of the organisation, in the order of the entries, and none for an entry of another: whatever the other
  -- sockets do, as long as no socket is connected or gone during a broadcast.
  pub tail_entries-received :
      (org_id socket : ℕ) (ms : List (IncidentEntry × (ℕ → Bool))) (clients : List Client)
      → ((m : LiveMessage) → send socket m ≡ true)
      → All IsQuiet ms
      → IsConnected org_id socket clients
      → received socket (tail_entries send ms clients).0
        ≡ map message_of (select (λ e. e.org_id == org_id) (map (λ m. m.0) ms))
  unfolding tail_entries select
  tail_entries-received org_id socket [] clients alive quiet connected = refl
  tail_entries-received org_id socket ((e, changed) ∷ ms) clients alive quiet connected =
      let h =
        broadcast_lem changed e.org_id org_id socket (message_of e) clients quiet.0
          (alive (message_of e)) connected in
      let rest = tail_entries-received org_id socket ms _ alive quiet.1 h.1 in
      received-append socket (broadcast send changed e.org_id (message_of e) clients).0 _
      ∙ (ap₂ (λ x y. x ++ y) h.0 rest
          ∙ elim (Bool-cases (e.org_id == org_id)) [ inl k ↦ rw k refl | inr k ↦ rw k refl ])

  stopped :
      (changed : ℕ → Bool) (m : LiveMessage) (n : ℕ) (cs : List Client)
      → changed n ≡ true
      → send_all send changed m n cs ≡ ([], [], false)
  unfolding send_all
  stopped changed m n [] h = rw h refl
  stopped changed m n (c ∷ cs) h = rw h refl

  -- A socket that connects during a broadcast stops it: where the set has changed its size once the first socket has been
  -- sent the message, the other sockets of the organisation never receive it, and nothing is discarded.
  pub broadcast_interrupted :
      (changed : ℕ → Bool) (org_id : ℕ) (m : LiveMessage) (c : Client) (rest clients : List Client)
      → changed 0 ≡ false
      → changed 1 ≡ true
      → send c.socket m ≡ true
      → select (is_in org_id) clients ≡ c ∷ rest
      → broadcast send changed org_id m clients
        ≡ (record { socket = c.socket; message = m } ∷ [], clients)
  unfolding broadcast send_all
  broadcast_interrupted changed org_id m c rest clients before after takes there =
      rw there (rw before (rw takes (rw (stopped changed m 1 rest after) refl)))
