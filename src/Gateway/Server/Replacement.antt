-- ===== src/Gateway/Server/Replacement.antt =====
-- A charger that connects again while its old connection is still there.
use charge_pulse.Prelude.{
  ℕ, ◌==◌, String, false, none, ◌≡◌, ◌≢◌, refl, arith, lookup, lookup-remove, eq_iff, eq_refl,
  select,
}
use charge_pulse.Database.{offline}
use charge_pulse.Gateway.Router.{publish}
use charge_pulse.Gateway.Router.Status.{HasStatus, mark_offline-HasStatus}
use charge_pulse.Gateway.Server.{Handler, Server, Live, first, register, finish}

abbrev pub after_replacement : Handler → Handler → ℕ → Server → Server
after_replacement old fresh now s = finish old now (register fresh s)

-- Whatever the state: when a charger connects again and the old connection of the same charger then
-- ends, the charger is no longer registered, although its new connection is live, and its row is
-- offline.
pub replacement_unregisters :
    (s : Server) (old fresh : Handler) (now : ℕ)
    → old.id ≡ fresh.id
    → (fresh.conn == old.conn) ≡ false
    → (lookup fresh.id (after_replacement old fresh now s).connected ≡ none)
      × Live fresh (after_replacement old fresh now s).live
      × HasStatus fresh.id offline (after_replacement old fresh now s).world
unfolding finish register publish select
replacement_unregisters s old fresh now same differ = (
  rw lookup-remove (rw same (rw (eq_refl fresh.id) refl)),
  rw differ (first refl),
  rw (← same) (mark_offline-HasStatus old.id s.world),
)

-- The end of a connection takes its charger out of the registry, sets its row offline, and leaves
-- what is registered for any other charger.
pub finish_lem :
    (s : Server) (h : Handler) (now : ℕ) (j : String)
    → h.id ≢ j
    → (lookup h.id (finish h now s).connected ≡ none)
      × HasStatus h.id offline (finish h now s).world
      × (lookup j (finish h now s).connected ≡ lookup j s.connected)
unfolding finish publish
finish_lem s h now j ne = (
  rw lookup-remove (rw (eq_refl h.id) refl),
  mark_offline-HasStatus h.id s.world,
  rw lookup-remove (ground (arith, eq_iff h.id j, ne)),
)
