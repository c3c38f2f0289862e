-- ===== src/Examples/Connections.antt =====
-- Connections to the gateway.
use charge_pulse.Prelude.{ℕ, Option, none, some, [], ◌≡◌, refl, lookup, after_last, strip}
use charge_pulse.Database.{offline}
use charge_pulse.Gateway.Router.{lookup_org}
use charge_pulse.Gateway.Router.Status.{HasStatus}
use charge_pulse.Gateway.Server.{
  Handler, Server, Live, connect, here, next, register, new_handler, admit, cp_id_of,
}
use charge_pulse.Gateway.Server.Registry.{IsRegistry, Reach-IsRegistry}
use charge_pulse.Gateway.Server.Replacement.{after_replacement, replacement_unregisters}
use charge_pulse.Examples.{w, handler}

-- nobody is connected
abbrev idle : Server
idle = record { world = w; connected = []; live = []; closing = [] }

abbrev arrived : Server
arrived = register (new_handler 1 "CP-1" 1 none 50) idle

absent : {n : ℕ} → ◌≡◌ {A = Option ℕ} none (some n) → ⊥
absent e = cc

idle-IsRegistry : IsRegistry idle
unfolding lookup
idle-IsRegistry = record {
  entry = λ cp_id conn e. elim (absent e) [ ];
  unique = λ g h m n e. elim m [ ];
}

Reach-IsRegistry_example : IsRegistry arrived
unfolding admit cp_id_of lookup_org after_last strip
Reach-IsRegistry_example =
    Reach-IsRegistry idle-IsRegistry
      (next here (connect 1 "/ocpp/CP-1" "CP-1" 1 none 50 tt refl refl))

abbrev old : Handler
old = handler 1 "CP-1" 50

abbrev fresh : Handler
fresh = handler 2 "CP-1" 60

-- two chargers are connected
abbrev busy : Server
busy = register (handler 3 "CP-2" 55) (register old idle)

replacement_unregisters_example :
    (lookup "CP-1" (after_replacement old fresh 70 busy).connected ≡ none)
    × Live fresh (after_replacement old fresh 70 busy).live
    × HasStatus "CP-1" offline (after_replacement old fresh 70 busy).world
replacement_unregisters_example = replacement_unregisters busy old fresh 70 refl refl
