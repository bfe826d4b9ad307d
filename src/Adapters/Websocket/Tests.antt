-- ===== src/Adapters/Websocket/Tests.antt =====
-- A concrete hub and its groups, and the theorems there.
use python_commons.Base.{ℕ, zero, suc, ◌≡◌, refl, String, string_eq, List, [], ◌∷◌}
use python_commons.Outcome.{Outcome, returned, raised}
use python_commons.Adapters.Websocket.{
  WebSocketConnection, register, connections, gather, broadcast, send_to, Groups, members, join,
  leave, groups_for, registered, group_broadcast, members_or_empty, add_id, discard_id,
}

abbrev a : WebSocketConnection
a = record { id = "a"; object = 1 }

abbrev b : WebSocketConnection
b = record { id = "b"; object = 2 }

-- the second connection of the client of `a`
abbrev again : WebSocketConnection
again = record { id = "a"; object = 3 }

-- The world lists the objects that were sent to; the first object fails.
abbrev send : ℕ → String → List ℕ → List ℕ × Outcome (Unit {0}) ℕ
send object payload w = (object ∷ w, elim object [ zero ↦ returned tt | suc n ↦ raised n ])

sends_to_all :
    (broadcast send "x" (register b (register a [])) [] ≡ (2 ∷ 1 ∷ []))
    × ((send_to send "c" "x" (register a []) []).0 ≡ [])
unfolding broadcast connections gather register send_to
sends_to_all = (refl, refl)

abbrev rooms : Groups
rooms = ("r", "a" ∷ "c" ∷ []) ∷ []

group_reached :
    (group_broadcast send "r" "x" (join "b" "r" rooms) (register b (register a [])) []
      ≡ (2 ∷ 1 ∷ []))
    × (groups_for "c" (leave "a" "r" rooms) ≡ ("r" ∷ []))
    × (members "r" (leave "c" "r" rooms) ≡ ("a" ∷ []))
unfolding group_broadcast registered gather members join leave groups_for register members_or_empty
    add_id discard_id
group_reached = (refl, refl, refl)

abbrev room : String
room = "r"

abbrev alice : String
alice = "a"

abbrev bob : String
bob = "b"
