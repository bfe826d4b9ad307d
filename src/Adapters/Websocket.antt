-- ===== src/Adapters/Websocket.antt =====
-- src/mp_commons/adapters/websocket/hub.py: `ConnectionHub` and `GroupManager`. A connection is its
-- id and the object behind it. The sends of a broadcast are made one after another; what they raise
-- is dropped, and with it their results. A set of ids is a list of which the members matter.
pub mod Membership
mod Tests
use python_commons.Base.{
  ℕ, String, string_eq, ◌=?◌, Bool, true, false, not, Option, none, some, List, [], ◌∷◌, ◌++◌, any,
  if◌then◌else◌,
}
use python_commons.Dict.{Dict, lookup, insert, erase}
use python_commons.Outcome.{Outcome, returned}

pub record WebSocketConnection : Type 0 where
  pub id : String
  pub object : ℕ

abbrev pub ConnectionHub : Type 0
ConnectionHub = Dict String WebSocketConnection

unfoldable pub register : WebSocketConnection → ConnectionHub → ConnectionHub
register conn hub = insert conn.id conn hub

unfoldable pub unregister : WebSocketConnection → ConnectionHub → ConnectionHub
unregister conn hub = erase conn.id hub

unfoldable pub connections : ConnectionHub → List WebSocketConnection
connections [] = []
connections ((_, c) ∷ hub) = c ∷ connections hub

module _ {W X : Type 0} (send : ℕ → String → W → W × Outcome (Unit {0}) X) where
  -- `asyncio.gather(..., return_exceptions=True)`
  unfoldable pub gather : List WebSocketConnection → String → W → W
  gather [] payload w = w
  gather (c ∷ conns) payload w = gather conns payload (send c.object payload w).0

  unfoldable pub broadcast : String → ConnectionHub → W → W
  unfolding connections gather
  broadcast payload hub w = gather (connections hub) payload w

  unfoldable pub send_to : String → String → ConnectionHub → W → W × Outcome (Unit {0}) X
  send_to conn_id payload hub w = elim (lookup conn_id hub) [
    | none ↦ (w, returned tt)
    | some c ↦ send c.object payload w
  ]

-- `GroupManager`
abbrev pub Groups : Type 0
Groups = Dict String (List String)

pub members_or_empty : Option (List String) → List String
members_or_empty none = []
members_or_empty (some ids) = ids

-- `set.add` and `set.discard`
pub add_id : String → List String → List String
add_id id ids = if any (λ i. i =? id) ids then ids else ids ++ (id ∷ [])

pub discard_id : String → List String → List String
discard_id id [] = []
discard_id id (i ∷ ids) = let rest = discard_id id ids in if i =? id then rest else i ∷ rest

unfoldable pub members : String → Groups → List String
unfolding members_or_empty
members group_id groups = members_or_empty (lookup group_id groups)

unfoldable pub join : String → String → Groups → Groups
unfolding add_id members_or_empty
join conn_id group_id groups =
    insert group_id (add_id conn_id (members_or_empty (lookup group_id groups))) groups

unfoldable pub leave : String → String → Groups → Groups
unfolding discard_id
leave conn_id group_id groups = elim (lookup group_id groups) [
  | none ↦ groups
  | some ids ↦ insert group_id (discard_id conn_id ids) groups
]

unfoldable pub groups_for : String → Groups → List String
groups_for conn_id [] = []
groups_for conn_id ((gid, ids) ∷ groups) =
    let rest = groups_for conn_id groups in if any (λ i. i =? conn_id) ids then gid ∷ rest else rest

-- the connections of a group that are registered
unfoldable pub registered : List String → ConnectionHub → List WebSocketConnection
registered [] hub = []
registered (id ∷ ids) hub =
    let rest = registered ids hub in elim (lookup id hub) [ none ↦ rest | some c ↦ c ∷ rest ]

module _ {W X : Type 0} (send : ℕ → String → W → W × Outcome (Unit {0}) X) where
  unfoldable pub group_broadcast : String → String → Groups → ConnectionHub → W → W
  unfolding registered gather members
  group_broadcast group_id payload groups hub w =
      gather send (registered (members group_id groups) hub) payload w
