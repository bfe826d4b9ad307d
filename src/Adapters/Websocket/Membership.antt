-- ===== src/Adapters/Websocket/Membership.antt =====
-- Who is in the hub and in the groups.
use python_commons.Base.{
  ◌≡◌, refl, sym, ap, ◌∙◌, subst, String, string_eq, ◌=?◌, Bool, true, false, not, ◌&&◌, ◌||◌,
  Bool-cases, Option, none, some, List, [], ◌∷◌, any, any-append, arith, inl, inr,
}
use python_commons.Dict.{
  lookup, insert, erase, IsUnique, lookup-insert, insert-IsUnique, lookup-erase_self,
}
use python_commons.Adapters.Websocket.{
  WebSocketConnection, ConnectionHub, register, unregister, Groups, members_or_empty, add_id,
  discard_id, members, join, leave,
}

-- In a hub with no id twice: a client that has come back with its id is not registered any more,
-- and cannot be sent to, once its old connection is unregistered.
pub unregister-register :
    (old back : WebSocketConnection) (hub : ConnectionHub)
    → IsUnique hub
    → back.id ≡ old.id
    → lookup back.id (unregister old (register back (register old hub))) ≡ none
unfolding register unregister
unregister-register old back hub u e =
    let hub' = insert back.id back (insert old.id old hub) in
    let unique =
      insert-IsUnique back.id back (insert old.id old hub) (insert-IsUnique old.id old hub u) in
    ap (λ i. lookup i (erase old.id hub')) e ∙ lookup-erase_self old.id hub' unique

-- the test for a member
abbrev pub is_member : String → List String → Bool
is_member id ids = any (λ i. i =? id) ids

is_member-add_id :
    (id c : String) (ids : List String)
    → is_member id (add_id c ids) ≡ (is_member id ids || (c =? id))
unfolding add_id
is_member-add_id id c ids = elim (Bool-cases (is_member c ids)) [
  | inl e ↦ rw e (elim (Bool-cases (c =? id)) [
    | inl f ↦
        let m = subst (λ j. is_member j ids ≡ true) ((string_eq.beq_iff c id).0 f) e in
        ground (arith, m, f)
    | inr f ↦ ground (arith, f)
  ])
  | inr e ↦ rw e (any-append (λ i. i =? id) ids (c ∷ []) ∙ ground arith)
]

is_member-discard_id :
    (id c : String) (ids : List String)
    → is_member id (discard_id c ids) ≡ (is_member id ids && not (c =? id))
unfolding discard_id
is_member-discard_id id c [] = refl
is_member-discard_id id c (i ∷ ids) = ground (
  arith,
  is_member-discard_id id c ids,
  string_eq.beq_iff i c,
  string_eq.beq_iff c id,
  string_eq.beq_iff i id,
)

members-join :
    (id c g g' : String) (groups : Groups)
    → is_member id (members g' (join c g groups))
      ≡ (is_member id (members g' groups) || ((g =? g') && (c =? id)))
unfolding members join members_or_empty
members-join id c g g' groups =
    ap (λ o. is_member id (members_or_empty o))
      (lookup-insert g g' (add_id c (members_or_empty (lookup g groups))) groups)
    ∙ elim (Bool-cases (g =? g')) [
      | inl f ↦ rw f (
          is_member-add_id id c (members_or_empty (lookup g groups))
          ∙ ap (λ j. is_member id (members_or_empty (lookup j groups)) || (c =? id))
              ((string_eq.beq_iff g g').0 f))
      | inr f ↦ rw f (ground arith)
    ]

leave_missing :
    (c g : String) (groups : Groups) → lookup g groups ≡ none → leave c g groups ≡ groups
unfolding leave
leave_missing c g groups e = rw (e, leave)

leave_present :
    (c g : String) (groups : Groups) (ids : List String)
    → lookup g groups ≡ some ids
    → leave c g groups ≡ insert g (discard_id c ids) groups
unfolding leave
leave_present c g groups ids e = rw (e, leave)

-- the members behind a leave, by what the group was
left_members :
    (id c g g' : String) (groups : Groups) (o : Option (List String))
    → lookup g groups ≡ o
    → is_member id (members g' (leave c g groups))
      ≡ (is_member id (members g' groups) && not ((g =? g') && (c =? id)))
unfolding members members_or_empty
left_members id c g g' groups none e =
    ap (λ d. is_member id (members g' d)) (leave_missing c g groups e)
    ∙ elim (Bool-cases (g =? g')) [
      | inl f ↦
          let gone =
            subst (λ j. is_member id (members j groups) ≡ false) ((string_eq.beq_iff g g').0 f)
              (ap (λ o. is_member id (members_or_empty o)) e) in
          ground (arith, gone)
      | inr f ↦ rw f (ground arith)
    ]
left_members id c g g' groups (some ids) e =
    ap (λ d. is_member id (members g' d)) (leave_present c g groups ids e)
    ∙ ap (λ o. is_member id (members_or_empty o)) (lookup-insert g g' (discard_id c ids) groups)
    ∙ elim (Bool-cases (g =? g')) [
      | inl f ↦
          let same =
            subst (λ j. is_member id (members j groups) ≡ is_member id ids)
              ((string_eq.beq_iff g g').0 f) (ap (λ o. is_member id (members_or_empty o)) e) in
          rw f (is_member-discard_id id c ids ∙ ap (λ b. b && not (c =? id)) (sym same))
      | inr f ↦ rw f (ground arith)
    ]

-- After a join a connection is a member of a group exactly if it was or is the one that has joined
-- that group; after a leave, exactly if it was and is not the one that has left that group.
pub members-join-leave :
    (id c g g' : String) (groups : Groups)
    → (is_member id (members g' (join c g groups))
        ≡ (is_member id (members g' groups) || ((g =? g') && (c =? id))))
      × (is_member id (members g' (leave c g groups))
          ≡ (is_member id (members g' groups) && not ((g =? g') && (c =? id))))
members-join-leave id c g g' groups =
    (members-join id c g g' groups, left_members id c g g' groups (lookup g groups) refl)
