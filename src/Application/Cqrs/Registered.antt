-- ===== src/Application/Cqrs/Registered.antt =====
-- Which handlers a bus calls.
use mathlib.Core.List.{append-nil, append_assoc}
use python_commons.Base.{
  ◌≡◌, refl, ap, ◌∙◌, sym, String, string_eq, ◌=?◌, Option, none, some, List, [], ◌∷◌, ◌++◌,
  if◌then◌else◌, arith, Bool, true, false,
}
use python_commons.Dict.{Dict, lookup, insert, lookup-insert}
use python_commons.Outcome.{raised}
use python_commons.Application.Pipeline.{Request, no_handler, Handler, Middleware}
use python_commons.Application.Pipeline.Chain.{nested, execute-nested}
use python_commons.Application.Cqrs.{
  Handlers, register, handle, dispatch, handle_through, dispatch_through, register_all, make_bus,
  subscribers, subscribe, publish,
}

-- the last of the registrations of a type, or else the given one
abbrev pub last_of : {H : Type 0} → String → List (String × H) → Option H → Option H
last_of t [] o = o
last_of t ((s, h) ∷ rest) o = last_of t rest (if s =? t then some h else o)

module _ {P R B X W : Type 0} where
  lookup-register_all :
      (t : String) (rs hs : Handlers P R B X W)
      → lookup t (register_all rs hs) ≡ last_of t rs (lookup t hs)
  unfolding register_all register
  lookup-register_all t [] hs = refl
  lookup-register_all t ((s, h) ∷ rs) hs =
      lookup-register_all t rs (insert s h hs) ∙ ap (last_of t rs) (lookup-insert s t h hs)

  lookup-make_bus :
      (t : String) (registry extra : Handlers P R B X W)
      → lookup t (make_bus registry (some extra)) ≡ last_of t extra (last_of t registry none)
  unfolding make_bus
  lookup-make_bus t registry extra =
      lookup-register_all t extra (register_all registry [])
      ∙ ap (last_of t extra) (lookup-register_all t registry [])

  -- what a pipeline makes of the handler that was found
  pub answer : List (Middleware P R B X W) → Option (Handler P R B X W) → Handler P R B X W
  answer ms none q w = (w, raised (no_handler q.name))
  answer ms (some h) q w = nested ms h q w

  handle_through-answer :
      (ms : List (Middleware P R B X W)) (o : Option (Handler P R B X W)) (q : Request P) (w : W)
      → handle_through ms o q w ≡ answer ms o q w
  unfolding handle_through answer
  handle_through-answer ms none q w = refl
  handle_through-answer ms (some h) q w = execute-nested ms q h w

  -- A bus made from a registry and extra handlers dispatches a request to the last extra handler
  -- of its type, to the last one of the registry if there is none, and raises KeyError without
  -- any other effect if there is none either; through a pipeline the chosen handler runs inside
  -- the middlewares in their order, none of which runs for the KeyError.
  pub dispatch_through-make_bus :
      (ms : List (Middleware P R B X W)) (registry extra : Handlers P R B X W) (q : Request P)
      (w : W)
      → (dispatch (make_bus registry (some extra)) q w
          ≡ handle (last_of q.name extra (last_of q.name registry none)) q w)
        × (dispatch_through ms (make_bus registry (some extra)) q w
            ≡ answer ms (last_of q.name extra (last_of q.name registry none)) q w)
  unfolding make_bus dispatch dispatch_through
  dispatch_through-make_bus ms registry extra q w =
      let found = lookup-make_bus q.name registry extra in
      (
        ap (λ o. handle o q w) found,
        ap (λ o. handle_through ms o q w) found ∙ handle_through-answer ms _ q w,
      )

module _ {H : Type 0} where
  -- the subscriptions of a type, in order
  abbrev pub subscribed : String → List (String × H) → List H
  subscribed t [] = []
  subscribed t ((s, h) ∷ rest) = if s =? t then h ∷ subscribed t rest else subscribed t rest

  if-append :
      (b : Bool) (h : H) (hs : List H)
      → ((if b then h ∷ [] else []) ++ hs) ≡ (if b then h ∷ hs else hs)
  if-append true h hs = refl
  if-append false h hs = refl

  -- the bus after some registrations
  abbrev pub subscribe_all : List (String × H) → Dict String (List H) → Dict String (List H)
  subscribe_all [] handlers = handlers
  subscribe_all ((t, h) ∷ rest) handlers = subscribe_all rest (subscribe t h handlers)

  publish-subscribe :
      (s t : String) (h : H) (handlers : Dict String (List H))
      → publish t (subscribe s h handlers) ≡ (publish t handlers ++ (if s =? t then h ∷ [] else []))
  unfolding publish subscribe
  publish-subscribe s t h handlers = ground (
    arith,
    lookup-insert s t (subscribers (lookup s handlers) ++ (h ∷ [])) handlers,
    string_eq.beq_iff s t,
    append-nil (subscribers (lookup t handlers)),
  )

  -- After any registrations an event goes to all handlers of its type, those from before first, in
  -- the order of their registration.
  pub publish-subscribe_all :
      (t : String) (rs : List (String × H)) (handlers : Dict String (List H))
      → publish t (subscribe_all rs handlers) ≡ (publish t handlers ++ subscribed t rs)
  publish-subscribe_all t [] handlers = sym (append-nil (publish t handlers))
  publish-subscribe_all t ((s, h) ∷ rs) handlers =
      publish-subscribe_all t rs (subscribe s h handlers)
      ∙ ap (λ xs. xs ++ subscribed t rs) (publish-subscribe s t h handlers)
      ∙ append_assoc (publish t handlers) (if s =? t then h ∷ [] else []) (subscribed t rs)
      ∙ ap (λ xs. publish t handlers ++ xs) (if-append (s =? t) h (subscribed t rs))
