-- ===== src/Adapters/Fastapi/Contexts/Hardening.antt =====
-- The headers that every response gets.
use python_commons.Base.{◌≡◌, refl, String, true, List, [], ◌∷◌, ◌++◌, map}
use python_commons.Adapters.Fastapi.{Scope, Received, Value, Message, State, App}
use python_commons.Adapters.Fastapi.Contexts.{is_served, with_headers, add_security_headers}

-- the headers as the middleware sends them
abbrev pub texts : List (String × String) → List (String × Value)
texts extra = map (λ (k, v). (k, Value.text v)) extra

-- The second message is the first, with the headers behind its own if it starts a response.
abbrev pub Extends : List (String × Value) → Message → Message → Type 0
Extends extra (Message.start status own) (Message.start status' headers) =
    (status' ≡ status) × (headers ≡ (own ++ extra))
Extends extra (Message.start status own) m = ⊥
Extends extra (Message.body b) m = m ≡ Message.body b
Extends extra Message.other m = m ≡ Message.other

abbrev pub AllExtend : List (String × Value) → List Message → List Message → Type 0
AllExtend extra [] [] = Unit
AllExtend extra [] (m ∷ ms) = ⊥
AllExtend extra (m ∷ ms) [] = ⊥
AllExtend extra (m ∷ ms) (m' ∷ ms') = Extends extra m m' × AllExtend extra ms ms'

pub with_headers-AllExtend :
    (extra : List (String × Value)) (sent : List Message)
    → AllExtend extra sent (map (with_headers extra) sent)
unfolding with_headers
with_headers-AllExtend extra [] = tt
with_headers-AllExtend extra (Message.start status own ∷ sent) =
    ((refl, refl), with_headers-AllExtend extra sent)
with_headers-AllExtend extra (Message.body b ∷ sent) = (refl, with_headers-AllExtend extra sent)
with_headers-AllExtend extra (Message.other ∷ sent) = (refl, with_headers-AllExtend extra sent)

module _ {P X W : Type 0} (app : App P X W) where
  -- Whatever the application is, other middlewares and their refusals included, every start of a
  -- response over HTTP or a websocket has the security headers behind its own; nothing else of what
  -- is sent changes, nor does the state or the end.
  pub add_security_headers-AllExtend :
      (extra : List (String × String)) (scope : Scope) (received : List Received) (s : State P W)
      → is_served scope.type ≡ true
      → AllExtend
          (texts extra)
          (app scope received s).sent
          (add_security_headers extra app scope received s).sent
        × ((add_security_headers extra app scope received s).state ≡ (app scope received s).state)
        × ((add_security_headers extra app scope received s).ended ≡ (app scope received s).ended)
  unfolding add_security_headers
  add_security_headers-AllExtend extra scope received s served =
      let r = app scope received s in
      (
        rw (served, add_security_headers) (with_headers-AllExtend (texts extra) r.sent),
        rw (served, add_security_headers),
        rw (served, add_security_headers),
      )
