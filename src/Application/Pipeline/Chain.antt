-- ===== src/Application/Pipeline/Chain.antt =====
-- Pipeline.execute against the nesting of calls.
use python_commons.Base.{◌≡◌, refl, sym, ap, ◌∙◌, List, [], ◌∷◌, ◌++◌}
use python_commons.Application.Pipeline.{Request, Handler, Middleware, add, wrap, wrap_all, execute}
use mathlib.Core.List.{reverse_aux}

-- what the chain is to be: the first middleware around the rest
abbrev pub nested :
    {P R B X W : Type 0} → List (Middleware P R B X W) → Handler P R B X W → Handler P R B X W
nested [] handler = handler
nested (m ∷ ms) handler = λ q. m q (nested ms handler)

module _ {P R B X W : Type 0} where
  wrap_all-reverse_aux :
      (ms ns : List (Middleware P R B X W)) (handler : Handler P R B X W)
      → wrap_all (reverse_aux ms ns) handler ≡ wrap_all ns (nested ms handler)
  unfolding wrap_all wrap
  wrap_all-reverse_aux [] ns handler = refl
  wrap_all-reverse_aux (m ∷ ms) ns handler = wrap_all-reverse_aux ms (m ∷ ns) handler

  -- Executing a pipeline runs each middleware around the rest of the chain in the order in which
  -- they were added, with the handler innermost.
  pub execute-nested :
      (ms : List (Middleware P R B X W)) (q : Request P) (handler : Handler P R B X W) (w : W)
      → execute ms q handler w ≡ nested ms handler q w
  unfolding execute wrap_all
  execute-nested ms q handler w = ap (λ h. h q w) (wrap_all-reverse_aux ms [] handler)

  pub nested-append :
      (ms ns : List (Middleware P R B X W)) (handler : Handler P R B X W)
      → nested (ms ++ ns) handler ≡ nested ms (nested ns handler)
  nested-append [] ns handler = refl
  nested-append (m ∷ ms) ns handler = ap (λ h q. m q h) (nested-append ms ns handler)

  -- adding a middleware puts it directly around the handler
  pub execute-add :
      (m : Middleware P R B X W) (ms : List (Middleware P R B X W)) (q : Request P)
      → (handler : Handler P R B X W) (w : W)
      → execute (add m ms) q handler w ≡ execute ms q (λ r. m r handler) w
  unfolding add execute
  execute-add m ms q handler w =
      execute-nested (ms ++ (m ∷ [])) q handler w
      ∙ ap (λ h. h q w) (nested-append ms (m ∷ []) handler)
      ∙ sym (execute-nested ms q (λ r. m r handler) w)
