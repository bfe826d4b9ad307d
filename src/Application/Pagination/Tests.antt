-- ===== src/Application/Pagination/Tests.antt =====
-- Pages of concrete lists, and the theorems there.
use python_commons.Base.{ℕ, ◌≡◌, refl, true, none, List, [], ◌∷◌}
use python_commons.Application.Pagination.{PageRequest, post_init, offset, slice, has_previous, of}

abbrev items : List ℕ
items = 1 ∷ 2 ∷ 3 ∷ 4 ∷ 5 ∷ []

abbrev second : PageRequest
second = record { page = 2; size = 2 }

of_runs : (of items second).items ≡ 3 ∷ 4 ∷ []
unfolding of offset slice
of_runs = refl

post_init_refuses : post_init (record { page = 1; size = 1001 }) ≡ none
unfolding post_init
post_init_refuses = refl

has_previous_runs : has_previous (of items second) ≡ true
unfolding of has_previous
has_previous_runs = refl
