-- ===== src/Resilience/CacheAside/Tests.antt =====
-- Interleavings of calls, and the theorems there.
use python_commons.Base.{ℕ, suc, ◌≤◌, ◌≡◌, refl, none, some}
use python_commons.Resilience.CacheAside.{
  Pc, System, update, Reach, miss, lock, hit_again, load, loaded, write, return, start, later,
}
use python_commons.Resilience.CacheAside.Stampede.{loads_once, loads_bounded}

-- calls 1 and 2 have missed, and 1 is loading
abbrev waiting : System ℕ
waiting = record {
  cache = none;
  owner = some 1;
  pc =
      update (update (update (update (λ _. Pc.idle) 1 Pc.asking) 2 Pc.asking) 1 Pc.holding) 1
        Pc.loading;
}

abbrev waiting_Reach : Reach 1 0 waiting
waiting_Reach =
    later (later (later (later start (miss 1 refl refl)) (miss 2 refl refl)) (lock 1 refl refl))
      (load 1 refl refl)

-- 1 stores its value, and 2 finds it behind the lock: one loader for both.
served : (s : System ℕ) × Reach 1 0 s × (s.pc 1 ≡ Pc.done (some 9)) × (s.pc 2 ≡ Pc.done (some 9))
served = (
  _,
  later
      (later
        (later (later (later waiting_Reach (loaded 1 (some 9) refl)) (write 1 9 refl))
          (return 1 (some 9) refl))
        (lock 2 refl refl))
      (hit_again 2 9 refl refl),
  refl,
  refl,
)

loads_once_example : (◌≡◌ {A = ℕ} 1 1) × (waiting.owner ≡ some 1) × (waiting.cache ≡ none)
loads_once_example = loads_once waiting_Reach 1 1 refl refl

loads_bounded_example : 1 ≤ suc 0
loads_bounded_example = loads_bounded waiting_Reach
