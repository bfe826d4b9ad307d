-- ===== src/Resilience/CacheAside/Stampede.antt =====
-- One loader at a time, and no more loaders than the key has lost values.
use mathlib.Core.Bool.{false≢true}
use python_commons.Base.{
  ℕ, suc, ◌+◌, ◌≤◌, ◌==◌, ◌≡◌, refl, sym, ap, ◌∙◌, Bool, ◌||◌, true, false, inl, inr, Option, none,
  some, if◌then◌else◌, arith, Bool-cases, ==_iff,
}
use python_commons.Resilience.CacheAside.{
  Pc, System, update, Step, Reach, hit, miss, lock, hit_again, load, loaded, fail, drop, get_fails,
  lock_cancelled, get_again_fails, write, write_none, set_fails, set_fails_late, return, start,
  later,
}

module _ {V : Type 0} where
  -- the loader runs, or its value is not written yet
  abbrev pub is_loading : Pc V → Bool
  is_loading Pc.loading = true
  is_loading (Pc.storing _) = true
  is_loading _ = false

  -- behind the lock
  abbrev pub is_inside : Pc V → Bool
  is_inside Pc.holding = true
  is_inside (Pc.stored _) = true
  is_inside p = is_loading p

  abbrev pub has_value : Option V → Bool
  has_value none = false
  has_value (some _) = true

  -- the owner of the lock is loading
  abbrev pub busy : Option ℕ → (ℕ → Pc V) → Bool
  busy none pc = false
  busy (some i) pc = is_loading (pc i)

  -- one loader may be ahead: for the value that is there, or that is being loaded
  abbrev pub slack : System V → ℕ
  slack s = if has_value s.cache || busy s.owner s.pc then 1 else 0

  pub record Inv (m n : ℕ) (s : System V) : Type 0 where
    pub owned : (i : ℕ) → is_inside (s.pc i) ≡ true → s.owner ≡ some i
    pub absent : (i : ℕ) → is_loading (s.pc i) ≡ true → s.cache ≡ none
    pub counted : m ≤ n + slack s

  slack_le : (s : System V) → slack s ≤ 1
  slack_le s = elim (Bool-cases (has_value s.cache || busy s.owner s.pc)) [
    | inl e ↦ rw e (omega arith)
    | inr e ↦ rw e (omega arith)
  ]

  same-update :
      (f : Pc V → Bool) (pc : ℕ → Pc V) (i : ℕ) (p : Pc V) (j : ℕ)
      → f (pc i) ≡ f p
      → f (update pc i p j) ≡ f (pc j)
  same-update f pc i p j h = elim (Bool-cases (i == j)) [
    | inl e ↦ rw e (sym h ∙ ap (λ k. f (pc k)) ((==_iff i j).0 e))
    | inr e ↦ rw e refl
  ]

  busy-update :
      (o : Option ℕ) (pc : ℕ → Pc V) (i : ℕ) (p : Pc V)
      → is_loading (pc i) ≡ is_loading p
      → busy o (update pc i p) ≡ busy o pc
  busy-update none pc i p h = refl
  busy-update (some j) pc i p h = same-update is_loading pc i p j h

  -- a move that leaves the cache and the lock, and loads no more than before
  stays :
      {m n : ℕ} {s : System V} (i : ℕ) (p : Pc V)
      → Inv m n s
      → is_loading (s.pc i) ≡ is_loading p
      → is_inside (s.pc i) ≡ is_inside p
      → Inv (m + 0) (n + 0) (record s { pc = update s.pc i p })
  stays {m} {n} {s} i p v same inside = record {
    owned = λ j h. v.owned j (sym (same-update is_inside s.pc i p j inside) ∙ h);
    absent = λ j h. v.absent j (sym (same-update is_loading s.pc i p j same) ∙ h);
    counted = rw (busy-update s.owner s.pc i p same) (omega (arith, v.counted));
  }

  Step-Inv : {m n k l : ℕ} {s t : System V} → Inv m n s → Step s k l t → Inv (m + k) (n + l) t
  Step-Inv v (hit i a p c) = stays i _ v (ap is_loading p) (ap is_inside p)
  Step-Inv v (miss i p c) = stays i _ v (ap is_loading p) (ap is_inside p)
  Step-Inv v (loaded i a p) = stays i _ v (ap is_loading p) (ap is_inside p)
  Step-Inv {s = s} v (lock i p o) = record {
    owned = λ j h. ground (arith, v.owned j, h, o);
    absent = λ j h. ground (arith, v.absent j, h);
    counted = ground (arith, v.counted, o);
  }
  Step-Inv {s = s} v (hit_again i a p c) = record {
    owned = λ j h. ground (arith, v.owned j, v.owned i, h, p);
    absent = λ j h. ground (arith, v.absent j, h);
    counted = ground (arith, v.counted, slack_le s, c);
  }
  Step-Inv {s = s} v (load i p c) = record {
    owned = λ j h. ground (arith, v.owned j, v.owned i, h, p);
    absent = λ j h. ground (arith, v.absent j, h, c);
    counted = ground (arith, v.counted, v.owned i, c, p);
  }
  Step-Inv {s = s} v (fail i p) = record {
    owned = λ j h. ground (arith, v.owned j, v.owned i, h, p);
    absent = λ j h. ground (arith, v.absent j, h);
    counted = ground (arith, v.counted, slack_le s);
  }
  Step-Inv v (get_fails i p) = stays i _ v (ap is_loading p) (ap is_inside p)
  Step-Inv v (lock_cancelled i p) = stays i _ v (ap is_loading p) (ap is_inside p)
  Step-Inv {s = s} v (get_again_fails i p) = record {
    owned = λ j h. ground (arith, v.owned j, v.owned i, h, p);
    absent = λ j h. ground (arith, v.absent j, h);
    counted = ground (arith, v.counted, v.owned i, p);
  }
  Step-Inv {s = s} v (write i a p) = record {
    owned = λ j h. ground (arith, v.owned j, v.owned i, h, p);
    absent = λ j h. ground (arith, v.owned j, v.owned i, h, p);
    counted = omega (arith, v.counted, slack_le s);
  }
  Step-Inv {s = s} v (write_none i p) = record {
    owned = λ j h. ground (arith, v.owned j, v.owned i, h, p);
    absent = λ j h. refl;
    counted = omega (arith, v.counted, slack_le s);
  }
  Step-Inv {s = s} v (set_fails i a p) = record {
    owned = λ j h. ground (arith, v.owned j, v.owned i, h, p);
    absent = λ j h. ground (arith, v.absent j, h);
    counted = ground (arith, v.counted, slack_le s);
  }
  Step-Inv {s = s} v (set_fails_late i a p) = record {
    owned = λ j h. ground (arith, v.owned j, v.owned i, h, p);
    absent = λ j h. ground (arith, v.absent j, h);
    counted = ground (arith, v.counted, v.owned i, p);
  }
  Step-Inv {s = s} v (return i a p) = record {
    owned = λ j h. ground (arith, v.owned j, v.owned i, h, p);
    absent = λ j h. ground (arith, v.absent j, h);
    counted = ground (arith, v.counted, v.owned i, p);
  }
  Step-Inv {s = s} v drop = record {
    owned = v.owned;
    absent = λ j h. refl;
    counted = omega (arith, v.counted, slack_le s);
  }

  is_loading-is_inside : (p : Pc V) → is_loading p ≡ true → is_inside p ≡ true
  is_loading-is_inside p h = ground arith

  Reach-Inv : {m n : ℕ} {s : System V} → Reach m n s → Inv m n s
  Reach-Inv start = record {
    owned = λ i h. absurd (false≢true h);
    absent = λ i h. refl;
    counted = omega arith;
  }
  Reach-Inv (later r st) = Step-Inv (Reach-Inv r) st

  -- In every reachable state at most one call has its loader running or its value not written yet;
  -- it holds the lock, and the cache is empty meanwhile.
  pub loads_once :
      {m n : ℕ} {s : System V} (r : Reach m n s) (i j : ℕ)
      → is_loading (s.pc i) ≡ true
      → is_loading (s.pc j) ≡ true
      → (i ≡ j) × (s.owner ≡ some i) × (s.cache ≡ none)
  loads_once {s = s} r i j h k =
      let v = Reach-Inv r in
      let a = v.owned i (is_loading-is_inside (s.pc i) h) in
      let b = v.owned j (is_loading-is_inside (s.pc j) k) in (cc (a, b), a, v.absent i h)

  -- However calls of a key interleave, at most one loader more was started than the times that
  -- the key was left without a value: its entry was dropped, a loader failed or returned None, or a
  -- `set` failed before it had written.
  pub loads_bounded : {m n : ℕ} {s : System V} → Reach m n s → m ≤ suc n
  loads_bounded {s = s} r = omega (arith, (Reach-Inv r).counted, slack_le s)
