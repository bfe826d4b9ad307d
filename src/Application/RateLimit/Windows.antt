-- ===== src/Application/RateLimit/Windows.antt =====
-- How many requests the limiter lets through.
use Prim.Native.String.{◌++◌}
use text.Mathlib.TextLemmas.{append_assoc}
use python_commons.Base.{
  ℕ, zero, suc, ◌+◌, ◌-◌, ◌*◌, ◌≤◌, ◌<◌, ◌≡◌, ◌⊎◌, subst, refl, ap, sym, ◌∙◌, String, string_eq,
  Bool, true, false, some, List, [], ◌∷◌, arith, inl, inr, ltb, if◌then◌else◌, length, min,
}
use python_commons.Dict.{lookup, lookup-insert_self}
use python_commons.Application.RateLimit.{
  Quota, Window, Buckets, bucket_key, window, current, decide, counted, check, is_allowed,
}

lt_or_le : (m n : ℕ) → (m < n) ⊎ (n ≤ m)
lt_or_le m n = omega arith

-- The times never go back, from the first time on, and end at the second time or before.
abbrev pub IsOrdered : ℕ → ℕ → List ℕ → Type 0
IsOrdered t until [] = t ≤ until
IsOrdered t until (now ∷ ts) = (t ≤ now) × IsOrdered now until ts

ordered_le : (t until : ℕ) (ts : List ℕ) → IsOrdered t until ts → t ≤ until
ordered_le t until [] o = o
ordered_le t until (now ∷ ts) o = omega (arith, o.0, ordered_le now until ts o.1)

earlier-IsOrdered :
    (s t until : ℕ) (ts : List ℕ) → s ≤ t → IsOrdered t until ts → IsOrdered s until ts
earlier-IsOrdered s t until [] l o = omega (arith, l, o)
earlier-IsOrdered s t until (now ∷ ts) l o = (omega (arith, l, o.0), o.1)

-- How many of the checks at these times are allowed, and the buckets after them.
unfoldable pub checks : Quota → String → List ℕ → Buckets → ℕ × Buckets
checks quota i [] buckets = (0, buckets)
checks quota i (now ∷ ts) buckets =
    let (buckets', result) = check quota i now buckets in
    let (total, final) = checks quota i ts buckets' in
    ((if is_allowed result then 1 else 0) + total, final)

-- a window that lasts, and one that has expired
within :
    (quota : Quota) (now count start : ℕ)
    → now < start + quota.window_seconds
    → start ≤ now
    → current quota now (count, start) ≡ (count, start)
unfolding current
within quota now count start l o = ground arith

expired :
    (quota : Quota) (now count start : ℕ)
    → start + quota.window_seconds ≤ now
    → current quota now (count, start) ≡ (0, now)
unfolding current
expired quota now count start l = ground arith

-- What a check of a key whose window is known does, by the window that it finds current.
abbrev Checked : Quota → String → ℕ → Buckets → Window → Bool → Type 0
Checked quota i now buckets w passed =
    (is_allowed (check quota i now buckets).1 ≡ passed)
    × (lookup (bucket_key quota i) (check quota i now buckets).0 ≡ some w)

check-window :
    (quota : Quota) (i : String) (now : ℕ) (buckets : Buckets) (w v w' : Window) (passed : Bool)
    → lookup (bucket_key quota i) buckets ≡ some w
    → current quota now w ≡ v
    → (is_allowed (decide quota v) ≡ passed)
      × (lookup (bucket_key quota i) (counted quota (bucket_key quota i) v buckets) ≡ some w')
    → Checked quota i now buckets w' passed
unfolding check window
check-window quota i now buckets w v w' passed e h t =
    let found : window (bucket_key quota i) now buckets ≡ w = rw (window, e) refl in
    subst
      (λ x.
        (is_allowed (decide quota x) ≡ passed)
        × (lookup (bucket_key quota i) (counted quota (bucket_key quota i) x buckets) ≡ some w'))
      (sym (ap (current quota now) found ∙ h)) t

check_below :
    (quota : Quota) (i : String) (now c s : ℕ) (buckets : Buckets) (w : Window)
    → lookup (bucket_key quota i) buckets ≡ some w
    → current quota now w ≡ (c, s)
    → c < quota.limit
    → Checked quota i now buckets (c + 1, s) true
unfolding decide is_allowed counted
check_below quota i now c s buckets w e h l =
    let below : ltb c quota.limit ≡ true = ground arith in
    check-window quota i now buckets w (c, s) (c + 1, s) true e h
      (rw below (refl, lookup-insert_self (bucket_key quota i) (c + 1, s) buckets))

check_full :
    (quota : Quota) (i : String) (now c s : ℕ) (buckets : Buckets) (w : Window)
    → lookup (bucket_key quota i) buckets ≡ some w
    → current quota now w ≡ (c, s)
    → quota.limit ≤ c
    → Checked quota i now buckets w false
unfolding decide is_allowed counted
check_full quota i now c s buckets w e h l =
    let full : ltb c quota.limit ≡ false = ground arith in
    check-window quota i now buckets w (c, s) w false e h (rw full (refl, e))

-- While its window lasts, the checks of a key, in order of time, are allowed until the limit is
-- reached, if the count of the window was not above it.
pub window_exact :
    (quota : Quota) (i : String) (ts : List ℕ) (count start until : ℕ) (buckets : Buckets)
    → IsOrdered start until ts
    → until < start + quota.window_seconds
    → count ≤ quota.limit
    → lookup (bucket_key quota i) buckets ≡ some (count, start)
    → (checks quota i ts buckets).0 ≡ min (length ts) (quota.limit - count)
unfolding checks
window_exact quota i [] count start until buckets o l c e = omega arith
window_exact quota i (now ∷ ts) count start until buckets o l c e =
    let o' = earlier-IsOrdered start now until ts o.0 o.1 in
    let u = ordered_le now until ts o.1 in
    let same = within quota now count start (omega (arith, u, l)) o.0 in
    elim (lt_or_le count quota.limit) [
      | inl below ↦
          let (ok, e') = check_below quota i now count start buckets (count, start) e same below in
          let rest =
            window_exact quota i ts (count + 1) start until (check quota i now buckets).0 o' l
              (omega arith) e' in
          rw ok (omega arith)
      | inr full ↦
          let (ok, e') = check_full quota i now count start buckets (count, start) e same full in
          let rest =
            window_exact quota i ts count start until (check quota i now buckets).0 o' l c e' in
          rw ok (omega arith)
    ]

-- Over any ordered checks of a key that end within `n` times `window_seconds` of the start of
-- its window, at most `n` times `limit` are allowed, those counted before included, if the
-- window had counted no more than `limit`.
pub checks_bounded :
    (quota : Quota) (i : String) (ts : List ℕ) (n count start until : ℕ) (buckets : Buckets)
    → IsOrdered start until ts
    → until < start + n * quota.window_seconds
    → count ≤ quota.limit
    → lookup (bucket_key quota i) buckets ≡ some (count, start)
    → (checks quota i ts buckets).0 + count ≤ n * quota.limit
unfolding checks
checks_bounded quota i ts zero count start until buckets o l c e =
    absurd (omega (arith, ordered_le start until ts o, l))
checks_bounded quota i [] (suc n) count start until buckets o l c e = omega (arith, c)
checks_bounded quota i (now ∷ ts) (suc n) count start until buckets o l c e =
    let o' = earlier-IsOrdered start now until ts o.0 o.1 in
    let next = (check quota i now buckets).0 in
    elim (lt_or_le now (start + quota.window_seconds)) [
      | inl lasts ↦
          let same = within quota now count start lasts o.0 in
          elim (lt_or_le count quota.limit) [
            | inl below ↦
                let (ok, e') =
                  check_below quota i now count start buckets (count, start) e same below in
                let rest =
                  checks_bounded quota i ts (suc n) (count + 1) start until next o' l (omega arith)
                    e' in
                rw ok (omega arith)
            | inr full ↦
                let (ok, e') =
                  check_full quota i now count start buckets (count, start) e same full in
                let rest = checks_bounded quota i ts (suc n) count start until next o' l c e' in
                rw ok (omega arith)
          ]
      | inr over ↦
          let fresh = expired quota now count start over in
          elim (lt_or_le 0 quota.limit) [
            | inl below ↦
                let (ok, e') = check_below quota i now 0 now buckets (count, start) e fresh below in
                let rest =
                  checks_bounded quota i ts n 1 now until next o.1 (omega arith) (omega arith) e' in
                rw ok (omega arith)
            | inr full ↦
                let (ok, e') = check_full quota i now 0 now buckets (count, start) e fresh full in
                let rest = checks_bounded quota i ts (suc n) count start until next o' l c e' in
                rw ok (omega arith)
          ]
    ]

-- The bucket of a quota key with a `:` in it is also that of another quota key and identifier.
pub bucket_key_shared :
    (a b c : String) (limit seconds limit' seconds' : ℕ)
    → bucket_key (record { key = a ++ (":" ++ b); limit = limit; window_seconds = seconds }) c
      ≡ bucket_key (record { key = a; limit = limit'; window_seconds = seconds' }) (b ++ (":" ++ c))
unfolding bucket_key
bucket_key_shared a b c limit seconds limit' seconds' =
    append_assoc a (":" ++ b) (":" ++ c)
    ∙ ap (λ (s : String). a ++ s) (append_assoc ":" b (":" ++ c))
