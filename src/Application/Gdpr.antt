-- ===== src/Application/Gdpr.antt =====
-- src/mp_commons/application/gdpr/erasure.py: `ErasureService` and `InMemoryConsentStore`. A handler is what it does to the world, of one subject; `str` is what
-- `str` makes of an exception. Ids and times of the records are left out.
pub mod Erasure
mod Tests
use Prim.Native.String.{◌++◌ as string_append}
use python_commons.Base.{
  ℕ, String, string_eq, ◌=?◌, Bool, true, false, Option, none, some, List, [], ◌∷◌, ◌++◌,
  if◌then◌else◌,
}
use python_commons.Dict.{Dict, lookup, insert}
use python_commons.Outcome.{Outcome, returned, raised, cancelled}

pub record ErasureResult : Type 0 where
  pub scope : String
  pub success : Bool
  pub detail : Option String

pub record DataErasedEvent : Type 0 where
  pub subject_id : String
  pub results : List ErasureResult

pub record Erasable (W X : Type 0) : Type 0 where
  pub scope : String
  pub erase : String → W → W × Outcome ErasureResult X

module _ {W X : Type 0} (str : X → String) where
  -- the `try` around a handler; `none` is a cancellation
  reported : Erasable W X → Outcome ErasureResult X → Option ErasureResult
  reported h (returned r) = some r
  reported h (raised x) = some (record { scope = h.scope; success = false; detail = some (str x) })
  reported h cancelled = none

module _ {W : Type 0} where
  -- the rest of the loop, unless it is cancelled
  cons_report :
      W → Option ErasureResult → W × Option (List ErasureResult) → W × Option (List ErasureResult)
  cons_report w none rest = (w, none)
  cons_report w (some r) (w', none) = (w', none)
  cons_report w (some r) (w', some rs) = (w', some (r ∷ rs))

  -- the events of the service with the new one, unless the erasure was cancelled
  logged :
      String → W × Option (List ErasureResult) → List DataErasedEvent → W × List DataErasedEvent
  logged subject_id (w, none) events = (w, events)
  logged subject_id (w, some rs) events =
      (w, events ++ (record { subject_id = subject_id; results = rs } ∷ []))

module _ {W X : Type 0} (str : X → String) where
  -- the loop of `erase`
  unfoldable pub erase_loop : List (Erasable W X) → String → W → W × Option (List ErasureResult)
  unfolding reported cons_report
  erase_loop [] subject_id w = (w, some [])
  erase_loop (h ∷ hs) subject_id w =
      let (w', o) = h.erase subject_id w in
      cons_report w' (reported str h o) (erase_loop hs subject_id w')

  -- `erase`
  unfoldable pub erase :
      List (Erasable W X) → String → List DataErasedEvent → W → W × List DataErasedEvent
  unfolding logged
  erase handlers subject_id events w = logged subject_id (erase_loop handlers subject_id w) events

pub record ConsentRecord : Type 0 where
  pub subject_id : String
  pub purpose : String
  pub granted : Bool

unfoldable pub withdraw : ConsentRecord → ConsentRecord
withdraw r = record r { granted = false }

unfoldable pub consent_key : String → String → String
consent_key subject_id purpose = string_append subject_id (string_append ":" purpose)

unfoldable pub save : ConsentRecord → Dict String ConsentRecord → Dict String ConsentRecord
save r records = insert (consent_key r.subject_id r.purpose) r records

unfoldable pub find : String → String → Dict String ConsentRecord → Option ConsentRecord
find subject_id purpose records = lookup (consent_key subject_id purpose) records

unfoldable pub list_for_subject : String → Dict String ConsentRecord → List ConsentRecord
list_for_subject subject_id [] = []
list_for_subject subject_id ((_, r) ∷ records) =
    let rest = list_for_subject subject_id records in
    if r.subject_id =? subject_id then r ∷ rest else rest
