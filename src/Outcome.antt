-- ===== src/Outcome.antt =====
-- How an awaited callable ends, wherever the library awaits one.

-- `cancelled` stands for the exceptions outside `Exception`, such as `asyncio.CancelledError`,
-- which an `except Exception` lets pass.
pub data Outcome {ℓ κ} (T : Type ℓ) (E : Type κ) : Type (ℓ ⊔ κ) where
  returned : T → Outcome T E
  raised : E → Outcome T E
  cancelled : Outcome T E
