-- ===== src/Ingestion/Event.antt =====
-- The events of stream_processor/ingestion/ingestion.go, over the type of their amounts.
use distributed_fraud_detect.Prelude.{ℕ, ℤ}
use distributed_fraud_detect.Text.{Text}

pub record Event (A : Type 0) : Type 0 where
  pub id : Text
  pub entity_id : Text
  pub amount : A
  pub occurred_at : ℕ
  pub partition : ℤ
  pub offset : ℤ
