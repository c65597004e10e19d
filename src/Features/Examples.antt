-- ===== src/Features/Examples.antt =====
-- Features of one account through Redis, with numbers as ticks; the largest one is 1000.
use distributed_fraud_detect.Prelude.{false, ℕ, ◌≡◌, refl, true, [], none, ok}
use distributed_fraud_detect.Float.Whole.{Whole, fin, whole, whole_ltb, whole_is_nan, whole_is_inf}
use distributed_fraud_detect.Text.{text, is_trimmed_printable}
use distributed_fraud_detect.Window.{Features}
use distributed_fraud_detect.Features.Materialize.{
  valid_features, put_redis, materialized_feature_width,
}
use distributed_fraud_detect.Features.Store.{valid_feature_key, get_redis}
use distributed_fraud_detect.Features.RoundTrip.{put-get, numbers}
use distributed_fraud_detect.Features.Ticks.{ticks, read, ticks-IsExact}

abbrev account : Features Whole
account = record {
  entity_id = text "acct";
  event_count = 2;
  total_amount = fin 5;
  max_amount = fin 3;
  window_end = 100;
}

account_is_valid : valid_features account ≡ true
unfolding valid_features whole_ltb whole_is_nan whole_is_inf
account_is_valid = refl

account_is_key : valid_feature_key (text "acct") ≡ true
unfolding valid_feature_key is_trimmed_printable
account_is_key = refl

put-get_example :
    ((put_redis {X = ℕ} ticks none account []).0 ≡ none)
    × (get_redis {X = ℕ} read materialized_feature_width none none
          (text "acct")
          (put_redis {X = ℕ} ticks none account []).1
        ≡ ok (numbers ticks read fin ticks-IsExact account))
put-get_example = put-get ticks read fin ticks-IsExact account [] account_is_valid account_is_key

five_is_finite : whole_is_inf (fin 5) ≡ false
unfolding whole_is_inf
five_is_finite = refl
