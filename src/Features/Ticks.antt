-- ===== src/Features/Ticks.antt =====
-- Test data of the features: a formatter and a parser that write a number as that many ticks, an empty
-- window and its first event.
use distributed_fraud_detect.Prelude.{
  pos, ℕ, zero, suc, ◌≡◌, refl, ap, true, [], ◌∷◌, Option, none, some, ok, eqb, if◌then◌else◌,
  replicate,
}
use distributed_fraud_detect.Float.Whole.{
  whole_leb, Whole, nan, fin, inf, whole, whole_add, whole_sub, whole_ltb, whole_is_nan,
  whole_is_inf,
}
use distributed_fraud_detect.Text.{Text, text, is_printable, is_trimmed_printable}
use distributed_fraud_detect.Window.{
  Window, Event, Features, new_with_limits, apply, next_watermark, cutoff, first_live, in_window,
  next_events, expired_ids, evict_choice, projected_event_count, is_stale, valid_event,
  add_features, next_features, pending_update, prepare_locked,
}
use distributed_fraud_detect.Window.Search.{search}
use distributed_fraud_detect.Window.Sort.{slice_stable}
use distributed_fraud_detect.Window.Served.{AllPriced}
use distributed_fraud_detect.Features.Vector.{no_comma}
use distributed_fraud_detect.Features.Materialize.{Formatter}
use distributed_fraud_detect.Features.Store.{is_number}
use distributed_fraud_detect.Features.RoundTrip.{IsExact}

-- Zero is "0", n + 1 is "0" and n + 1 ticks; an infinity and no number have letters.
abbrev pub ticks : Formatter Whole
ticks = record {
  itoa = λ n. 0x30 ∷ replicate n 0x31;
  format_float = λ x. elim x [ nan ↦ text "N" | fin n ↦ 0x30 ∷ replicate n 0x31 | inf ↦ text "I" ];
}

abbrev count_ticks : Text → ℕ
count_ticks [] = 0
count_ticks (b ∷ s) = suc (count_ticks s)

abbrev pub read : Text → Option Whole
read [] = none
read (b ∷ s) = if eqb b 0x30 then some (fin (count_ticks s)) else none

count_ticks-replicate : (n : ℕ) → count_ticks (replicate n 0x31) ≡ n
count_ticks-replicate zero = refl
count_ticks-replicate (suc n) = ap suc (count_ticks-replicate n)

ticks-no_comma : (n : ℕ) → no_comma (replicate n 0x31) ≡ true
ticks-no_comma zero = refl
ticks-no_comma (suc n) = ticks-no_comma n

ticks_format : (x : Whole) → no_comma (ticks.format_float x) ≡ true
ticks_format nan = refl
ticks_format (fin n) = ticks-no_comma n
ticks_format inf = refl

read_back : (x : Whole) → is_number x ≡ true → read (ticks.format_float x) ≡ some x
unfolding whole_is_nan whole_is_inf
read_back nan h = absurd (cc)
read_back (fin n) h = ap (λ k. some (fin k)) (count_ticks-replicate n)
read_back inf h = absurd (cc)

pub ticks-IsExact : IsExact ticks read fin
unfolding whole_is_nan whole_is_inf
ticks-IsExact = record {
  itoa-no_comma = ticks-no_comma;
  format-no_comma = ticks_format;
  parse-itoa = λ n. ap (λ k. some (fin k)) (count_ticks-replicate n);
  parse-zero = refl;
  parse-format = read_back;
  of_count-number = λ n. refl;
  zero-number = refl;
}

abbrev pub opened : Window Whole
opened = new_with_limits Whole (pos 60) (pos 2) (pos 3)

abbrev pub payment : Event Whole
payment = record {
  id = text "e1";
  entity_id = text "acct";
  amount = fin 5;
  occurred_at = 100;
  partition = pos 0;
  offset = pos 7;
}

abbrev pub reported : Features Whole
reported = record {
  entity_id = text "acct";
  event_count = 1;
  total_amount = fin 5;
  max_amount = fin 5;
  window_end = 100;
}

pub payment_taken : (apply opened payment).1 ≡ ok (reported, true)
unfolding whole_add whole_sub whole_ltb whole_leb whole_is_nan whole_is_inf is_printable
    is_trimmed_printable new_with_limits apply next_watermark cutoff first_live in_window
    next_events expired_ids evict_choice projected_event_count is_stale valid_event add_features
    next_features pending_update prepare_locked search slice_stable
payment_taken = refl

pub opened-AllPriced : AllPriced opened
unfolding new_with_limits
opened-AllPriced = tt
