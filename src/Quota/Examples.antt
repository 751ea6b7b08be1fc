-- ===== src/Quota/Examples.antt =====
-- The quota at concrete inputs: one user, who reserves one answer.
use openvac_web.Script.{is_blank}
use openvac_web.Prelude.{
  ℕ, ◌+◌, ◌*◌, ◌/◌, zero, suc, ◌+◌, String, ◌≡◌, refl, true, false, none, some, [], ◌∷◌, arith,
  Result, after, ok, err,
}
use openvac_web.Quota.Types.{
  QuotaReservation, Database, QuotaError, Collation, answer, user, released, to_committed,
  to_released,
}
use openvac_web.Quota.Window.{Calendar, shanghai_daily_window}
use openvac_web.Quota.Repository.Rows.{RepositoryReserveInput, RepositoryTransitionInput}
use openvac_web.Quota.Repository.Reserve.{reserve}
use openvac_web.Quota.Repository.Transition.{select_lease_rows, transition_quota_reservation}
use openvac_web.Quota.Accounting.{IsValid}
use openvac_web.Quota.Reserving.{reserve-IsValid}
use openvac_web.Quota.Settlement.{Settled, transition_settles}
use openvac_web.Quota.Laws.{transition_once}
use openvac_web.Quota.Race.{reserve_charged_once}
use openvac_web.Quota.Service.{
  ReserveQuotaInput, ServiceError, Host, repository_input, lift_quota, service_reserve,
}
use openvac_web.Quota.WithReservation.{with_reservation}
use openvac_web.Quota.Guarded.{SameSums, Charges}
use openvac_web.Quota.Cost.{with_reservation_failed, with_reservation_done}

-- A calendar that prints a day as so many strokes.
abbrev strokes : ℕ → String
strokes zero = String.[]
strokes (suc n) = String.◌∷◌ "x" (strokes n)

-- A calendar of days that print as strokes, 8 hours ahead.
abbrev tally : Calendar
tally = record {
  date_parts = λ at. record { year = 0; month = 0; day = (at + 28800000) / 86400000 };
  utc = λ year month day. day * 86400000;
  print_key = λ parts. strokes parts.day;
}

abbrev any_order : Collation
any_order = record { locale_le = λ a b. true; text_le = λ a b. true }

abbrev empty_tables : Database
empty_tables = record {
  accounts = record { id = "ann"; deletion_requested_at = none } ∷ [];
  buckets = [];
  ledger = [];
  next_id = 1;
}

empty_tables-IsValid : IsValid empty_tables
empty_tables-IsValid = record { buckets_sound = tt; rows_sound = tt }

abbrev request : RepositoryReserveInput
request = record {
  actor_user_id = "ann";
  client_request_id = "first";
  resource = answer;
  units = 1;
  window = record { key = "1970-01-01"; reset_at = 57600000 };
  scopes = record { scope_type = user; scope_key = "ann"; limit = 20 } ∷ [];
}

abbrev reserved_tables : Database
reserved_tables = after empty_tables (reserve any_order request 5 empty_tables empty_tables)

reserve-IsValid_example : IsValid reserved_tables
reserve-IsValid_example =
    reserve-IsValid any_order request 5 empty_tables empty_tables empty_tables-IsValid

reserve_charged_once_example :
    after reserved_tables (reserve any_order request 6 empty_tables reserved_tables)
    ≡ reserved_tables
unfolding reserve
reserve_charged_once_example =
    reserve_charged_once any_order request 6 empty_tables reserved_tables refl

abbrev charge : RepositoryTransitionInput
charge = record { lease_id = 1; actor_user_id = some "ann"; reason = none }

abbrev give_back : RepositoryTransitionInput
give_back = record { lease_id = 1; actor_user_id = some "ann"; reason = some "late" }

abbrev answer_of : {A : Type 0} → A → Result QuotaError (A × Database) → A
answer_of other (ok (a, s)) = a
answer_of other (err e) = other

abbrev no_reservation : QuotaReservation
no_reservation = record {
  lease_id = 0;
  actor_user_id = "";
  client_request_id = "";
  resource = answer;
  units = 0;
  status = released;
  window = record { key = ""; reset_at = 0 };
  scopes = [];
  idempotent = false;
}

abbrev charged : Result QuotaError (QuotaReservation × Database)
charged = transition_quota_reservation any_order charge to_committed 7 reserved_tables

transition_once_example :
    transition_quota_reservation any_order give_back to_released 9 (after reserved_tables charged)
    ≡ ok (answer_of no_reservation charged, after reserved_tables charged)
unfolding reserve transition_quota_reservation
transition_once_example =
    transition_once any_order charge give_back to_committed to_released 7 9 reserved_tables
      (after reserved_tables charged) (answer_of no_reservation charged) reserve-IsValid_example
      refl refl refl

transition_settles_example :
    (res : QuotaReservation) × (s : Database) × (charged ≡ ok (res, s))
    × Settled charge to_committed 7 reserved_tables s
unfolding reserve select_lease_rows
transition_settles_example =
    transition_settles any_order charge to_committed 7 reserved_tables reserve-IsValid_example
      (omega arith)

abbrev host : Host
host = record {
  collation = any_order;
  calendar = tally;
  limits = record {
    answer_daily = 20;
    web_search_user_daily = 5;
    web_search_global_daily = 500;
    model_attempt_user_daily = 30;
    model_attempt_global_daily = 1000;
  };
  read_answer_bonus = λ user_id. 2;
}

abbrev one_answer : ReserveQuotaInput
one_answer = record {
  user_id = "ann";
  client_request_id = "first";
  resource = answer;
  units = none;
  at = 0;
}

abbrev throws_text : QuotaReservation → Database → Result String ℕ × Database
throws_text res s = (err "boom", s)

abbrev returns_three : QuotaReservation → Database → Result String ℕ × Database
returns_three res s = (ok 3, s)

with_reservation_failed_example :
    IsValid (with_reservation host one_answer 5 empty_tables throws_text empty_tables).1
    × SameSums empty_tables.ledger
        (with_reservation host one_answer 5 empty_tables throws_text empty_tables).1.ledger
with_reservation_failed_example =
    with_reservation_failed host one_answer 5 empty_tables empty_tables throws_text
      empty_tables-IsValid (λ res s. ("boom", refl))

abbrev opened : Result (ServiceError String) (QuotaReservation × Database)
opened = service_reserve host one_answer 5 empty_tables empty_tables

abbrev opened_reservation : QuotaReservation
opened_reservation = elim opened [ ok (a, s) ↦ a | err e ↦ no_reservation ]

with_reservation_done_example :
    ((with_reservation host one_answer 5 empty_tables returns_three empty_tables).0 ≡ ok 3)
    × IsValid (with_reservation host one_answer 5 empty_tables returns_three empty_tables).1
    × Charges empty_tables.ledger
        (after empty_tables opened).ledger
        (with_reservation host one_answer 5 empty_tables returns_three empty_tables).1.ledger
unfolding service_reserve is_blank reserve shanghai_daily_window lift_quota repository_input
with_reservation_done_example =
    with_reservation_done host one_answer 5 empty_tables empty_tables (after empty_tables opened)
      returns_three opened_reservation 3 empty_tables-IsValid refl refl refl
