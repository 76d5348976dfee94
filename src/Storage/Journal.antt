-- ===== src/Storage/Journal.antt =====
-- `recordToolUsage`, `updateUsageStatus`, `recordRequestLog`, `recordBillingLedgerEntry`,
-- `recordWarRoomEvent` and `listWarRoomEvents` of state-store.mjs. Ids and the clock are arguments.
use infopunks_trust_layer_ag.Base.{
  ℕ, String, Bool, ◌||◌, Option, none, some, List, [], ◌∷◌, ◌==◌, eqb, leb, min, max, same_key,
  truthy, get_or_else, or_else, take, update_rows, if◌then◌else◌,
}
use infopunks_trust_layer_ag.Base.Json.{Json}
use infopunks_trust_layer_ag.Storage.Tables.{insert_unique}

-- A row of `tool_usage_ledger`.
pub record UsageRow : Type 0 where
  pub usage_id : String
  pub adapter_trace_id : Option String
  pub tool_name : String
  pub payer : Option String
  pub caller_subject_id : Option String
  pub target_subject_id : Option String
  pub billed_units : ℕ
  pub receipt_id : Option String
  pub usage_status : String
  pub created_at : ℕ
  pub updated_at : Option ℕ

-- The primary key, and `adapter_trace_id TEXT UNIQUE`.
unfoldable pub usage_clash : UsageRow → UsageRow → Bool
usage_clash a b = a.usage_id == b.usage_id || same_key a.adapter_trace_id b.adapter_trace_id

abbrev pub has_trace : Option String → UsageRow → Bool
has_trace trace r = same_key r.adapter_trace_id trace

unfoldable pub update_usage_status : Option String → String → ℕ → List UsageRow → List UsageRow
update_usage_status trace status now rows =
    if truthy trace
    then update_rows (has_trace trace)
        (λ r. record r { usage_status = status; updated_at = some now }) rows
    else rows

-- A second row of a trace is no row: it sets the status of the first.
unfoldable pub record_tool_usage : UsageRow → ℕ → List UsageRow → List UsageRow
record_tool_usage row now rows = elim (insert_unique usage_clash row rows) [
  | none ↦ update_usage_status row.adapter_trace_id row.usage_status now rows
  | some rows' ↦ rows'
]

-- A row of `adapter_request_log`.
pub record RequestLogRow : Type 0 where
  pub log_id : String
  pub adapter_trace_id : Option String
  pub tool_name : Option String
  pub status_code : Option ℕ
  pub error_code : Option String
  pub latency_ms : Option ℕ
  pub billed_units : Option ℕ
  pub receipt_id : Option String
  pub internal_trace_id : Option String
  pub details : Json
  pub created_at : ℕ

unfoldable pub record_request_log : RequestLogRow → List RequestLogRow → List RequestLogRow
record_request_log row rows = row ∷ rows

-- The arguments of `recordBillingLedgerEntry`.
pub record LedgerEntry : Type 0 where
  pub adapter_trace_id : Option String
  pub request_id : Option String
  pub tool_name : String
  pub payer : Option String
  pub subject_id : Option String
  pub billed_units : Option ℕ
  pub receipt_id : Option String
  pub network : Option String
  pub asset : Option String
  pub price_atomic : Option String
  pub status : Option String

-- A row of `billing_ledger`.
pub record LedgerRow : Type 0 where
  pub ledger_id : String
  pub entry : LedgerEntry
  pub billed_units : ℕ
  pub status : String
  pub created_at : ℕ

unfoldable pub record_billing_ledger_entry :
    LedgerEntry → String → ℕ → List LedgerRow → List LedgerRow
record_billing_ledger_entry e id now rows =
    record {
      ledger_id = id;
      entry = e;
      billed_units = get_or_else e.billed_units 0;
      status = get_or_else e.status "paid";
      created_at = now;
    }
    ∷ rows

-- A value that is read by `Number`: one that is absent is no number, and null is zero.
pub data Numeric : Type 0 where
  absent null_value : Numeric
  number : ℕ → Numeric

unfoldable pub finite_number : Numeric → Option ℕ
finite_number absent = none
finite_number null_value = some 0
finite_number (number n) = some n

-- The arguments of `recordWarRoomEvent`; the texts that it takes as they are stand in a list.
pub record WarRoomEvent : Type 0 where
  pub event_id : Option String
  pub event_type : Option String
  pub timestamp : Option ℕ
  pub trust_score : Numeric
  pub confidence : Numeric
  pub amount : Numeric
  pub pay_to_camel : Option String
  pub pay_to : Option String
  pub texts : List (String × Option String)

-- A row of `war_room_events`.
pub record WarRoomRow : Type 0 where
  pub event_id : String
  pub event_type : String
  pub timestamp : ℕ
  pub trust_score : Option ℕ
  pub confidence : Option ℕ
  pub amount : Option ℕ
  pub pay_to : Option String
  pub texts : List (String × Option String)

unfoldable pub war_room_row : WarRoomEvent → String → ℕ → WarRoomRow
unfolding finite_number
war_room_row e id now = record {
  event_id = get_or_else e.event_id id;
  event_type = get_or_else e.event_type "paid_call.unknown";
  timestamp = get_or_else e.timestamp now;
  trust_score = finite_number e.trust_score;
  confidence = finite_number e.confidence;
  amount = finite_number e.amount;
  pay_to = or_else e.pay_to_camel e.pay_to;
  texts = e.texts;
}

abbrev same_event : WarRoomRow → WarRoomRow → Bool
same_event a b = a.event_id == b.event_id

-- `none` is the error of the primary key, which the caller gets.
unfoldable pub record_war_room_event :
    WarRoomEvent → String → ℕ → List WarRoomRow → Option (List WarRoomRow)
unfolding war_room_row
record_war_room_event e id now rows = insert_unique same_event (war_room_row e id now) rows

abbrev insert_newest : WarRoomRow → List WarRoomRow → List WarRoomRow
insert_newest r [] = r ∷ []
insert_newest r (x ∷ xs) =
    if leb x.timestamp r.timestamp then r ∷ x ∷ xs else x ∷ insert_newest r xs

abbrev newest_first : List WarRoomRow → List WarRoomRow
newest_first [] = []
newest_first (r ∷ rs) = insert_newest r (newest_first rs)

-- `Math.max(1, Math.min(200, Number(limit) || 50))`
unfoldable pub safe_limit : ℕ → ℕ
safe_limit limit = max 1 (min 200 (if eqb limit 0 then 50 else limit))

unfoldable pub list_war_room_events : ℕ → List WarRoomRow → List WarRoomRow
unfolding safe_limit
list_war_room_events limit rows = take (safe_limit limit) (newest_first rows)
