-- ===== src/Budget/Defs.antt =====
-- browser/budget_service/budget_database.cc and .h, budget_manager.cc: the data, and the loops over the
-- chunks of a budget. Times are microseconds. An amount is a double, which is known by its 64 bits; the
-- machine's arithmetic of doubles, which rounds, is a parameter, `Arithmetic`.
use chromium_log.Prelude.{
  ℕ, ◌-◌, ◌*◌, ◌/◌, Bool, List, [], ◌∷◌, Option, none, some, ltb, leb, if◌then◌else◌,
}

abbrev pub budget_duration_in_days : ℕ
budget_duration_in_days = 4

abbrev pub hour : ℕ
hour = 3600000000

abbrev pub day : ℕ
day = 86400000000

abbrev pub Double : Type 0
Double = ℕ

-- What the code does with doubles: `<`, `==`, `+`, `-`, `*`, `/`, and the conversion of an int.
pub record Arithmetic : Type 0 where
  pub of_int : ℕ → Double
  pub less : Double → Double → Bool
  pub equal : Double → Double → Bool
  pub add : Double → Double → Double
  pub subtract : Double → Double → Double
  pub multiply : Double → Double → Double
  pub divide : Double → Double → Double

abbrev pub nought : Arithmetic → Double
nought m = m.of_int 0

-- SiteEngagementScore::kMaxPoints.
pub record Scale : Type 0 where
  pub max_points : ℕ

-- An origin, with url::Origin::unique and content::IsOriginSecure of it.
pub record Origin : Type 0 where
  pub serialized : ℕ
  pub unique : Bool
  pub secure : Bool

pub record Chunk : Type 0 where
  pub amount : Double
  pub expiration : ℕ

pub record BudgetInfo : Type 0 where
  pub last_engagement_award : ℕ
  pub chunks : List Chunk

abbrev pub empty_info : BudgetInfo
empty_info = record { last_engagement_award = 0; chunks = [] }

-- The message budget_service::Budget of the database.
pub record Budget : Type 0 where
  pub budget : List Chunk
  pub engagement_last_updated : ℕ

-- blink::mojom::BudgetState and BudgetServiceErrorType.
pub record BudgetState : Type 0 where
  pub budget_at : Double
  pub time : ℕ

pub data Error : Type 0 where
  no_error database_error not_supported : Error

pub data OperationType : Type 0 where
  silent_push invalid_operation : OperationType

-- A callback of a caller is a number. BudgetManager binds it to DidGetBudget for a question, and to one of
-- these for spending.
pub data Client : Type 0 where
  did_reserve : Origin → ℕ → Client
  did_consume : ℕ → Client

-- What the clock, the engagement service and the machine say during a call.
pub record World : Type 0 where
  pub now : ℕ
  pub score : Double
  pub arithmetic : Arithmetic

-- The loop that adds the amounts, with the sum so far.
abbrev pub total_from : Arithmetic → Double → List Chunk → Double
total_from m sum [] = sum
total_from m sum (chunk ∷ chunks) = total_from m (m.add sum chunk.amount) chunks

abbrev pub total : Arithmetic → List Chunk → Double
total m chunks = total_from m (nought m) chunks

-- 12.0 / 24.0 * score / max_points
unfoldable pub hourly_budget : Scale → World → Double
hourly_budget scale w =
    let m = w.arithmetic in
    m.divide (m.multiply (m.divide (m.of_int 12) (m.of_int 24)) w.score) (m.of_int scale.max_points)

-- The loop of `CleanupExpiredBudget`.
unfoldable pub drop_expired : ℕ → List Chunk → List Chunk
drop_expired now [] = []
drop_expired now (chunk ∷ chunks) =
    if leb chunk.expiration now then drop_expired now chunks else chunk ∷ chunks

-- The loop of `SpendBudgetAfterSync`, with the bill that is left.
unfoldable pub pay : Arithmetic → Double → List Chunk → Double × List Chunk
pay m bill [] = (bill, [])
pay m bill (chunk ∷ chunks) =
    let rest = pay m (m.subtract bill chunk.amount) chunks in
    if m.less bill chunk.amount
    then (
      nought m,
      record { amount = m.subtract chunk.amount bill; expiration = chunk.expiration } ∷ chunks,
    )
    else rest

-- The time that `AddEngagementBudget` gives budget for, or `none` where it returns early.
unfoldable pub time_to_award : ℕ → Option BudgetInfo → Option ℕ
time_to_award now none = some (budget_duration_in_days * day)
time_to_award now (some info) =
    let elapsed = now - info.last_engagement_award in
    if ltb (elapsed / hour) 1
    then none
    else if ltb budget_duration_in_days (elapsed / day)
    then some (budget_duration_in_days * day)
    else some elapsed

-- The loop of `GetBudgetAfterSync`, with the budget that is left.
unfoldable pub predict : Arithmetic → Double → List Chunk → List BudgetState
predict m left [] = []
predict m left (chunk ∷ chunks) =
    let rest = m.subtract left chunk.amount in
    record { budget_at = rest; time = chunk.expiration } ∷ predict m rest chunks

-- The loops that convert from and to the database's format.
unfoldable pub to_message : BudgetInfo → Budget
to_message info = record {
  budget = info.chunks;
  engagement_last_updated = info.last_engagement_award;
}

unfoldable pub from_message : Budget → BudgetInfo
from_message message = record {
  last_engagement_award = message.engagement_last_updated;
  chunks = message.budget;
}
