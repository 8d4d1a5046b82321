-- ===== src/Budget/Manager.antt =====
-- browser/budget_service/budget_manager.cc: BudgetManager, with its database, and the events that drive
-- the two. What the manager tells its callers is in `replies`, newest first.
use chromium_log.Prelude.{
  ℕ, ◌+◌, ◌-◌, Bool, true, false, ◌&&◌, ◌||◌, not, List, [], ◌∷◌, Option, none, some, ◌==◌,
  if◌then◌else◌,
}
use chromium_log.Budget.Defs.{
  Double, Arithmetic, Scale, Origin, Budget, BudgetState, Error, no_error, not_supported,
  OperationType, silent_push, invalid_operation, Client, did_reserve, did_consume, World,
}
use chromium_log.Budget.Database.{
  Answer, budget_answer, spend_answer, Database, new_database, set_at, get_budget_details, spend,
  on_answer,
}

pub data Reply : Type 0 where
  budget_given : ℕ → Error → List BudgetState → Reply
  reserved : ℕ → Error → Bool → Reply
  consumed : ℕ → Bool → Reply

-- The reservations by the serialized origin.
pub record Manager : Type 0 where
  pub db : Database
  pub reservation_map : ℕ → Option ℕ
  pub replies : List Reply

abbrev pub new_manager : Manager
new_manager = record { db = new_database; reservation_map = λ o. none; replies = [] }

abbrev pub reply : Reply → Manager → Manager
reply r m = record m { replies = r ∷ m.replies }

unfoldable pub get_cost : Scale → Arithmetic → OperationType → Double
get_cost scale m silent_push = m.of_int 2
get_cost scale m invalid_operation = m.of_int (scale.max_points + 1)

abbrev pub is_refused : Origin → Bool
is_refused origin = origin.unique || not origin.secure

abbrev pub count_of : Option ℕ → ℕ
count_of none = 0
count_of (some n) = n

abbrev pub is_no_error : Error → Bool
is_no_error no_error = true
is_no_error _ = false

unfoldable pub did_get_budget_reply : ℕ → Error → List BudgetState → Manager → Manager
did_get_budget_reply callback error budget m = reply (budget_given callback error budget) m

unfoldable pub did_reserve_reply : Origin → ℕ → Error → Bool → Manager → Manager
did_reserve_reply origin callback error success m =
    let o = origin.serialized in
    let held =
      (if success && is_no_error error
        then set_at o (some (count_of (m.reservation_map o) + 1)) m.reservation_map
        else m.reservation_map) in
    reply (reserved callback error success) (record m { reservation_map = held })

unfoldable pub did_consume_reply : ℕ → Error → Bool → Manager → Manager
did_consume_reply callback error success m =
    if not (is_no_error error)
    then reply (consumed callback false) m
    else reply (consumed callback success) m

-- The callback that the manager has bound for the client of the database.
unfoldable pub did_spend_reply : Client → Error → Bool → Manager → Manager
unfolding did_reserve_reply did_consume_reply
did_spend_reply (did_reserve origin callback) error success m =
    did_reserve_reply origin callback error success m
did_spend_reply (did_consume callback) error success m = did_consume_reply callback error success m

unfoldable pub deliver : Option Answer → Manager → Manager
unfolding did_spend_reply did_get_budget_reply
deliver none m = m
deliver (some (budget_answer callback error budget)) m =
    did_get_budget_reply callback error budget m
deliver (some (spend_answer client error success)) m = did_spend_reply client error success m

-- The database after a call, and its answer to the manager.
abbrev pub pass_on : Database × Option Answer → Manager → Manager
pass_on (db, answer) m = deliver answer (record m { db = db })

-- `Consume` for an origin with so many reservations.
unfoldable pub consume_reserved : ℕ → ℕ → ℕ → Manager → Manager
consume_reserved o count callback m = reply (consumed callback true) (record m {
  reservation_map = set_at o (if count == 1 then none else some (count - 1)) m.reservation_map;
})

pub data Event : Type 0 where
  get_budget : Origin → ℕ → Event
  reserve consume : Origin → OperationType → ℕ → Event
  database_answers : Bool → Option Budget → Event

module _ (scale : Scale) where
  unfoldable pub on_get_budget : World → Origin → ℕ → Manager → Manager
  unfolding get_budget_details deliver
  on_get_budget w origin callback m =
      if is_refused origin
      then reply (budget_given callback not_supported []) m
      else pass_on (get_budget_details scale w origin.serialized callback m.db) m

  unfoldable pub on_reserve : World → Origin → OperationType → ℕ → Manager → Manager
  unfolding spend deliver get_cost
  on_reserve w origin type callback m =
      if is_refused origin
      then reply (reserved callback not_supported false) m
      else pass_on
          (spend scale w origin.serialized (get_cost scale w.arithmetic type)
            (did_reserve origin callback) m.db)
          m

  unfoldable pub consume_or_spend :
      World → Origin → OperationType → ℕ → Option ℕ → Manager → Manager
  unfolding consume_reserved spend deliver get_cost
  consume_or_spend w origin type callback (some count) m =
      consume_reserved origin.serialized count callback m
  consume_or_spend w origin type callback none m =
      pass_on
        (spend scale w origin.serialized (get_cost scale w.arithmetic type) (did_consume callback)
          m.db)
        m

  unfoldable pub on_consume : World → Origin → OperationType → ℕ → Manager → Manager
  unfolding consume_or_spend
  on_consume w origin type callback m =
      if is_refused origin
      then reply (consumed callback false) m
      else consume_or_spend w origin type callback (m.reservation_map origin.serialized) m

  unfoldable pub on_database_answers : World → Bool → Option Budget → Manager → Manager
  unfolding on_answer deliver
  on_database_answers w success message m =
      pass_on (on_answer scale w success message m.db.posted m.db) m

  unfoldable pub step : Manager → World × Event → Manager
  step m (w, get_budget origin callback) = on_get_budget w origin callback m
  step m (w, reserve origin type callback) = on_reserve w origin type callback m
  step m (w, consume origin type callback) = on_consume w origin type callback m
  step m (w, database_answers success message) = on_database_answers w success message m
