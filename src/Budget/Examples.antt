-- ===== src/Budget/Examples.antt =====
-- A site that earns, reserves and spends budget: the theorems at concrete inputs. The amounts have ten
-- binary places.
use chromium_log.Prelude.{
  ℕ, ◌+◌, ◌-◌, ◌*◌, ◌/◌, ◌^◌, ◌==◌, ltb, ◌≡◌, refl, true, false, List, [], ◌∷◌, none, some, arith,
  run,
}
use chromium_log.Budget.Defs.{
  hour, Double, Arithmetic, Scale, Origin, BudgetInfo, World, did_consume, silent_push,
}
use chromium_log.Budget.Database.{
  Database, new_database, spend_budget, get_entry, spend_budget_after_sync,
}
use chromium_log.Budget.Manager.{
  Manager, new_manager, Event, get_budget, reserve, consume, database_answers, step,
  on_database_answers,
}
use chromium_log.Budget.Tokens.{IsExact, Units, tokens}
use chromium_log.Budget.Tokens.Refinement.{HasTokens, spent, spend-refines}
use chromium_log.Budget.Order.Steps.{HasOrder}
use chromium_log.Budget.Order.Runs.{timed_step, run-HasOrder}
use chromium_log.Budget.Replies.{count_pending, count_replies, count_requests}
use chromium_log.Budget.Replies.Runs.{requests_answered}
use chromium_log.Budget.Failures.{failure, database_failed}
use chromium_log.Budget.Reservations.Runs.{held, in_all, granted, redeemed, run-reservations}

abbrev scale : Scale
scale = record { max_points = 100 }

abbrev places : ℕ
places = 2 ^ 10

abbrev fixed_point : Arithmetic
fixed_point = record {
  of_int = λ n. n * places;
  less = ltb;
  equal = λ a b. a == b;
  add = λ a b. a + b;
  subtract = λ a b. a - b;
  multiply = λ a b. a * b / places;
  divide = λ a b. a * places / b;
}

abbrev units : ℕ → Double
units n = n

fixed_point-IsExact : IsExact fixed_point units
fixed_point-IsExact = record {
  no_units = refl;
  adds = λ a b h. refl;
  subtracts = λ a b h l. refl;
  compares = λ a b h l. refl;
  is_nought = refl;
}

abbrev site : Origin
site = record { serialized = 7; unique = false; secure = true }

-- A time in hours, with a full score.
abbrev at : ℕ → World
at h = record { now = h * hour; score = 100 * places; arithmetic = fixed_point }

-- The site reserves a push and redeems it, and then reads its budget.
abbrev some_day : List (World × Event)
some_day =
    (at 1000, reserve site silent_push 1)
    ∷ (at 1000, database_answers true none)
    ∷ (at 1000, database_answers true none)
    ∷ (at 1001, consume site silent_push 2)
    ∷ (at 1002, get_budget site 3)
    ∷ []

-- Two chunks, of which the first expires soon.
abbrev purse : BudgetInfo
purse = record {
  last_engagement_award = 1000 * hour;
  chunks =
      record { amount = 2048; expiration = 1010 * hour }
      ∷ record { amount = 3072; expiration = 1096 * hour }
      ∷ [];
}

abbrev db : Database
db = record new_database { budget_map = λ o. some purse }

abbrev in_purse : Units
in_purse = (2048, 1010 * hour) ∷ (3072, 1096 * hour) ∷ []

spend-refines_example :
    HasTokens units
      ((spend_budget_after_sync (at 1001) 7 4096 (did_consume 4) true db).0.budget_map 7)
      (spent 4096 (tokens in_purse))
spend-refines_example =
    (spend-refines (at 1001) 7 4096 (did_consume 4) db units in_purse fixed_point-IsExact refl
      (omega arith) (omega arith)).0

run-HasOrder_example :
    let (now, m) = run (timed_step scale) (0, new_manager) some_day in HasOrder now m.db
run-HasOrder_example =
    run-HasOrder scale 0 some_day
      (omega arith, ((omega arith, tt), ((omega arith, tt), (omega arith, (omega arith, tt)))))

-- Five hours at half a unit of budget each have been added.
abbrev renewed_purse : Units
renewed_purse = (2048, 1010 * hour) ∷ (3072, 1096 * hour) ∷ (2560, 1101 * hour) ∷ []

requests_answered_example :
    let m = run (step scale) new_manager some_day in
    count_pending 2 m.db.posted + count_replies 2 m.replies ≡ count_requests 2 some_day
requests_answered_example = requests_answered scale 2 some_day

-- With a read of the site's budget under way.
abbrev waiting : Manager
waiting = record new_manager {
  db = record new_database { posted = get_entry 7 (spend_budget 6 (did_consume 4)) ∷ [] };
}

database_failed_example :
    on_database_answers scale (at 1001) false none waiting
    ≡ record new_manager { replies = failure (get_entry 7 (spend_budget 6 (did_consume 4))) ∷ [] }
database_failed_example =
    database_failed scale (at 1001) none (get_entry 7 (spend_budget 6 (did_consume 4))) [] waiting
      refl

run-reservations_example :
    let m = run (step scale) new_manager some_day in
    held 7 m + in_all (step scale) (redeemed 7) new_manager some_day
    ≡ in_all (step scale) (granted 7) new_manager some_day
run-reservations_example = (run-reservations scale 7 some_day).0
