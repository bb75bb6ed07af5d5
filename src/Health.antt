-- ===== src/Health.antt =====
-- health/health.go and health/http.go, with the answers of db/health.go and logstream/health.go to
-- them. The answers of the database and of NATS are arguments. The HTTP server itself, the JSON
-- encoding and the listing that is only logged are left out.
pub mod Check
use harmonylite.Prelude.{
  ◌≐◌, ℕ, String, Bool, true, false, ◌&&◌, Option, none, some, List, [], ◌∷◌, ltb, ◌==◌,
  if◌then◌else◌, Result, Outcome, ok, err, string_eq, nat_eq,
}

-- The answers of the SQL connection: whether the pool is there, whether a connection could be
-- borrowed, the result of `SELECT 1`, and the number of triggers found.
pub record DbAnswers : Type 0 where
  pub has_pool : Bool
  pub borrowed : Outcome
  pub select_one : Outcome
  pub trigger_count : Result ℕ
  pub tracked_tables : ℕ

pub succeeds : Outcome → Bool
succeeds (err e) = false
succeeds (ok u) = true

-- `SqliteStreamDB.IsConnected`
unfoldable pub is_connected : DbAnswers → Bool
unfolding succeeds
is_connected d = d.has_pool && succeeds d.borrowed && succeeds d.select_one

-- `SqliteStreamDB.AreCDCHooksInstalled`
unfoldable pub are_cdc_hooks_installed : DbAnswers → Bool
unfolding succeeds
are_cdc_hooks_installed d =
    d.has_pool && succeeds d.borrowed && (elim d.trigger_count [ err e ↦ false | ok n ↦ ltb 0 n ])

-- The answers of NATS for the first shard. `none` is a zero time.
pub record NatsAnswers : Type 0 where
  pub has_client : Bool
  pub is_up : Bool
  pub shards : List ℕ
  pub last_seq : Result ℕ
  pub message_time : Result ℕ

or_zero_time : Result ℕ → Option ℕ
or_zero_time (err e) = none
or_zero_time (ok t) = some t

-- `Replicator.GetLastReplicatedEventTime`, and `GetLastPublishedEventTime`, which calls it.
unfoldable pub last_event_time : NatsAnswers → Option ℕ
unfolding or_zero_time
last_event_time n = elim n.shards [
  | [] ↦ none
  | s ∷ rest ↦ elim n.last_seq [
    | err e ↦ none
    | ok seq ↦ if seq == 0 then none else or_zero_time n.message_time
  ]
]

pub record Status : Type 0 where
  pub status : String
  pub db_connected : Bool
  pub nats_connected : Bool
  pub cdc_installed : Bool
  pub tables_tracked : ℕ
  pub last_replicated : Option ℕ
  pub last_published : Option ℕ

check_db_connection : Option DbAnswers → Bool
check_db_connection none = false
check_db_connection (some d) = is_connected d

check_nats_connection : Option NatsAnswers → Bool
check_nats_connection none = false
check_nats_connection (some n) = n.has_client && n.is_up

check_cdc_hooks : Option DbAnswers → Bool
check_cdc_hooks none = false
check_cdc_hooks (some d) = are_cdc_hooks_installed d

tables_tracked_count : Option DbAnswers → ℕ
tables_tracked_count none = 0
tables_tracked_count (some d) = d.tracked_tables

event_time : Option NatsAnswers → Option ℕ
event_time none = none
event_time (some n) = last_event_time n

-- `Check`; the checkers may be nil.
unfoldable pub check : Option DbAnswers → Option NatsAnswers → Status
unfolding check_db_connection check_nats_connection check_cdc_hooks tables_tracked_count event_time
check db nats =
    let a = check_db_connection db in
    let b = check_nats_connection nats in
    let c = check_cdc_hooks db in
    record {
      status = if a && b && c then "healthy" else "unhealthy";
      db_connected = a;
      nats_connected = b;
      cdc_installed = c;
      tables_tracked = tables_tracked_count db;
      last_replicated = event_time nats;
      last_published = event_time nats;
    }

-- The response: the status code, whether the header names JSON, and whether there is a body. The
-- header is set after `WriteHeader` sent the headers, and so has no effect.
pub record Response : Type 0 where
  pub code : ℕ
  pub is_json : Bool
  pub body : Option Status

-- `handleHealthCheck`
unfoldable pub handle_health_check : Bool → Option DbAnswers → Option NatsAnswers → Response
handle_health_check detailed db nats =
    let status = check db nats in
    record {
      code = if status.status ≐ "healthy" then 200 else 503;
      is_json = false;
      body = if detailed then some status else none;
    }
