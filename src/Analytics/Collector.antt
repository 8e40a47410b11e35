-- ===== src/Analytics/Collector.antt =====
-- analytics/collector.go: events are queued in a bounded channel and written in batches.
pub mod Stored
pub mod Drained
use vedox.Base.{
  ℕ, zero, suc, Bool, true, false, ltb, if◌then◌else◌, Option, none, some, List, [], ◌∷◌, ◌++◌,
  length, map, is_empty,
}
use vedox.Base.Text.{Text}
use vedox.Base.Dict.{Dict}
use vedox.Analytics.Events.{Event, EventError, validate}

abbrev pub buffer_size : ℕ
buffer_size = 256

-- Where the goroutine of `run` stands; `last` says that it returns after this flush.
pub data Worker (Any : Type 0) : Type 0 where
  waiting : Worker Any
  draining : List (Event Any) → Bool → Worker Any
  writing : List (Event Any) → Bool → Worker Any
  stopped : Worker Any

pub record Row : Type 0 where
  pub kind : Text
  pub timestamp : Text
  pub session_id : Text
  pub properties : Option Text

-- The collector and the table `events` in the order of its ids.
pub record Collector (Any : Type 0) : Type 0 where
  pub session_id : Text
  pub ch : List (Event Any)
  pub done : Bool
  pub worker : Worker Any
  pub table : List Row

module _ {Any : Type 0} where
  -- `Emit` before it validates.
  unfoldable pub with_session : Text → Event Any → Event Any
  with_session session e = record e {
    session_id = if is_empty e.session_id then session else e.session_id;
  }

  -- The `select` of `Emit`: a full channel drops the event.
  unfoldable pub enqueue : Event Any → Collector Any → Collector Any
  enqueue e c = if ltb (length c.ch) buffer_size then record c { ch = c.ch ++ e ∷ [] } else c

  -- `Emit`
  unfoldable pub emit : Event Any → Collector Any → Collector Any × Option EventError
  unfolding with_session enqueue
  emit e c =
      let e' = with_session c.session_id e in
      elim (validate e') [ some error ↦ (c, some error) | none ↦ (enqueue e' c, none) ]

  -- `Stop`
  unfoldable pub stop : Collector Any → Collector Any
  stop c = record c { done = true }

  -- `flush` returns, and with the last one the goroutine.
  unfoldable pub return_from_flush : Bool → Collector Any → Collector Any
  return_from_flush last c = record c { worker = if last then stopped else waiting }

  -- The drain loop of `flush`: one event is received, or the channel is empty.
  unfoldable pub receive :
      List (Event Any) → Bool → List (Event Any) → Collector Any → Collector Any
  unfolding return_from_flush
  receive batch last [] c =
      if is_empty batch then return_from_flush last c else record c { worker = writing batch last }
  receive batch last (e ∷ rest) c = record c { ch = rest; worker = draining (batch ++ e ∷ []) last }

-- The standard library's `Format(time.RFC3339)` and `json.Marshal`.
module _ {Any : Type 0} (format : ℕ → Text) (marshal : Dict Text Any → Option Text) where
  -- The arguments of the INSERT.
  unfoldable pub row_of : Event Any → Row
  row_of e = record {
    kind = e.kind;
    timestamp = format e.timestamp;
    session_id = e.session_id;
    properties = if is_empty e.properties then none else marshal e.properties;
  }

  -- `SubmitWrite`, which commits the batch or rolls it back.
  unfoldable pub submit_write : Bool → List (Event Any) → Bool → Collector Any → Collector Any
  unfolding return_from_flush row_of
  submit_write ok batch last c =
      return_from_flush last
        (record c { table = if ok then c.table ++ map row_of batch else c.table })

  -- The next step of `run`, alone, where each write succeeds and no tick comes; a `Stop` wakes it.
  unfoldable pub work_in : Worker Any → Collector Any → Collector Any
  unfolding receive submit_write
  work_in waiting c = if c.done then record c { worker = draining [] true } else c
  work_in (draining batch last) c = receive batch last c.ch c
  work_in (writing batch last) c = submit_write true batch last c
  work_in stopped c = c

  unfoldable pub work : ℕ → Collector Any → Collector Any
  unfolding work_in
  work zero c = c
  work (suc n) c = work n (work_in c.worker c)
