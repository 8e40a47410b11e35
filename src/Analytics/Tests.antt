-- ===== src/Analytics/Tests.antt =====
-- A collector with one event, and the theorems at it.
use vedox.Base.{ℕ, ◌≡◌, refl, false, Option, none, some, List, [], ◌∷◌, ◌++◌, bytes, map, arith}
use vedox.Base.Text.{Text}
use vedox.Analytics.Events.{Event, EventError, is_edge, is_inner, match_tail, match_kind, validate}
use vedox.Analytics.Collector.{
  Collector, waiting, stopped, with_session, enqueue, emit, stop, return_from_flush, receive,
  row_of, submit_write, work_in, work,
}
use vedox.Analytics.Collector.Stored.{
  here, emits, IsAccounted, in_hand, enqueued, collected-IsAccounted,
}
use vedox.Analytics.Collector.Drained.{stop_drains}

-- The computing definitions of the package.
code : Unit {0}
unfolding is_edge is_inner match_tail match_kind validate with_session enqueue emit stop
    return_from_flush receive row_of submit_write work_in work
code = tt

abbrev viewed : Event ℕ
viewed = record { kind = bytes "doc.viewed"; timestamp = 7; session_id = []; properties = [] }

abbrev fresh : Collector ℕ
fresh = record { session_id = bytes "s"; ch = []; done = false; worker = waiting; table = [] }

abbrev format : ℕ → Text
format t = t ∷ []

abbrev marshal : List (Text × ℕ) → Option Text
marshal p = none

-- The session is missing, and `Emit` adds it.
no_session : validate viewed ≡ some EventError.empty_session
unfolding code
no_session = refl

no_error : (emit viewed fresh).1 ≡ none
unfolding code
no_error = refl

dot_at_the_end : match_kind (bytes "doc.") ≡ false
unfolding code
dot_at_the_end = refl

collected_example :
    IsAccounted format marshal
      (enqueued format marshal viewed fresh)
      0
      (emit viewed fresh).0.table
      (in_hand format marshal (emit viewed fresh).0.worker)
      (emit viewed fresh).0.ch
collected_example =
    collected-IsAccounted format marshal fresh (refl, refl, refl) (emits viewed here)

stop_drains_example :
    let c = (emit viewed fresh).0 in
    let d = work format marshal 6 (stop c) in
    (d.worker ≡ stopped)
    × (d.ch ≡ [])
    × (d.table ≡ c.table ++ map (row_of format marshal) (in_hand format marshal c.worker ++ c.ch))
unfolding code
stop_drains_example = stop_drains format marshal (emit viewed fresh).0 6 tt (omega arith)

one_row :
    (work format marshal 6 (stop (emit viewed fresh).0)).table
    ≡ record {
      kind = bytes "doc.viewed";
      timestamp = 7 ∷ [];
      session_id = bytes "s";
      properties = none;
    }
      ∷ []
unfolding code
one_row = refl
