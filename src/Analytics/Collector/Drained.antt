-- ===== src/Analytics/Collector/Drained.antt =====
-- What `Stop` leaves behind.
use vedox.Base.{
  suc, zero, ℕ, ◌+◌, ◌≤◌, ◌≡◌, refl, ap, ◌∙◌, Bool, true, false, Option, List, [], ◌∷◌, ◌++◌,
  length, map, arith,
}
use vedox.Base.Dict.{Dict}
use vedox.Base.Text.{Text}
use vedox.Analytics.Events.{Event}
use vedox.Analytics.Collector.{
  Row, Collector, Worker, waiting, draining, writing, stopped, stop, row_of, work,
}
use vedox.Analytics.Collector.Stored.{append_assoc, append-nil, map-append, in_hand}

module _ {Any : Type 0} (format : ℕ → Text) (marshal : Dict Text Any → Option Text) where
  abbrev written_rows : List (Event Any) → List Row
  written_rows es = map (row_of format marshal) es

  -- After `Stop`: the channel, the goroutine and the table.
  abbrev after_stop : Text → List (Event Any) → Worker Any → List Row → Collector Any
  after_stop session l w table = record {
    session_id = session;
    ch = l;
    done = true;
    worker = w;
    table = table;
  }

  module _ (session : Text) where
    abbrev returned : List Row → List (Event Any) → Collector Any
    returned table es = after_stop session [] stopped (table ++ written_rows es)

    stays_stopped :
        (n : ℕ) (table : List Row)
        → work format marshal n (after_stop session [] stopped table)
          ≡ after_stop session [] stopped table
    unfolding work
    stays_stopped zero table = refl
    stays_stopped (suc n) table = stays_stopped n table

    last_flush :
        (l b : List (Event Any)) (table : List Row) (n : ℕ)
        → length l + 2 ≤ n
        → work format marshal n (after_stop session l (draining b true) table)
          ≡ returned table (b ++ l)
    unfolding work
    last_flush l b table zero h = absurd (omega arith)
    last_flush l b table (suc zero) h = absurd (omega arith)
    last_flush [] [] table (suc (suc n)) h = stays_stopped (suc n) table ∙ rw append-nil refl
    last_flush [] (x ∷ b) table (suc (suc n)) h =
        stays_stopped n (table ++ written_rows (x ∷ b)) ∙ rw append-nil refl
    last_flush (e ∷ l) b table (suc n) h =
        last_flush l (b ++ e ∷ []) table n (omega arith) ∙ rw (append_assoc b (e ∷ []) l) refl

    from_waiting :
        (l : List (Event Any)) (table : List Row) (n : ℕ)
        → length l + 3 ≤ n
        → work format marshal n (after_stop session l waiting table) ≡ returned table l
    unfolding work
    from_waiting l table zero h = absurd (omega arith)
    from_waiting l table (suc n) h = last_flush l [] table n (omega arith)

    from_writing :
        (l b : List (Event Any)) (table : List Row) (n : ℕ)
        → length l + 4 ≤ n
        → work format marshal n (after_stop session l (writing b false) table)
          ≡ returned table (b ++ l)
    unfolding work
    from_writing l b table zero h = absurd (omega arith)
    from_writing l b table (suc n) h =
        from_waiting l (table ++ written_rows b) n (omega arith)
        ∙ rw
            (
              append_assoc table (written_rows b) (written_rows l),
              ← map-append (row_of format marshal) b l,
            )
            refl

    from_draining :
        (l b : List (Event Any)) (last : Bool) (table : List Row) (n : ℕ)
        → length l + 5 ≤ n
        → work format marshal n (after_stop session l (draining b last) table)
          ≡ returned table (b ++ l)
    unfolding work
    from_draining l b true table n h = last_flush l b table n (omega arith)
    from_draining l b false table zero h = absurd (omega arith)
    from_draining [] [] false table (suc n) h = from_waiting [] table n (omega arith)
    from_draining [] (x ∷ b) false table (suc n) h = from_writing [] (x ∷ b) table n (omega arith)
    from_draining (e ∷ l) b false table (suc n) h =
        from_draining l (b ++ e ∷ []) false table n (omega arith)
        ∙ rw (append_assoc b (e ∷ []) l) refl

  -- The goroutine will still look into the channel.
  abbrev pub IsCollecting : Worker Any → Type 0
  IsCollecting waiting = Unit
  IsCollecting (draining batch last) = Unit
  IsCollecting (writing batch last) = last ≡ false
  IsCollecting stopped = ⊥

  from_each :
      (session : Text) (l : List (Event Any)) (w : Worker Any) (table : List Row) (n : ℕ)
      → IsCollecting w
      → length l + 5 ≤ n
      → work format marshal n (after_stop session l w table)
        ≡ returned session table (in_hand format marshal w ++ l)
  from_each session l waiting table n h b = from_waiting session l table n (omega arith)
  from_each session l (draining batch last) table n h b =
      from_draining session l batch last table n b
  from_each session l (writing batch false) table n h b =
      from_writing session l batch table n (omega arith)
  from_each session l (writing batch true) table n h b = cc
  from_each session l stopped table n h b = absurd h

  -- After Stop the goroutine returns, within five steps more than the channel holds events, and
  -- has then written every event that it had in hand and that was in the channel, in their order.
  -- It is supposed that it has not begun the write of its last flush, that no event comes later,
  -- that the writes succeed and that it takes the signal of Stop where it waits.
  pub stop_drains :
      (c : Collector Any) (n : ℕ)
      → IsCollecting c.worker
      → length c.ch + 5 ≤ n
      → let d = work format marshal n (stop c) in
        (d.worker ≡ stopped)
        × (d.ch ≡ [])
        × (d.table
            ≡ c.table ++ map (row_of format marshal) (in_hand format marshal c.worker ++ c.ch))
  unfolding stop
  stop_drains c n h b =
      let e = from_each c.session_id c.ch c.worker c.table n h b in
      (ap (λ d. d.worker) e, ap (λ d. d.ch) e, ap (λ d. d.table) e)
