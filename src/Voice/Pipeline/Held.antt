-- ===== src/Voice/Pipeline/Held.antt =====
-- What is transcribed is what was said, and what is dispatched was understood.
use vedox.Base.{
  ℕ, ◌≤◌, inl, inr, Bool, Bool-cases, true, false, Option, none, some, List, [], ◌∷◌, ◌++◌, ltb,
  if◌then◌else◌, arith, All,
}
use vedox.Base.Text.{Text}
use vedox.Voice.Intent.Parse.{Unicode, Intent, parse_intent}
use vedox.Voice.Pipeline.{
  Effect, Event, Loop, notified, transcribed, dispatched, ptt, timer_fires, chunk, ends, idle,
  listening, act_on, transcribe_and_dispatch, new_loop, start_listening, release, handle, run,
}

module _ {Sample : Type 0} (unicode : Unicode) (transcribe : List Sample → Option Text)
    (dispatch : Intent → Bool) (min_confidence : ℕ) where
  -- A dispatched intent has the confidence that the configuration asks for.
  abbrev pub IsConfident : Effect Sample → Type 0
  IsConfident (notified s) = Unit
  IsConfident (transcribed audio) = Unit
  IsConfident (dispatched intent) = min_confidence ≤ intent.confidence

  All-append :
      (es fs : List (Effect Sample))
      → All IsConfident es
      → All IsConfident fs
      → All IsConfident (es ++ fs)
  All-append [] fs a b = b
  All-append (e ∷ es) fs a b = (a.0, All-append es fs a.1 b)

  act_on-IsConfident :
      (heard : Option Text)
      → All IsConfident (act_on unicode transcribe dispatch min_confidence heard)
  unfolding act_on
  act_on-IsConfident none = (tt, tt)
  act_on-IsConfident (some text) =
      let intent = parse_intent unicode text in
      elim (Bool-cases (ltb intent.confidence min_confidence)) [
        | inl e ↦ rw e (tt, tt)
        | inr e ↦ rw e (tt, (ground (arith, e), (tt, tt)))
      ]

  release-IsConfident :
      (l : Loop Sample)
      → All IsConfident l.log
      → All IsConfident (release unicode transcribe dispatch min_confidence l).log
  unfolding release transcribe_and_dispatch
  release-IsConfident l a =
      All-append l.log _ a (tt, (tt, act_on-IsConfident (transcribe l.buffer)))

  if-IsConfident :
      (b : Bool) (l m : Loop Sample)
      → All IsConfident l.log
      → All IsConfident m.log
      → All IsConfident (if b then l else m).log
  if-IsConfident true l m a b = a
  if-IsConfident false l m a b = b

  handle-IsConfident :
      (e : Event Sample) (l : Loop Sample)
      → All IsConfident l.log
      → All IsConfident (handle unicode transcribe dispatch min_confidence e l).log
  unfolding handle start_listening
  handle-IsConfident (ptt true) l a =
      if-IsConfident l.is_listening l _ a (All-append l.log (notified listening ∷ []) a (tt, tt))
  handle-IsConfident (ptt false) l a = if-IsConfident l.is_listening _ l (release-IsConfident l a) a
  handle-IsConfident timer_fires l a = if-IsConfident l.has_timer _ l (release-IsConfident l a) a
  handle-IsConfident (chunk samples) l a = if-IsConfident l.is_listening _ l a a
  handle-IsConfident ends l a = All-append l.log (notified idle ∷ []) a (tt, tt)

  run-IsConfident :
      (es : List (Event Sample)) (l : Loop Sample)
      → All IsConfident l.log
      → All IsConfident (run unicode transcribe dispatch min_confidence es l).log
  unfolding run
  run-IsConfident [] l a = a
  run-IsConfident (e ∷ es) l a =
      run-IsConfident es _ (if-IsConfident l.is_running _ l (handle-IsConfident e l a) a)

  -- Whatever keys, chunks and timers the loop sees, it dispatches only intents that reach the
  -- least confidence of its configuration.
  dispatched-IsConfident :
      (es : List (Event Sample))
      → All IsConfident
          (run unicode transcribe dispatch min_confidence es
            (new_loop unicode transcribe dispatch min_confidence)).log
  dispatched-IsConfident es = run-IsConfident es _ (tt, tt)

  abbrev after : List (Event Sample) → Loop Sample → Loop Sample
  after = run unicode transcribe dispatch min_confidence

  -- A running loop that does not listen, and one that does.
  abbrev pub idle_loop : List Sample → Bool → List (Effect Sample) → Loop Sample
  idle_loop buffer has_timer log = record {
    is_listening = false;
    buffer = buffer;
    has_timer = has_timer;
    is_running = true;
    log = log;
  }

  abbrev listening_loop : List Sample → List (Effect Sample) → Loop Sample
  listening_loop buffer log = record {
    is_listening = true;
    buffer = buffer;
    has_timer = true;
    is_running = true;
    log = log;
  }

  abbrev pub joined : List (List Sample) → List Sample
  joined [] = []
  joined (c ∷ cs) = c ++ joined cs
