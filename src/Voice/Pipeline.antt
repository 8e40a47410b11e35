-- ===== src/Voice/Pipeline.antt =====
-- voice/pipeline.go, `loop`: push-to-talk, the captured audio and what is done with it.
pub mod Held
use vedox.Base.{
  ℕ, Bool, true, false, not, ◌&&◌, Option, none, some, List, [], ◌∷◌, ◌++◌, ltb, if◌then◌else◌,
}
use vedox.Base.Text.{Text}
use vedox.Voice.Intent.Parse.{Unicode, Intent, parse_intent}

pub data VoiceState : Type 0 where
  idle listening transcribing dispatching error : VoiceState

-- What the loop does to the world: a call of the activity callback, of the transcriber, and of the
-- dispatch function.
pub data Effect (Sample : Type 0) : Type 0 where
  notified : VoiceState → Effect Sample
  transcribed : List Sample → Effect Sample
  dispatched : Intent → Effect Sample

-- What `select` may find: a value in `pttCh`, the timer, a chunk, or the end of the context or of
-- a channel.
pub data Event (Sample : Type 0) : Type 0 where
  ptt : Bool → Event Sample
  timer_fires : Event Sample
  chunk : List Sample → Event Sample
  ends : Event Sample

-- `has_timer` says that `pttTimerCh` is not nil, and `log` is what was done, in order.
pub record Loop (Sample : Type 0) : Type 0 where
  pub is_listening : Bool
  pub buffer : List Sample
  pub has_timer : Bool
  pub is_running : Bool
  pub log : List (Effect Sample)

module _ {Sample : Type 0} (unicode : Unicode) (transcribe : List Sample → Option Text)
    (dispatch : Intent → Bool) (min_confidence : ℕ) where
  -- `transcribeAndDispatch`
  unfoldable pub act_on : Option Text → List (Effect Sample)
  act_on none = notified error ∷ []
  act_on (some text) =
      let intent = parse_intent unicode text in
      if ltb intent.confidence min_confidence
      then notified error ∷ []
      else notified dispatching
        ∷ dispatched intent
        ∷ notified (if dispatch intent then idle else error)
        ∷ []

  unfoldable pub transcribe_and_dispatch : List Sample → List (Effect Sample)
  unfolding act_on
  transcribe_and_dispatch audio =
      notified transcribing ∷ transcribed audio ∷ act_on (transcribe audio)

  abbrev pub new_loop : Loop Sample
  new_loop = record {
    is_listening = false;
    buffer = [];
    has_timer = false;
    is_running = true;
    log = notified idle ∷ [];
  }

  -- `startListening`
  unfoldable pub start_listening : Loop Sample → Loop Sample
  start_listening l = if l.is_listening then l else record l {
    is_listening = true;
    buffer = [];
    has_timer = true;
    log = l.log ++ notified listening ∷ [];
  }

  -- `stopListening`, and the transcription of what was captured.
  unfoldable pub release : Loop Sample → Loop Sample
  unfolding transcribe_and_dispatch
  release l = record l {
    is_listening = false;
    buffer = [];
    has_timer = if l.is_listening then false else l.has_timer;
    log = l.log ++ transcribe_and_dispatch l.buffer;
  }

  unfoldable pub handle : Event Sample → Loop Sample → Loop Sample
  unfolding start_listening release
  handle (ptt true) l = start_listening l
  handle (ptt false) l = if l.is_listening then release l else l
  handle timer_fires l = if l.has_timer then release l else l
  handle (chunk samples) l = if l.is_listening then record l { buffer = l.buffer ++ samples } else l
  handle ends l = record l { is_running = false; log = l.log ++ notified idle ∷ [] }

  -- One round after another, until the loop has returned.
  unfoldable pub run : List (Event Sample) → Loop Sample → Loop Sample
  unfolding handle
  run [] l = l
  run (e ∷ es) l = run es (if l.is_running then handle e l else l)
