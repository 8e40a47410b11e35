-- ===== src/Voice/Intent/Parse.antt =====
-- voice/intent.go, `ParseIntent`.
use vedox.Base.{
  ℕ, bytes, bytes_eq, Bool, true, false, ◌&&◌, ◌||◌, none, some, List, [], ◌∷◌, ◌++◌, leb, ltb,
  ◌==◌, if◌then◌else◌,
}
use vedox.Base.Text.{Text, trim_space, fields, join_with}
use vedox.Voice.Intent.Distance.{levenshtein}
use vedox.Voice.Intent.Rules.{Command, unknown, rules, partial_only_rules, match_rules}

-- What package `unicode` says of a code point.
pub record Unicode : Type 0 where
  pub to_lower : ℕ → ℕ
  pub is_print : ℕ → Bool
  pub is_letter : ℕ → Bool

-- The confidence in tenths.
pub record Intent : Type 0 where
  pub command : Command
  pub target : Text
  pub confidence : ℕ
  pub raw_text : Text

abbrev space : ℕ
space = 32

abbrev canonical_wake_words : List Text
canonical_wake_words = bytes "vedox" ∷ []

abbrev fuzzy_wake_threshold : ℕ
fuzzy_wake_threshold = 2

abbrev known_wake_variants : List Text
known_wake_variants =
    bytes "vedocks"
    ∷ bytes "veedox"
    ∷ bytes "veedocs"
    ∷ bytes "vdox"
    ∷ bytes "vedoc"
    ∷ bytes "vedocs"
    ∷ bytes "vedex"
    ∷ bytes "vidox"
    ∷ []

unfoldable pub is_one_of : Text → List Text → Bool
is_one_of t [] = false
is_one_of t (w ∷ ws) = let rest = is_one_of t ws in if bytes_eq t w then true else rest

unfoldable pub is_close_to : Text → List Text → Bool
unfolding levenshtein
is_close_to t [] = false
is_close_to t (w ∷ ws) =
    let rest = is_close_to t ws in if leb (levenshtein t w) fuzzy_wake_threshold then true else rest

-- The confidence that a word, as one token or two, is the wake word.
unfoldable pub wake_confidence : Text → ℕ
unfolding is_one_of is_close_to
wake_confidence word =
    if is_one_of word canonical_wake_words
    then 10
    else if is_one_of word known_wake_variants
    then 7
    else if is_close_to word canonical_wake_words
    then 7
    else 0

abbrev rejoined : List Text → Text
rejoined tokens = trim_space (join_with space tokens)

-- The two tokens in front taken for one word.
unfoldable pub strip_collapsed : Text → Text → List Text → Text × ℕ
unfolding wake_confidence
strip_collapsed norm first [] = (norm, 0)
strip_collapsed norm first (second ∷ tokens) =
    let confidence = wake_confidence (first ++ second) in
    if ltb 0 confidence then (rejoined tokens, confidence) else (norm, 0)

unfoldable pub strip_tokens : Text → List Text → Text × ℕ
unfolding strip_collapsed wake_confidence
strip_tokens norm [] = (norm, 0)
strip_tokens norm (first ∷ tokens) =
    let confidence = wake_confidence first in
    if ltb 0 confidence then (rejoined tokens, confidence) else strip_collapsed norm first tokens

-- `stripWakeWord`
unfoldable pub strip_wake_word : Text → Text × ℕ
unfolding strip_tokens
strip_wake_word norm = strip_tokens norm (fields norm)

abbrev pub no_intent : Text → Intent
no_intent text = record { command = unknown; target = []; confidence = 0; raw_text = text }

abbrev pub found : ℕ → Text → Command × Text → Intent
found confidence text (command, target) = record {
  command = command;
  target = target;
  confidence = confidence;
  raw_text = text;
}

abbrev pub partial_intent : Text → Text → Intent
partial_intent text norm = elim (match_rules norm partial_only_rules) [
  | some m ↦ found 5 text m
  | none ↦ no_intent text
]

-- What `ParseIntent` does with the result of `stripWakeWord`.
unfoldable pub intent_after_wake : Text → Text → Text × ℕ → Intent
unfolding match_rules
intent_after_wake text norm (remainder, confidence) =
    if ltb 0 confidence
    then (elim (match_rules remainder rules) [
      | some m ↦ found confidence text m
      | none ↦ partial_intent text norm
    ])
    else partial_intent text norm

module _ (unicode : Unicode) where
  open unicode use {to_lower, is_print, is_letter}

  unfoldable pub lower_printable : Text → Text
  lower_printable [] = []
  lower_printable (c ∷ s) =
      (if is_print (to_lower c) then to_lower c else space) ∷ lower_printable s

  -- A dot or an apostrophe is kept between two letters.
  abbrev kept_between : Bool → ℕ → Text → ℕ
  kept_between before c [] = space
  kept_between before c (d ∷ s) = if before && is_letter d then c else space

  abbrev is_mark : ℕ → Bool
  is_mark c = (c == 44) || (c == 63) || (c == 33) || (c == 59) || (c == 58) || (c == 34)

  -- The second loop; `before` says whether a letter stands in front.
  unfoldable pub strip_punctuation : Bool → Text → Text
  strip_punctuation before [] = []
  strip_punctuation before (c ∷ s) =
      (if (c == 46) || (c == 39) then kept_between before c s else if is_mark c then space else c)
      ∷ strip_punctuation (is_letter c) s

  -- `normalise`
  unfoldable pub normalise : Text → Text
  unfolding lower_printable strip_punctuation
  normalise text = join_with space (fields (strip_punctuation false (lower_printable text)))

  -- `ParseIntent`
  unfoldable pub parse_intent : Text → Intent
  unfolding intent_after_wake
  parse_intent text =
      let norm = normalise text in intent_after_wake text norm (strip_wake_word norm)
