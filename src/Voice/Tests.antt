-- ===== src/Voice/Tests.antt =====
-- Two transcripts, and the theorems at them.
use vedox.Base.{
  ◌≡◌, refl, true, ℕ, List, ◌∷◌, Option, none, some, bytes, bytes_discrete, starts_with, [], leb,
  ◌+◌, if◌then◌else◌, ◌&&◌,
}
use vedox.Base.Text.{Text, is_space, trim_left, trim_right, join_with, scan_words}
use vedox.Voice.Intent.Distance.{min3, count_up, fill_row, next_row, rows, last_of, levenshtein}
use vedox.Voice.Intent.Distance.Table.{distance, onto, levenshtein-distance}
use vedox.Voice.Intent.Rules.{Command, match_trigger, match_triggers, match_rules}
use vedox.Voice.Intent.Parse.{
  Unicode, is_one_of, is_close_to, wake_confidence, strip_collapsed, strip_tokens, strip_wake_word,
  lower_printable, strip_punctuation, normalise, intent_after_wake, parse_intent,
}
use vedox.Voice.Intent.Grades.{IsGraded, parse_intent-IsGraded}

-- The computing definitions of the package.
code : Unit {0}
unfolding bytes_discrete starts_with is_space trim_left trim_right join_with scan_words min3
    count_up fill_row next_row rows last_of levenshtein match_trigger match_triggers match_rules
    is_one_of is_close_to wake_confidence strip_collapsed strip_tokens strip_wake_word
    lower_printable strip_punctuation normalise intent_after_wake parse_intent
code = tt

-- The letters of ASCII, all of them printable.
abbrev ascii : Unicode
ascii = record {
  to_lower = λ c. if leb 65 c && leb c 90 then c + 32 else c;
  is_print = λ c. true;
  is_letter = λ c. leb 97 c && leb c 122;
}

fuzzy_example : parse_intent ascii (bytes "Veedox, document main.go") ≡ record {
  command = Command.document_file;
  target = bytes "main.go";
  confidence = 7;
  raw_text = bytes "Veedox, document main.go";
}
unfolding code
fuzzy_example = refl

two_words_example : parse_intent ascii (bytes "vee docs status?") ≡ record {
  command = Command.status;
  target = [];
  confidence = 7;
  raw_text = bytes "vee docs status?";
}
unfolding code
two_words_example = refl

parse_intent-IsGraded_example :
    IsGraded (parse_intent ascii (bytes "Veedox, document main.go"))
    × ((parse_intent ascii (bytes "Veedox, document main.go")).raw_text
        ≡ bytes "Veedox, document main.go")
parse_intent-IsGraded_example = parse_intent-IsGraded ascii (bytes "Veedox, document main.go")

levenshtein-distance_example :
    levenshtein (bytes "vdox") (bytes "vedox")
    ≡ distance (onto (bytes "vdox") []) (onto (bytes "vedox") [])
levenshtein-distance_example = levenshtein-distance (bytes "vdox") (bytes "vedox")

-- A transcriber that hears a command in any audio but silence.
abbrev heard : List ℕ → Option Text
heard [] = none
heard (x ∷ audio) = some (bytes "vedox status")
