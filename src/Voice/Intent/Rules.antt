-- ===== src/Voice/Intent/Rules.antt =====
-- voice/intent.go: the commands and the tables of phrases, the first match of which wins.
use vedox.Base.{
  bytes, bytes_eq, Bool, true, false, Option, none, some, List, [], ◌∷◌, ◌++◌, if◌then◌else◌,
  starts_with, drop, length,
}
use vedox.Base.Text.{Text, trim_space}

pub data Command : Type 0 where
  document_everything document_folder document_changes document_file status stop unknown : Command

pub record PhraseRule : Type 0 where
  pub triggers : List Text
  pub command : Command
  pub capture_target : Bool

abbrev everything_triggers : List Text
everything_triggers =
    bytes "document everything"
    ∷ bytes "doc everything"
    ∷ bytes "document all"
    ∷ bytes "doc all"
    ∷ []

abbrev pub rules : List PhraseRule
rules =
    record { triggers = everything_triggers; command = document_everything; capture_target = false }
    ∷ record {
      triggers =
          bytes "document this folder"
          ∷ bytes "doc folder"
          ∷ bytes "document this directory"
          ∷ bytes "document the folder"
          ∷ bytes "doc this folder"
          ∷ bytes "document folder"
          ∷ [];
      command = document_folder;
      capture_target = false;
    }
    ∷ record {
      triggers =
          bytes "document these changes"
          ∷ bytes "doc changes"
          ∷ bytes "document the changes"
          ∷ bytes "document changes"
          ∷ bytes "doc these changes"
          ∷ bytes "document my changes"
          ∷ [];
      command = document_changes;
      capture_target = false;
    }
    ∷ record {
      triggers = bytes "document" ∷ bytes "doc" ∷ [];
      command = document_file;
      capture_target = true;
    }
    ∷ record {
      triggers =
          bytes "status"
          ∷ bytes "what's running"
          ∷ bytes "whats running"
          ∷ bytes "what is running"
          ∷ [];
      command = status;
      capture_target = false;
    }
    ∷ record {
      triggers = bytes "stop" ∷ bytes "cancel" ∷ bytes "halt" ∷ bytes "abort" ∷ [];
      command = stop;
      capture_target = false;
    }
    ∷ []

abbrev pub partial_only_rules : List PhraseRule
partial_only_rules =
    record { triggers = everything_triggers; command = document_everything; capture_target = false }
    ∷ record {
      triggers =
          bytes "document this folder"
          ∷ bytes "document folder"
          ∷ bytes "doc folder"
          ∷ bytes "document this directory"
          ∷ bytes "document the folder"
          ∷ [];
      command = document_folder;
      capture_target = false;
    }
    ∷ record {
      triggers =
          bytes "document these changes"
          ∷ bytes "document the changes"
          ∷ bytes "doc changes"
          ∷ bytes "document changes"
          ∷ [];
      command = document_changes;
      capture_target = false;
    }
    ∷ record {
      triggers = bytes "vedox status" ∷ bytes "status check" ∷ [];
      command = status;
      capture_target = false;
    }
    ∷ record {
      triggers = bytes "vedox stop" ∷ bytes "vedox cancel" ∷ [];
      command = stop;
      capture_target = false;
    }
    ∷ []

-- One trigger: the target, where it matches.
unfoldable pub match_trigger : Text → Bool → Text → Option Text
match_trigger input capture trigger =
    if bytes_eq input trigger
    then some []
    else if capture
    then (if starts_with input (trigger ++ bytes " ")
        then some (trim_space (drop (length (trigger ++ bytes " ")) input))
        else none)
    else none

unfoldable pub match_triggers : Text → Bool → List Text → Option Text
unfolding match_trigger
match_triggers input capture [] = none
match_triggers input capture (trigger ∷ triggers) =
    let rest = match_triggers input capture triggers in
    elim (match_trigger input capture trigger) [ some target ↦ some target | none ↦ rest ]

-- `matchRules`; `none` where it returns CommandUnknown and false.
unfoldable pub match_rules : Text → List PhraseRule → Option (Command × Text)
unfolding match_triggers
match_rules input [] = none
match_rules input (rule ∷ more) =
    let rest = match_rules input more in
    elim (match_triggers input rule.capture_target rule.triggers) [
      | some target ↦ some (rule.command, target)
      | none ↦ rest
    ]
