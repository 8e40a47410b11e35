-- ===== src/Voice/Intent/Grades.antt =====
-- What a parsed intent may be.
use vedox.Base.{
  ℕ, ◌≡◌, ◌≢◌, ◌⊎◌, inl, inr, refl, bytes_eq, Bool, Bool-cases, true, false, Option-cases, some,
  List, [], ◌∷◌, ◌++◌, arith, All, ltb, if◌then◌else◌,
}
use vedox.Base.Text.{Text, fields, trim_space, join_with}
use vedox.Voice.Intent.Rules.{
  Command, unknown, document_file, PhraseRule, rules, partial_only_rules, match_trigger,
  match_triggers, match_rules,
}
use vedox.Voice.Intent.Parse.{
  Unicode, Intent, wake_confidence, strip_collapsed, strip_tokens, strip_wake_word, normalise,
  found, intent_after_wake, partial_intent, parse_intent,
}

-- A rule names a command, and takes a target for `document_file` only.
abbrev IsSoundRule : PhraseRule → Type 0
IsSoundRule rule =
    (rule.command ≢ unknown) × ((rule.command ≡ document_file) ⊎ (rule.capture_target ≡ false))

abbrev IsSoundMatch : Command × Text → Type 0
IsSoundMatch m = (m.0 ≢ unknown) × ((m.0 ≡ document_file) ⊎ (m.1 ≡ []))

-- No match: the unknown command, with no target and no confidence. A match: a command, with a
-- target for `document_file` only, and one of the three grades of confidence.
abbrev pub IsGraded : Intent → Type 0
IsGraded i =
    (i.command ≡ unknown) × (i.target ≡ []) × (i.confidence ≡ 0)
    ⊎ (i.command ≢ unknown)
      × ((i.command ≡ document_file) ⊎ (i.target ≡ []))
      × ((i.confidence ≡ 10) ⊎ (i.confidence ≡ 7) ⊎ (i.confidence ≡ 5))

rules-Sound : All IsSoundRule rules
rules-Sound = (
  ((λ e. cc), inr refl),
  (
    ((λ e. cc), inr refl),
    (
      ((λ e. cc), inr refl),
      (((λ e. cc), inl refl), (((λ e. cc), inr refl), (((λ e. cc), inr refl), tt))),
    ),
  ),
)

partial_only_rules-Sound : All IsSoundRule partial_only_rules
partial_only_rules-Sound = (
  ((λ e. cc), inr refl),
  (
    ((λ e. cc), inr refl),
    (((λ e. cc), inr refl), (((λ e. cc), inr refl), (((λ e. cc), inr refl), tt))),
  ),
)

plain_target :
    (input : Text) (triggers : List Text) (target : Text)
    → match_triggers input false triggers ≡ some target
    → target ≡ []
unfolding match_triggers match_trigger
plain_target input [] target h = cc
plain_target input (t ∷ triggers) target h = elim (Bool-cases (bytes_eq input t)) [
  | inl e ↦ ground (arith, e, h)
  | inr e ↦ plain_target input triggers target (ground (arith, e, h))
]

match_rules-Sound :
    (input : Text) (table : List PhraseRule) (m : Command × Text)
    → All IsSoundRule table
    → match_rules input table ≡ some m
    → IsSoundMatch m
unfolding match_rules
match_rules-Sound input [] m all h = cc
match_rules-Sound input (rule ∷ table) m ((named, ok), all) h =
    elim (Option-cases (match_triggers input rule.capture_target rule.triggers)) [
      | inl e ↦ match_rules-Sound input table m all (ground (arith, e, h))
      | inr (target, e) ↦
          let same : (rule.command, target) ≡ m = ground (arith, e, h) in
          rw (← same) (
            named,
            elim ok [
              | inl file ↦ inl file
              | inr plain ↦ inr (plain_target input rule.triggers target (rw (← plain) e))
            ],
          )
    ]

-- The confidence of the wake word.
abbrev IsGrade : ℕ → Type 0
IsGrade n = (n ≡ 10) ⊎ (n ≡ 7) ⊎ (n ≡ 0)

wake_confidence-IsGrade : (word : Text) → IsGrade (wake_confidence word)
unfolding wake_confidence
wake_confidence-IsGrade word = ground arith

choice-IsGrade :
    (b : Bool) (x y : Text × ℕ) → IsGrade x.1 → IsGrade y.1 → IsGrade (if b then x else y).1
choice-IsGrade true x y gx gy = gx
choice-IsGrade false x y gx gy = gy

strip_collapsed-IsGrade :
    (norm first : Text) (tokens : List Text) → IsGrade (strip_collapsed norm first tokens).1
unfolding strip_collapsed
strip_collapsed-IsGrade norm first [] = inr (inr refl)
strip_collapsed-IsGrade norm first (second ∷ tokens) =
    let n = wake_confidence (first ++ second) in
    choice-IsGrade (ltb 0 n) (trim_space (join_with 32 tokens), n) (norm, 0)
      (wake_confidence-IsGrade (first ++ second)) (inr (inr refl))

strip_tokens-IsGrade : (norm : Text) (tokens : List Text) → IsGrade (strip_tokens norm tokens).1
unfolding strip_tokens
strip_tokens-IsGrade norm [] = inr (inr refl)
strip_tokens-IsGrade norm (first ∷ tokens) =
    let n = wake_confidence first in
    choice-IsGrade (ltb 0 n) (trim_space (join_with 32 tokens), n)
      (strip_collapsed norm first tokens) (wake_confidence-IsGrade first)
      (strip_collapsed-IsGrade norm first tokens)

-- The intent is graded and keeps the transcript.
abbrev IsFaithful : Text → Intent → Type 0
IsFaithful text i = IsGraded i × (i.raw_text ≡ text)

partial_intent-IsFaithful : (text norm : Text) → IsFaithful text (partial_intent text norm)
partial_intent-IsFaithful text norm = elim (Option-cases (match_rules norm partial_only_rules)) [
  | inl e ↦ rw (e, partial_intent) (inl (refl, refl, refl), refl)
  | inr (m, e) ↦
      let (named, target) =
        match_rules-Sound norm partial_only_rules m partial_only_rules-Sound e in
      rw (e, partial_intent) (inr (named, target, inr (inr refl)), refl)
]

found-IsFaithful :
    (n : ℕ) (text : Text) (m : Command × Text)
    → IsGrade n
    → ltb 0 n ≡ true
    → IsSoundMatch m
    → IsFaithful text (found n text m)
found-IsFaithful n text m (inl e) h (named, target) = (inr (named, target, inl e), refl)
found-IsFaithful n text m (inr (inl e)) h (named, target) = (inr (named, target, inr (inl e)), refl)
found-IsFaithful n text m (inr (inr e)) h s = absurd (ground (arith, e, h))

intent_after_wake-IsFaithful :
    (text norm : Text) (stripped : Text × ℕ)
    → IsGrade stripped.1
    → IsFaithful text (intent_after_wake text norm stripped)
unfolding intent_after_wake
intent_after_wake-IsFaithful text norm (remainder, n) grade = elim (Bool-cases (ltb 0 n)) [
  | inl h ↦ elim (Option-cases (match_rules remainder rules)) [
    | inl e ↦ rw (h, e) (partial_intent-IsFaithful text norm)
    | inr (m, e) ↦
        rw (h, e)
          (found-IsFaithful n text m grade h (match_rules-Sound remainder rules m rules-Sound e))
  ]
  | inr h ↦ rw h (partial_intent-IsFaithful text norm)
]

-- ParseIntent keeps the transcript, and answers either the unknown command with no target and no
-- confidence, or a command whose confidence is 1.0, 0.7 or 0.5 and which has a target only if it is
-- `document_file`.
pub parse_intent-IsGraded :
    (unicode : Unicode) (text : Text)
    → IsGraded (parse_intent unicode text) × ((parse_intent unicode text).raw_text ≡ text)
unfolding parse_intent strip_wake_word
parse_intent-IsGraded unicode text =
    let norm = normalise unicode text in
    intent_after_wake-IsFaithful text norm (strip_wake_word norm)
      (strip_tokens-IsGrade norm (fields norm))
