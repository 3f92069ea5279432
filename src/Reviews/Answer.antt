-- ===== src/Reviews/Answer.antt =====
-- src/reviews/utils/parse-review-response.ts: the answer of the language model as a review.
-- `JSON.parse` is a parameter, `none` where it throws. The numbers of an answer are natural
-- numbers: a line that is negative or a fraction, which the database refuses, is not represented.
use pr_sentinel_backend.Base.{
  ℕ, String, ◌≡◌, refl, Bool, List, [], ◌∷◌, Option, none, some, or_else, str_eq, if◌then◌else◌,
}
use pr_sentinel_backend.Base.Text.{trim, after_prefix, without_suffix}
use pr_sentinel_backend.Errors.{Result, ok, err, bad_request}

mutual
  pub data Value : Type 0 where
    null : Value
    boolean : Bool → Value
    number : ℕ → Value
    text : String → Value
    array : Values → Value
    object : Fields → Value

  pub data Values : Type 0 where
    empty : Values
    item : Value → Values → Values

  pub data Fields : Type 0 where
    no_fields : Fields
    field : String → Value → Fields → Fields

pub data FindingSeverity : Type 0 where
  critical high medium low info : FindingSeverity

pub record ParsedFinding : Type 0 where
  pub file_path : String
  pub line_number : Option ℕ
  pub severity : FindingSeverity
  pub category : String
  pub message : String
  pub suggestion : Option String

pub record ParsedReviewResult : Type 0 where
  pub summary : String
  pub findings : List ParsedFinding

-- The own property of a parsed object, `none` for undefined.
unfoldable pub property : String → Fields → Option Value
property name no_fields = none
property name (field other value rest) =
    let found = property name rest in if str_eq other name then some value else found

abbrev pub as_text : Option Value → Option String
as_text (some (text s)) = some s
as_text _ = none

abbrev pub as_number : Option Value → Option ℕ
as_number (some (number n)) = some n
as_number _ = none

-- A severity of VALID_SEVERITIES, and INFO for anything else.
abbrev pub severity_of : Option String → FindingSeverity
severity_of none = info
severity_of (some s) =
    if str_eq s "CRITICAL"
    then critical
    else if str_eq s "HIGH"
    then high
    else if str_eq s "MEDIUM"
    then medium
    else if str_eq s "LOW"
    then low
    else info

-- The finding of an object, with the defaults for what is missing or of another type.
unfoldable pub finding_of : Fields → ParsedFinding
unfolding property
finding_of fields = record {
  file_path = or_else (as_text (property "filePath" fields)) "unknown";
  line_number = as_number (property "lineNumber" fields);
  severity = severity_of (as_text (property "severity" fields));
  category = or_else (as_text (property "category" fields)) "general";
  message = or_else (as_text (property "message" fields)) "";
  suggestion = as_text (property "suggestion" fields);
}

-- The `filter` and `map` over the findings: objects, and arrays, which have none of the properties.
unfoldable pub findings_of : Values → List ParsedFinding
unfolding finding_of
findings_of empty = []
findings_of (item (object fields) rest) = finding_of fields ∷ findings_of rest
findings_of (item (array elements) rest) = finding_of no_fields ∷ findings_of rest
findings_of (item null rest) = findings_of rest
findings_of (item (boolean b) rest) = findings_of rest
findings_of (item (number n) rest) = findings_of rest
findings_of (item (text s) rest) = findings_of rest

-- The text without white space and code fences around it.
unfoldable pub cleaned : String → String
cleaned raw =
    let trimmed = trim raw in
    let opened : String = elim (after_prefix "```" trimmed) [
      | none ↦ trimmed
      | some rest ↦ or_else (after_prefix "json" rest) rest
    ] in
    trim (without_suffix "```" opened)

-- The shape check and the review of a parsed value.
unfoldable pub review_of_value : Value → Result ParsedReviewResult
unfolding property findings_of
review_of_value (object fields) = elim (property "summary" fields) [
  | none ↦ err (bad_request "LLM response missing required summary/findings shape")
  | some summary ↦ elim (property "findings" fields) [
    | some (array elements) ↦
        ok (record {
          summary = or_else (as_text (some summary)) "";
          findings = findings_of elements;
        })
    | _ ↦ err (bad_request "LLM response missing required summary/findings shape")
  ]
]
review_of_value _ = err (bad_request "LLM response missing required summary/findings shape")

-- `parseReviewResponse`
unfoldable pub parse_review_response : (String → Option Value) → String → Result ParsedReviewResult
unfolding cleaned review_of_value
parse_review_response json_parse raw = elim (json_parse (cleaned raw)) [
  | none ↦ err (bad_request "LLM did not return valid JSON for the review")
  | some value ↦ review_of_value value
]

cleaned_test : cleaned "```JSON\n{}\n```" ≡ "{}"
unfolding cleaned trim after_prefix without_suffix
cleaned_test = refl
