-- ===== src/Evals/Scoring.antt =====
-- packages/evals/src/evals/cases.py and scoring.py, over the type `F` of floats. A score is 1.0 or 0.0:
-- the number 1 or 0.
use governed_agent_platform.Prelude.{
  ℕ, ◌+◌, String, ◌<>◌, Bool, true, false, not, ◌&&◌, ◌||◌, Option, none, some, List, [], ◌∷◌,
  length, leb, ◌==◌, string_eq, if◌then◌else◌, Payload,
}

pub record EvalExpectation (F : Type 0) : Type 0 where
  pub tool_name : Option String
  pub requires_approval : Option Bool
  pub min_citations : ℕ
  pub response_contains : List String
  pub response_format : Option String
  pub max_latency_ms : ℕ
  pub max_cost_usd : Option F

pub record EvalCase (F : Type 0) : Type 0 where
  pub key : String
  pub version : String
  pub description : String
  pub input_text : String
  pub tenant_id : String
  pub context : Payload
  pub expectation : EvalExpectation F
  pub tags : List String

abbrev pub persisted_key : {F : Type 0} → EvalCase F → String
persisted_key case = case.key <> ":" <> case.version

pub record ScoreCard : Type 0 where
  pub groundedness : ℕ
  pub tool_choice : ℕ
  pub approval_trigger : ℕ
  pub response_usefulness : ℕ
  pub format_correctness : ℕ
  pub citation_presence : ℕ
  pub latency_signal : ℕ
  pub cost_signal : ℕ

-- `total_score`, in eighths.
unfoldable pub total_score : ScoreCard → ℕ
total_score c =
    c.groundedness + c.tool_choice + c.approval_trigger + c.response_usefulness
    + c.format_correctness + c.citation_presence + c.latency_signal + c.cost_signal

-- `scorecard.total_score >= 0.75`
abbrev pub is_passed : ScoreCard → Bool
is_passed c = leb 6 (total_score c)

pub record PlatformEvalOutput (F : Type 0) : Type 0 where
  pub response_text : String
  pub tool_name : Option String
  pub requires_approval : Bool
  pub citations : List Payload
  pub latency_ms : ℕ
  pub estimated_cost_usd : Option F

-- What the scores use of the libraries: `lower`, `needle in text`, and `<=` on floats.
pub record ScoringLibrary (F : Type 0) : Type 0 where
  pub lower : String → String
  pub contains : String → String → Bool
  pub le : F → F → Bool

abbrev pub binary : Bool → ℕ
binary true = 1
binary false = 0

abbrev pub same_flag : Bool → Bool → Bool
same_flag true b = b
same_flag false b = not b

-- `expected is None or actual == expected`
abbrev pub is_expected_tool : Option String → Option String → Bool
is_expected_tool none actual = true
is_expected_tool (some expected) none = false
is_expected_tool (some expected) (some actual) = actual == expected

abbrev pub is_expected_flag : Option Bool → Bool → Bool
is_expected_flag none actual = true
is_expected_flag (some expected) actual = same_flag actual expected

module _ {F : Type 0} (l : ScoringLibrary F) where
  -- `all(token.lower() in response_lower for token in tokens)`
  unfoldable pub contains_all : List String → String → Bool
  contains_all [] text = true
  contains_all (token ∷ tokens) text = l.contains (l.lower token) text && contains_all tokens text

  abbrev pub has_bullets : String → Bool
  has_bullets text = l.contains "\n-" text || l.contains "\n1." text

  -- `_matches_format`
  unfoldable pub matches_format : String → Option String → Bool
  matches_format text none = true
  matches_format text (some expected) =
      if expected == "bullets"
      then has_bullets text
      else if expected == "paragraph"
      then not (l.contains "\n-" text) && not (l.contains "\n1." text)
      else false

  -- `_matches_cost`
  unfoldable pub matches_cost : Option F → Option F → Bool
  matches_cost none none = false
  matches_cost (some actual) none = true
  matches_cost none (some limit) = false
  matches_cost (some actual) (some limit) = l.le actual limit

  unfoldable pub score_case : EvalCase F → PlatformEvalOutput F → ScoreCard
  unfolding contains_all matches_format matches_cost
  score_case case output =
      let expected : EvalExpectation F = case.expectation in
      let enough : ℕ = binary (leb expected.min_citations (length output.citations)) in
      record {
        groundedness = enough;
        tool_choice = binary (is_expected_tool expected.tool_name output.tool_name);
        approval_trigger =
            binary (is_expected_flag expected.requires_approval output.requires_approval);
        response_usefulness =
            binary (contains_all expected.response_contains (l.lower output.response_text));
        format_correctness = binary (matches_format output.response_text expected.response_format);
        citation_presence = enough;
        latency_signal = binary (leb output.latency_ms expected.max_latency_ms);
        cost_signal = binary (matches_cost output.estimated_cost_usd expected.max_cost_usd);
      }
