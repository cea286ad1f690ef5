-- ===== src/Connectors/Github.antt =====
-- apps/api/src/modules/connectors/framework/github.connector.ts: issues of one repository.
pub mod Calls
pub mod Laws
use vowgrid_api.Common.{
  ℕ, ◌-◌, String, ◌<>◌, Bool, true, false, not, ◌&&◌, ◌||◌, Option, none, some, List, [], ◌∷◌, ◌++◌,
  if◌then◌else◌, str_eq, includes, or_default,
}
use vowgrid_api.Env.{
  Env, Settled, resolved, threw, low, medium, partly_reversible, not_reversible,
  ConnectorValidateResult, ConnectorSimulateResult, ConnectorRuntimeContext,
}
use vowgrid_api.Json.{Json, null, number, text, array, object, nil, cons, end, field, get_field}
use vowgrid_api.Connectors.Secrets.{is_text}
use vowgrid_api.Connectors.Remote.{
  Remote, Request, Response, ◌>>=◌, member, entry, trimmed, is_empty, filled_text, filled_texts,
  error_if, validation_of,
}

pub record GithubConfig : Type 0 where
  pub owner : String
  pub repo : String
  pub token : String
  pub api_base_url : String
  pub default_labels : List String

-- `text.replace(/\/$/, '')`
abbrev without_slash : Env → String → String
without_slash env s = if env.ends_with s "/" then env.first_chars (env.text_length s - 1) s else s

abbrev base_url_of : Env → Option String → String
base_url_of env none = "https://api.github.com"
base_url_of env (some s) = without_slash env (env.trim s)

unfoldable pub parse_config : Env → Json → GithubConfig
parse_config env config = record {
  owner = trimmed env (entry "owner" config);
  repo = trimmed env (entry "repo" config);
  token = trimmed env (entry "token" config);
  api_base_url = base_url_of env (filled_text env (entry "apiBaseUrl" config));
  default_labels = filled_texts env (entry "defaultLabels" config);
}

-- `${config.owner}/${config.repo}`
abbrev pub repository : GithubConfig → String
repository c = c.owner <> "/" <> c.repo

abbrev build_headers : GithubConfig → List (String × String)
build_headers c =
    ("Authorization", "Bearer " <> c.token)
    ∷ ("Accept", "application/vnd.github+json")
    ∷ ("Content-Type", "application/json")
    ∷ ("User-Agent", "VowGrid")
    ∷ ("X-GitHub-Api-Version", "2022-11-28")
    ∷ []

module _ (env : Env) (net : Remote) where
  abbrev pub request_to : GithubConfig → String → String → Option Json → Request
  request_to c method path body = record {
    url = c.api_base_url <> path;
    method = method;
    headers = build_headers c;
    body = elim body [ none ↦ none | some v ↦ some (env.stringify v) ];
    timeout_ms = none;
  }

  -- `response.json().catch(() => ({}))`
  abbrev pub json_of : Response → Json
  json_of r = elim (env.parse_json r.body) [ threw e ↦ object end | resolved v ↦ v ]

  -- `json.message ?? default`, as the message of an `Error`.
  abbrev refusal : String → ℕ → Option Json → String
  refusal path status (some (text s)) = s
  refusal path status (some null) =
      "GitHub request to " <> path <> " failed with status " <> env.decimal status <> "."
  refusal path status (some v) = net.string_of v
  refusal path status none =
      "GitHub request to " <> path <> " failed with status " <> env.decimal status <> "."

  unfoldable pub github_request : GithubConfig → String → String → Option Json → ℕ → Settled Json
  unfolding ◌>>=◌
  github_request c method path body t = do
    response ← net.fetch t (request_to c method path body)
    let json = json_of response
    if response.is_ok
        then resolved json
        else (do message ← member "message" json; threw (refusal path response.status message))

  -- A number, or a text of digits.
  unfoldable pub number_in : Option Json → Option ℕ
  number_in (some (number n)) = some n
  number_in (some (text s)) = if net.is_digits s then some (env.numbers.of_text s) else none
  number_in _ = none

  abbrev pub get_issue_number : Json → Option ℕ
  get_issue_number parameters = number_in (entry "issueNumber" parameters)

  abbrev pub is_missing : Option ℕ → Bool
  is_missing none = true
  is_missing (some _) = false

  abbrev config_errors : GithubConfig → List String
  config_errors c =
      error_if (is_empty c.owner) "GitHub connector config requires \"owner\"."
      ++ error_if (is_empty c.repo) "GitHub connector config requires \"repo\"."
      ++ error_if (is_empty c.token) "GitHub connector config requires \"token\"."

  abbrev pub validate_config : Json → Settled ConnectorValidateResult
  validate_config config = resolved (validation_of (config_errors (parse_config env config)))

  abbrev pub is_action : String → Bool
  is_action action =
      str_eq action "create_issue"
      || str_eq action "add_issue_comment"
      || str_eq action "close_issue"

  abbrev is_blank : Option Json → Bool
  is_blank v = elim (filled_text env v) [ none ↦ true | some _ ↦ false ]

  abbrev comment_errors : Json → List String
  comment_errors parameters =
      error_if (is_missing (get_issue_number parameters))
        "add_issue_comment requires \"issueNumber\"."
      ++ error_if (is_blank (entry "body" parameters))
          "add_issue_comment requires a non-empty \"body\"."

  unfoldable pub action_errors : String → Json → List String
  unfolding number_in
  action_errors action parameters =
      error_if (not (is_action action))
        "GitHub connector supports create_issue, add_issue_comment, and close_issue."
      ++ error_if (str_eq action "create_issue" && not (is_text (entry "title" parameters)))
          "create_issue requires a string \"title\"."
      ++ (if str_eq action "add_issue_comment" then comment_errors parameters else [])
      ++ error_if (str_eq action "close_issue" && is_missing (get_issue_number parameters))
          "close_issue requires \"issueNumber\"."

  unfoldable pub validate :
      String → Json → ConnectorRuntimeContext → ℕ → Settled ConnectorValidateResult
  unfolding parse_config action_errors
  validate action parameters context t = resolved (
      validation_of
        (config_errors (parse_config env context.config) ++ action_errors action parameters))

  abbrev resource : String → String → String → Json
  resource kind id name =
      object (field "type" (text kind) (field "id" (text id) (field "name" (text name) end)))

  abbrev number_or_null : Option ℕ → Json
  number_or_null none = null
  number_or_null (some n) = number n

  unfoldable pub simulate :
      String → Json → ConnectorRuntimeContext → ℕ → Settled ConnectorSimulateResult
  unfolding parse_config number_in
  simulate action parameters context t =
      let c = parse_config env context.config in
      let issue = get_issue_number parameters in
      let closes = str_eq action "close_issue" in
      resolved (record {
        summary = "GitHub connector will " <> net.spaced action <> " in " <> repository c <> ".";
        estimated_impact = if closes then medium else low;
        risk_level = if closes then medium else low;
        reversibility =
            if str_eq action "create_issue" || str_eq action "add_issue_comment"
            then partly_reversible
            else not_reversible;
        affected_resources = array (
            cons (resource "github_repository" (repository c) context.connector_name) (elim issue [
              | none ↦ nil
              | some n ↦
                  cons
                    (resource "github_issue" (repository c <> "#" <> env.numbers.show n)
                      ("Issue #" <> env.numbers.show n))
                    nil
            ]));
        diff_preview = some (
            object (
              field "repository" (text (repository c))
                (field "action" (text action) (field "issueNumber" (number_or_null issue) end))));
        warnings = some (
            (if closes
              then "Closing an issue is treated as a forward change and is not automatically reversible."
              else "GitHub rollback is partial and depends on the action type.")
            ∷ []);
      })
