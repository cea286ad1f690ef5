-- ===== src/Connectors/Github/Calls.antt =====
-- `execute` and `rollback` of apps/api/src/modules/connectors/framework/github.connector.ts.
use vowgrid_api.Common.{ℕ, String, ◌<>◌, true, Option, none, some, ◌++◌, if◌then◌else◌, str_eq}
use vowgrid_api.Env.{
  Env, Settled, resolved, threw, partial, IConnector, ConnectorExecuteResult,
  ConnectorRollbackResult, ConnectorRuntimeContext,
}
use vowgrid_api.Json.{Json, bool, number, text, array, object, end, field}
use vowgrid_api.Connectors.Secrets.{is_text}
use vowgrid_api.Connectors.Remote.{
  Remote, ◌>>=◌, member, entry, filled_texts, text_items, optional_field,
}
use vowgrid_api.Connectors.Github.{
  GithubConfig, parse_config, repository, github_request, number_in, get_issue_number,
  validate_config, validate, simulate,
}

module _ (env : Env) (net : Remote) where
  abbrev pub issues_path : GithubConfig → String
  issues_path c = "/repos/" <> repository c <> "/issues"

  abbrev pub issue_path : GithubConfig → ℕ → String
  issue_path c n = issues_path c <> "/" <> env.numbers.show n

  abbrev text_only : Option Json → Option Json
  text_only v = if is_text v then v else none

  abbrev pub issue_body : GithubConfig → Json → Json
  issue_body c parameters = object (
      optional_field "title" (entry "title" parameters) (
        optional_field "body" (text_only (entry "body" parameters)) (
          field "labels"
            (array (text_items (c.default_labels ++ filled_texts env (entry "labels" parameters))))
            end)))

  abbrev pub closed_state : Json
  closed_state = object (field "state" (text "closed") end)

  -- The members of an issue that an execution keeps.
  abbrev issue_data : GithubConfig → Json → Settled Json
  unfolding ◌>>=◌
  issue_data c response = do
    id ← member "id" response
    issue_number ← member "number" response
    url ← member "html_url" response
    state ← member "state" response
    resolved (
        object (
          field "repository" (text (repository c)) (
            optional_field "issueId" id (
              optional_field "issueNumber" issue_number
                (optional_field "issueUrl" url (optional_field "state" state end))))))

  abbrev comment_data : GithubConfig → ℕ → Json → Settled Json
  unfolding ◌>>=◌
  comment_data c issue response = do
    id ← member "id" response
    url ← member "html_url" response
    body ← member "body" response
    resolved (
        object (
          field "repository" (text (repository c)) (
            field "issueNumber" (number issue) (
              optional_field "commentId" id
                (optional_field "commentUrl" url (optional_field "body" body end))))))

  abbrev executed : ℕ → Json → ConnectorExecuteResult
  executed t payload = record { success = true; payload = payload; duration = net.elapsed t }

  -- The branch of `close_issue` and that of `add_issue_comment`, at the issue's number.
  abbrev pub close_issue : GithubConfig → ℕ → ℕ → Settled ConnectorExecuteResult
  unfolding ◌>>=◌
  close_issue c n t = do
    response ← github_request env net c "PATCH" (issue_path c n) (some closed_state) t
    payload ← issue_data c response
    resolved (executed t payload)

  abbrev pub add_comment : GithubConfig → Json → ℕ → ℕ → Settled ConnectorExecuteResult
  unfolding ◌>>=◌
  add_comment c parameters n t = do
    response ←
        github_request env net c "POST" (issue_path c n <> "/comments")
          (some (object (optional_field "body" (entry "body" parameters) end))) t
    payload ← comment_data c n response
    resolved (executed t payload)

  abbrev pub create_issue : GithubConfig → Json → ℕ → Settled ConnectorExecuteResult
  unfolding ◌>>=◌
  create_issue c parameters t = do
    response ← github_request env net c "POST" (issues_path c) (some (issue_body c parameters)) t
    payload ← issue_data c response
    resolved (executed t payload)

  unfoldable pub execute :
      String → Json → ConnectorRuntimeContext → ℕ → Settled ConnectorExecuteResult
  unfolding parse_config github_request number_in ◌>>=◌
  execute action parameters context t =
      let c = parse_config env context.config in
      let issue = get_issue_number env net parameters in
      if str_eq action "create_issue"
      then create_issue c parameters t
      else if str_eq action "add_issue_comment"
      then elim issue [
        | none ↦ threw "add_issue_comment requires issueNumber."
        | some n ↦ add_comment c parameters n t
      ]
      else if str_eq action "close_issue"
      then elim issue [
        | none ↦ threw "close_issue requires issueNumber."
        | some n ↦ close_issue c n t
      ]
      else threw ("Unsupported GitHub connector action \"" <> action <> "\".")

  abbrev reopened_data : ℕ → Json → Settled ConnectorRollbackResult
  unfolding ◌>>=◌
  reopened_data n response = do
    url ← member "html_url" response
    state ← member "state" response
    resolved (record {
      success = true;
      payload = object (
          field "issueNumber" (number n)
            (optional_field "issueUrl" url (optional_field "state" state end)));
    })

  -- The issue that an execution created is closed_state.
  unfoldable pub undo_issue : GithubConfig → ℕ → ℕ → Settled ConnectorRollbackResult
  unfolding github_request ◌>>=◌
  undo_issue c n t = do
    response ← github_request env net c "PATCH" (issue_path c n) (some closed_state) t
    reopened_data n response

  -- The comment that an execution added is deleted.
  unfoldable pub undo_comment : GithubConfig → ℕ → ℕ → Settled ConnectorRollbackResult
  unfolding github_request ◌>>=◌
  undo_comment c n t = do
    _ ←
        github_request env net c "DELETE" (issues_path c <> "/comments/" <> env.numbers.show n) none
          t
    resolved (record {
      success = true;
      payload = object (field "commentId" (number n) (field "deleted" (bool true) end));
    })

  unfoldable pub rollback :
      String → Json → Json → ConnectorRuntimeContext → ℕ → Settled ConnectorRollbackResult
  unfolding parse_config number_in undo_issue undo_comment
  rollback action parameters execution_data context t =
      let c = parse_config env context.config in
      if str_eq action "create_issue"
      then elim (number_in env net (entry "issueNumber" execution_data)) [
        | none ↦ threw "GitHub rollback could not resolve the created issue number."
        | some n ↦ undo_issue c n t
      ]
      else if str_eq action "add_issue_comment"
      then elim (number_in env net (entry "commentId" execution_data)) [
        | none ↦ threw "GitHub rollback could not resolve the created comment id."
        | some n ↦ undo_comment c n t
      ]
      else threw ("GitHub rollback is not available for \"" <> action <> "\".")

  abbrev pub github_connector : IConnector
  github_connector = record {
    rollback_support = partial;
    validate_config = some (validate_config env net);
    validate = validate env net;
    simulate = simulate env net;
    execute = execute;
    rollback = some rollback;
  }
