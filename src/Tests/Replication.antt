-- ===== src/Tests/Replication.antt =====
-- What the node of `Tests` hears from another, and the tables of the validators.
use state.Common.{
  ℕ, ◌≡◌, refl, List, [], ◌∷◌, ◌++◌, map, false, String, ◌&&◌, ◌||◌, ◌==◌, is_some, some, none,
  for_each, if◌then◌else◌,
}
use state.World.{World, session_on_send}
use state.Request.{on_session}
use state.Store.{get_client}
use state.Store.Channels.{holds}
use state.Sync.{sync}
use state.Sync.Messages.{stamped, sessions_report}
use state.Validators.Schema.{validate, judged, first_broken, schema, publish, validate-schema}
use state.Replication.{
  Announcement, joins, leaves, subscribes, unsubscribes, Refines, carry_out, session_of,
}
use state.Replication.Spelled.{request as spelled}
use state.Replication.Heard.{hear, directory, hear-requests}
use state.Replication.Sync.{own, directory_report, hear-sync}
use state.Sample.{sample}
use state.Sample.Documents.{print}
use state.Tests.{node, frame, params, request}

-- A client comes, subscribes, and goes; its subscription ends only in the last message.
abbrev visit : List (ℕ × Announcement)
visit =
    (7, joins 40) ∷ (8, subscribes 40 "news") ∷ (9, leaves 40) ∷ (10, unsubscribes 40 "news") ∷ []

hear-requests_example :
    Refines
      (for_each (carry_out 5) (map (λ a. a.1) visit) (directory node))
      (hear 5 (map (λ a. spelled a.0 a.1) visit) node)
hear-requests_example = hear-requests 5 visit node

-- The node as another one that knows nothing yet.
abbrev newcomer : World
newcomer = record node { id = 2; clients = []; subscriptions = [] }

hear-sync_example :
    let os = directory_report 0 false node in
    let heard = hear 9 os newcomer in
    ((sync 0 false node).posted
      ≡ node.posted
        ++ (if (node.session 0).is_open
            then map
                (λ o. session_on_send 0 (print o))
                (stamped node.draws (sessions_report 0 false node) ++ os)
            else []))
    × ((u : ℕ)
        → session_of (get_client u heard) ≡ (
            if is_some (get_client u newcomer)
            then session_of (get_client u newcomer)
            else if own u node
            then some 9
            else none))
    × ((s c : ℕ) (ch : String)
        → holds s c ch heard ≡ (9 == s && holds node.id c ch node || holds s c ch newcomer))
hear-sync_example = hear-sync 0 9 false node newcomer

validate-schema_example :
    validate publish (request "publish" on_session 5) frame
    ≡ judged
        (request "publish" on_session 5)
        (first_broken (schema publish on_session) params)
        frame
validate-schema_example = validate-schema (request "publish" on_session 5) params publish frame refl
