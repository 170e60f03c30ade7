-- ===== src/Database/Examples.antt =====
-- The database at concrete tables.
use secure_api_gateway.Prelude.{
  ◌≡◌, ◌≢◌, ◌⊎◌, ◌↔◌, true, false, not, String, List, none, [], ◌∷◌, refl, ap,
}
use secure_api_gateway.Prelude.Sorting.{has}
use secure_api_gateway.Prelude.Texts.{is_lower, is_digit}
use secure_api_gateway.Http.{
  Exn, ok, raised, audit_repository_backend_error, authorization_repository_backend_error,
}
use secure_api_gateway.Authorization.{normalize_permission_code, code_from}
use secure_api_gateway.Authorization.RoleNames.{normalize_role_name, is_role_name, is_role_char}
use secure_api_gateway.Database.{
  Postgres, answer_lost, rollback_with, ignored, rollback_quietly, Tables, has_pair, Database,
  works, frozenset, statement_with, execute, select, commit_with, commit, in_session,
}
use secure_api_gateway.Audit.{SecurityAuditEvent, login_failed, failure, no_details}
use secure_api_gateway.Database.Memory.{memory, memory_beside, insert, delete, without}
use secure_api_gateway.Database.Events
use secure_api_gateway.Database.Events.{
  EventQueries, append_failed, written, commit_event, append_event, append_event-stores,
}
use secure_api_gateway.Database.Roles.{
  rows_of, select_permission_codes, permission_exists, scalar_one_or_none, select_role_ids,
  select_user_ids, known_role, known_user, get_role_id, require_user, change_roles, assign_role,
  remove_role, has_permission, get_permission_codes_for_user,
}
use secure_api_gateway.Database.Roles.Lookups.{IsTarget}
use secure_api_gateway.Database.Roles.Outcome.{IsReported}
use secure_api_gateway.Database.Roles.Assigned.{IsAssigned, assign_role-IsAssigned}
use secure_api_gateway.Database.Roles.Queries.{grants}
use secure_api_gateway.Database.Roles.Granted.{
  has_permission-codes, assign_role-grants, remove_role-revokes,
}

abbrev same : String → String
same name = name

-- One user, without roles, and one role, which may read the roles of users.
abbrev tables : Tables
tables = record {
  users = "user-1" ∷ [];
  roles = ("role-1", "auditor") ∷ [];
  permissions = ("permission-1", "authorization:roles:read") ∷ [];
  user_roles = [];
  role_permissions = ("role-1", "permission-1") ∷ [];
}

abbrev fresh : Database memory
fresh = record { store = tables; faults = works ∷ [] }

abbrev assigned : Database memory
assigned = record { store = record tables { user_roles = ("user-1", "role-1") ∷ [] }; faults = [] }

assigns : assign_role memory same "user-1" "auditor" fresh ≡ (ok true, assigned)
unfolding assign_role change_roles get_role_id require_user normalize_role_name is_role_name
    is_role_char is_lower is_digit in_session select execute statement_with commit commit_with
    scalar_one_or_none select_role_ids select_user_ids known_role known_user rows_of insert
assigns = refl

removes :
    remove_role memory same "user-1" "auditor" assigned ≡ (ok true, record fresh { faults = [] })
unfolding remove_role change_roles get_role_id require_user normalize_role_name is_role_name
    is_role_char is_lower is_digit in_session select execute statement_with commit commit_with
    scalar_one_or_none select_role_ids select_user_ids known_role known_user rows_of delete without
removes = refl

read_normal :
    normalize_permission_code same "authorization:roles:read" ≡ ok "authorization:roles:read"
unfolding normalize_permission_code code_from is_lower is_digit
read_normal = refl

may_read : (has_permission memory same "user-1" "authorization:roles:read" assigned).0 ≡ ok true
unfolding has_permission normalize_permission_code code_from is_lower is_digit in_session select
    execute statement_with permission_exists
may_read = refl

codes_read :
    get_permission_codes_for_user memory same "user-1" assigned
    ≡ (ok ("authorization:roles:read" ∷ []), assigned)
unfolding get_permission_codes_for_user in_session select execute statement_with
    select_permission_codes rows_of frozenset
codes_read = refl

may_read_after :
    (has_permission memory same "user-1" "authorization:roles:read"
      (get_permission_codes_for_user memory same "user-1" assigned).1).0
    ≡ ok true
may_read_after = rw codes_read may_read

may_read_assigned :
    (has_permission memory same "user-1" "authorization:roles:read"
      (assign_role memory same "user-1" "auditor" fresh).1).0
    ≡ ok true
may_read_assigned = rw assigns may_read

refused_after :
    (has_permission memory same "user-1" "authorization:roles:read"
      (remove_role memory same "user-1" "auditor" assigned).1).0
    ≡ ok false
unfolding has_permission normalize_permission_code code_from is_lower is_digit in_session select
    execute statement_with permission_exists
refused_after = rw removes refl

assign_role-IsAssigned_example :
    let (r, d') = assign_role memory same "user-1" "auditor" fresh in
    ((role_id : String) × IsTarget same "user-1" "auditor" role_id tables
      × (r ≡ ok (not (has_pair "user-1" role_id [])))
      × IsAssigned "user-1" role_id tables d'.store)
    ⊎ ((e : Exn) × (r ≡ raised e)
        × IsReported same "user-1" "auditor" tables e
        × ((d'.store ≡ tables)
            ⊎ ((e ≡ authorization_repository_backend_error)
                × ((role_id : String) × IsTarget same "user-1" "auditor" role_id tables
                    × IsAssigned "user-1" role_id tables d'.store))))
assign_role-IsAssigned_example = assign_role-IsAssigned memory same "user-1" "auditor" fresh

has_permission-codes_example :
    true ≡ has "authorization:roles:read" ("authorization:roles:read" ∷ [])
has_permission-codes_example =
    has_permission-codes memory same "user-1" "authorization:roles:read" "authorization:roles:read"
      ("authorization:roles:read" ∷ []) true assigned read_normal (ap (λ r. r.0) codes_read)
      may_read_after

assign_role-grants_example :
    (role_id : String) × IsTarget same "user-1" "auditor" role_id tables
    × (true ≡ true ↔ (
        (◌≡◌ {A = String} "user-1" "user-1"
          × (grants tables role_id "authorization:roles:read" ≡ true))
        ⊎ (permission_exists "user-1" "authorization:roles:read" tables ≡ true)))
assign_role-grants_example =
    assign_role-grants memory same "user-1" "auditor" "user-1" "authorization:roles:read"
      "authorization:roles:read" true true fresh (ap (λ r. r.0) assigns) read_normal
      may_read_assigned

remove_role-revokes_example :
    (role_id : String) × IsTarget same "user-1" "auditor" role_id assigned.store
    × (false ≡ true ↔ (
        (role : String) × (role ≢ role_id)
        × (has_pair "user-1" role assigned.store.user_roles ≡ true)
        × (grants assigned.store role "authorization:roles:read" ≡ true)))
remove_role-revokes_example =
    remove_role-revokes memory same "user-1" "auditor" "authorization:roles:read"
      "authorization:roles:read" true false assigned (ap (λ r. r.0) removes) read_normal
      refused_after

-- Events in memory.
abbrev with_events : Postgres
with_events = memory_beside (List SecurityAuditEvent)

abbrev event_queries : EventQueries with_events
event_queries = record {
  events = λ s. s.1;
  insert_event = λ e s. (none, (s.0, e ∷ s.1));
  insert-events = λ e s h. refl;
}

abbrev login_event : SecurityAuditEvent
login_event = record {
  event_type = login_failed;
  outcome = failure;
  request_id = "request-1";
  details = no_details;
}

-- The INSERT works, and the answer of the commit is lost.
abbrev no_events : Database with_events
no_events = record { store = (tables, []); faults = works ∷ answer_lost ∷ [] }

answer_was_lost : append_event with_events event_queries login_event no_events ≡ (
  raised audit_repository_backend_error,
  record { store = (tables, login_event ∷ []); faults = [] },
)
unfolding append_event commit_event written append_failed in_session execute statement_with commit
    commit_with rollback_quietly rollback_with ignored Events.backend_error
answer_was_lost = refl

append_event-stores_example :
    let (r, d') = append_event with_events event_queries login_event no_events in
    ((r ≡ ok tt) × (d'.store.1 ≡ login_event ∷ []))
    ⊎ ((r ≡ raised audit_repository_backend_error)
        × ((d'.store ≡ no_events.store) ⊎ (d'.store.1 ≡ login_event ∷ [])))
append_event-stores_example = append_event-stores with_events event_queries login_event no_events
