-- ===== src/Audit/Recording.antt =====
-- Recording an event: what is recorded, and that the database cannot change what the caller does.
use secure_api_gateway.Prelude.{
  ◌≡◌, ◌⊎◌, inl, inr, Bool, true, false, Option, none, some, String, List, [], ◌∷◌, arith, refl,
  sym, ◌∙◌,
}
use secure_api_gateway.Prelude.Lists.{All}
use secure_api_gateway.Http.{
  Result-cases, pure, bind-Keeps, try_except-Keeps, Result, ok, raised, Exn,
  audit_repository_backend_error, Action,
}
use secure_api_gateway.Audit.{
  AuditEventType, AuditOutcome, Details, SecurityAuditEvent, details_valid,
  create_security_audit_event, Request, LogLine, logged, persistence_failed, Trail, emit,
  append_with, append_event, record_event, not_persisted, record_security_metric_best_effort,
  record_security_event_best_effort, trusted_event, get_trusted_request_id,
  record_request_security_event,
}

-- Whether a stored event is one that SecurityAuditEvent accepts.
abbrev pub IsAccepted : SecurityAuditEvent → Type 0
IsAccepted event = details_valid event.details ≡ true

abbrev pub event_of : LogLine → SecurityAuditEvent
event_of (logged event) = event
event_of (persistence_failed event) = event

-- The event that the newest line of the log is about.
abbrev pub newest : List LogLine → Option SecurityAuditEvent
newest [] = none
newest (line ∷ log) = some (event_of line)

-- AuditRepository raises no exception but AuditRepositoryBackendError.
abbrev pub KeepsContract : Trail → Type 0
KeepsContract t =
    All (λ answer. (answer ≡ none) ⊎ (answer ≡ some audit_repository_backend_error)) t.storage

-- The lines and rows of a trail are about accepted events.
pub record IsClean (t : Trail) : Type 0 where
  pub log : All (λ line. IsAccepted (event_of line)) t.log
  pub rows : All IsAccepted t.rows

append-contract :
    (storage : List (Option Exn)) (event : SecurityAuditEvent) (t : Trail)
    → All (λ answer. (answer ≡ none) ⊎ (answer ≡ some audit_repository_backend_error)) storage
    → let (r, t') = append_with storage event t in
      ((r ≡ ok tt) ⊎ (r ≡ raised audit_repository_backend_error))
      × (t'.log ≡ t.log)
      × (All
          (λ answer. (answer ≡ none) ⊎ (answer ≡ some audit_repository_backend_error))
          t'.storage)
unfolding append_with
append-contract [] event t h = (inl refl, refl, tt)
append-contract (none ∷ rest) event t h = (inl refl, refl, h.1)
append-contract (some e ∷ rest) event t h = (ground (arith, h.0), refl, h.1)

best_effort :
    (has : Bool) (event : SecurityAuditEvent) (t : Trail)
    → KeepsContract t
    → let (r, t') = record_security_event_best_effort has event t in
      (r ≡ ok tt) × (newest t'.log ≡ some event) × KeepsContract t'
unfolding record_security_event_best_effort record_event append_event emit not_persisted
best_effort false event t h = (refl, refl, h)
best_effort true event t h = ground (arith, append-contract t.storage event t h)

module _ (parse_uuid : String → Option String) (request : Request) (event_type : AuditEventType)
    (outcome : AuditOutcome) (d : Details) where
  abbrev pub made : Result SecurityAuditEvent
  made = trusted_event parse_uuid request event_type outcome d

  abbrev recorded : Action Trail SecurityAuditEvent
  recorded = record_request_security_event parse_uuid request event_type outcome d

  record_known :
      (event : SecurityAuditEvent) (t : Trail)
      → made ≡ ok event
      → KeepsContract t
      → let (r, t') = recorded t in (r ≡ ok event) × (newest t'.log ≡ some event) × KeepsContract t'
  unfolding record_request_security_event record_security_metric_best_effort
  record_known event t e h =
      let counted = record t { metrics = (event_type, outcome) ∷ t.metrics } in
      let (done, line, kept) = best_effort request.has_audit_service event counted h in
      rw e (ground (arith, done, line, kept))

  record_unknown : (e : Exn) (t : Trail) → made ≡ raised e → recorded t ≡ (raised e, t)
  unfolding record_request_security_event
  record_unknown e t h = rw h refl

  -- While the audit repository raises no exception but its own, recording an event returns the
  -- event that its fields make, or raises the exception that they raise, whether or not the
  -- database stores it. An event that is made is what the newest line of the log is about;
  -- otherwise nothing is recorded.
  pub record-made :
      (t : Trail)
      → KeepsContract t
      → let (r, t') = recorded t in
        (r ≡ made)
        × KeepsContract t'
        × ((event : SecurityAuditEvent) → made ≡ ok event → newest t'.log ≡ some event)
        × ((e : Exn) → made ≡ raised e → t' ≡ t)
  record-made t h = elim (Result-cases made) [
    | inl (event, e) ↦
        let (done, line, kept) = record_known event t e h in
        (
          done ∙ sym e,
          kept,
          λ event' e'. ground (arith, line, e, e'),
          λ x e'. ground (arith, e, e'),
        )
    | inr (x, e) ↦
        let same = record_unknown x t e in
        (
          ground (arith, same, e),
          ground (arith, same),
          λ event' e'. ground (arith, e, e'),
          λ x' e'. ground (arith, same),
        )
  ]

create-IsAccepted :
    (event_type : AuditEventType) (outcome : AuditOutcome) (id : String) (d : Details)
    (event : SecurityAuditEvent)
    → create_security_audit_event event_type outcome id d ≡ ok event
    → IsAccepted event
unfolding create_security_audit_event
create-IsAccepted event_type outcome id d event e = ground arith

trusted-IsAccepted :
    (parse_uuid : String → Option String) (request : Request) (event_type : AuditEventType)
    (outcome : AuditOutcome) (d : Details) (event : SecurityAuditEvent)
    → trusted_event parse_uuid request event_type outcome d ≡ ok event
    → IsAccepted event
unfolding trusted_event
trusted-IsAccepted parse_uuid request event_type outcome d event e =
    elim (Result-cases (get_trusted_request_id parse_uuid request)) [
      | inl (uuid, h) ↦ create-IsAccepted event_type outcome uuid d event (ground (arith, h, e))
      | inr (x, h) ↦ ground (arith, h, e)
    ]

append-IsClean :
    (storage : List (Option Exn)) (event : SecurityAuditEvent) (t : Trail)
    → IsAccepted event
    → IsClean t
    → IsClean (append_with storage event t).1
unfolding append_with
append-IsClean [] event t a c = record { log = c.log; rows = (a, c.rows) }
append-IsClean (none ∷ rest) event t a c = record { log = c.log; rows = (a, c.rows) }
append-IsClean (some e ∷ rest) event t a c = record { log = c.log; rows = c.rows }

after_failure :
    (x : Exn) (event : SecurityAuditEvent) (t : Trail)
    → IsAccepted event
    → IsClean t
    → IsClean (not_persisted x event t).1
unfolding not_persisted emit
after_failure audit_repository_backend_error event t a c = record {
  log = (a, c.log);
  rows = c.rows;
}
after_failure _ event t a c = c

best_effort-IsClean :
    (has : Bool) (event : SecurityAuditEvent) (t : Trail)
    → IsAccepted event
    → IsClean t
    → IsClean (record_security_event_best_effort has event t).1
unfolding record_security_event_best_effort record_event append_event emit not_persisted
best_effort-IsClean false event t a c = record { log = (a, c.log); rows = c.rows }
best_effort-IsClean true event t a c =
    try_except-Keeps IsClean (record_event event) (λ x. not_persisted x event)
      (λ s h.
        append-IsClean s.storage event (record s { log = logged event ∷ s.log }) a
          (record { log = (a, h.log); rows = h.rows }))
      (λ x s h. after_failure x event s a h) t c

-- Whatever a handler records, and whatever fails on the way, the lines of the log and the stored
-- rows stay about events that SecurityAuditEvent accepts.
pub record-IsClean :
    (parse_uuid : String → Option String) (request : Request) (event_type : AuditEventType)
    (outcome : AuditOutcome) (d : Details) (t : Trail)
    → IsClean t
    → IsClean (record_request_security_event parse_uuid request event_type outcome d t).1
unfolding record_request_security_event record_security_metric_best_effort
record-IsClean parse_uuid request event_type outcome d t c =
    elim (Result-cases (trusted_event parse_uuid request event_type outcome d)) [
      | inl (event, e) ↦ rw e (
          bind-Keeps IsClean (record_security_event_best_effort request.has_audit_service event)
            (λ _. pure event)
            (λ s h.
              best_effort-IsClean request.has_audit_service event s
                (trusted-IsAccepted parse_uuid request event_type outcome d event e) h)
            (λ _ s h. h) (record t { metrics = (event_type, outcome) ∷ t.metrics })
            (record { log = c.log; rows = c.rows }))
      | inr (x, e) ↦ rw e c
    ]
