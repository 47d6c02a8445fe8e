-- ===== src/Redaction/Stored.antt =====
-- remote_agent_connector/redaction.py and store.py: the lemmas on the audit events that are stored.
use remote_agent_connector.Prelude.{String, List, [], ◌∷◌, ◌≡◌, sym, subst, arith}
use remote_agent_connector.Prelude.Table.{All, All-append}
use remote_agent_connector.Store.{Store, AuditRow, empty}
use remote_agent_connector.Store.Tokens
use remote_agent_connector.Store.Challenges
use remote_agent_connector.Store.Devices
use remote_agent_connector.Store.Instances
use remote_agent_connector.Store.Requests
use remote_agent_connector.Store.Audit.{append_audit}
use remote_agent_connector.Store.Ops
use remote_agent_connector.Store.Ops.{Op, apply, run}
use remote_agent_connector.Redaction.{redact_audit_value}
use remote_agent_connector.Redaction.Clean.{IsClean, redact_audit_value-IsClean}

module _ (sha256 substitute : String → String) where
  abbrev pub HasCleanAudit : Store → Type 0
  HasCleanAudit s = All (λ (r : AuditRow). IsClean substitute r.details) s.agent_audit_events

  kept :
      (rows rows' : List AuditRow)
      → rows' ≡ rows
      → All (λ (r : AuditRow). IsClean substitute r.details) rows
      → All (λ (r : AuditRow). IsClean substitute r.details) rows'
  kept rows rows' e h = subst (All (λ (r : AuditRow). IsClean substitute r.details)) (sym e) h

  apply-HasCleanAudit :
      (op : Op) (s : Store)
      → HasCleanAudit s
      → HasCleanAudit (apply sha256 (redact_audit_value substitute) op s)
  unfolding apply Tokens.issue_enrollment_token Tokens.consume_enrollment_token_detailed
      Tokens.check_token Challenges.create_challenge Challenges.consume_challenge
      Devices.enroll_device Devices.revoke_device Devices.delete_revoked_device
      Devices.set_display_label Instances.upsert_presence Instances.heartbeat
      Instances.disconnect_instance Instances.mark_stale_instances Requests.claim_request
      Requests.insert_or_ignore Requests.complete_request append_audit
  apply-HasCleanAudit (Ops.issue c p l n now raw) s h =
      kept s.agent_audit_events
        (apply sha256 (redact_audit_value substitute) (Ops.issue c p l n now raw)
          s).agent_audit_events
        (ground arith) h
  apply-HasCleanAudit (Ops.use_token raw c now) s h =
      kept s.agent_audit_events
        (apply sha256 (redact_audit_value substitute) (Ops.use_token raw c now)
          s).agent_audit_events
        (ground arith) h
  apply-HasCleanAudit (Ops.challenge n now drawn) s h =
      kept s.agent_audit_events
        (apply sha256 (redact_audit_value substitute) (Ops.challenge n now drawn)
          s).agent_audit_events
        (ground arith) h
  apply-HasCleanAudit (Ops.use_challenge id text now) s h =
      kept s.agent_audit_events
        (apply sha256 (redact_audit_value substitute) (Ops.use_challenge id text now)
          s).agent_audit_events
        (ground arith) h
  apply-HasCleanAudit (Ops.enroll c key l p now platform) s h =
      kept s.agent_audit_events
        (apply sha256 (redact_audit_value substitute) (Ops.enroll c key l p now platform)
          s).agent_audit_events
        (ground arith) h
  apply-HasCleanAudit (Ops.revoke c now) s h =
      kept s.agent_audit_events
        (apply sha256 (redact_audit_value substitute) (Ops.revoke c now) s).agent_audit_events
        (ground arith) h
  apply-HasCleanAudit (Ops.delete c) s h =
      kept s.agent_audit_events
        (apply sha256 (redact_audit_value substitute) (Ops.delete c) s).agent_audit_events
        (ground arith) h
  apply-HasCleanAudit (Ops.rename c l now) s h =
      kept s.agent_audit_events
        (apply sha256 (redact_audit_value substitute) (Ops.rename c l now) s).agent_audit_events
        (ground arith) h
  apply-HasCleanAudit (Ops.presence c id g epoch caps now) s h =
      kept s.agent_audit_events
        (apply sha256 (redact_audit_value substitute) (Ops.presence c id g epoch caps now)
          s).agent_audit_events
        (ground arith) h
  apply-HasCleanAudit (Ops.beat id g epoch now) s h =
      kept s.agent_audit_events
        (apply sha256 (redact_audit_value substitute) (Ops.beat id g epoch now)
          s).agent_audit_events
        (ground arith) h
  apply-HasCleanAudit (Ops.disconnect id g now) s h =
      kept s.agent_audit_events
        (apply sha256 (redact_audit_value substitute) (Ops.disconnect id g now)
          s).agent_audit_events
        (ground arith) h
  apply-HasCleanAudit (Ops.mark_stale cutoff) s h =
      kept s.agent_audit_events
        (apply sha256 (redact_audit_value substitute) (Ops.mark_stale cutoff) s).agent_audit_events
        (ground arith) h
  apply-HasCleanAudit (Ops.claim k r tool digest now) s h =
      kept s.agent_audit_events
        (apply sha256 (redact_audit_value substitute) (Ops.claim k r tool digest now)
          s).agent_audit_events
        (ground arith) h
  apply-HasCleanAudit (Ops.complete k status result now) s h = h
  apply-HasCleanAudit (Ops.audit e now id) s h =
      All-append _ s.agent_audit_events _ h (redact_audit_value-IsClean substitute e.details)

  run_from :
      (ops : List Op) (s : Store)
      → HasCleanAudit s
      → HasCleanAudit (run sha256 (redact_audit_value substitute) ops s)
  unfolding run
  run_from [] s h = h
  run_from (op ∷ ops) s h =
      run_from ops (apply sha256 (redact_audit_value substitute) op s) (apply-HasCleanAudit op s h)

  -- After any history of calls, the details of every audit event that is stored hold nothing under a
  -- sensitive key, at any depth, and no text that the substitution has not made.
  pub run-HasCleanAudit :
      (ops : List Op) → HasCleanAudit (run sha256 (redact_audit_value substitute) ops empty)
  run-HasCleanAudit ops = run_from ops empty tt
