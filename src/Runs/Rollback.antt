-- ===== src/Runs/Rollback.antt =====
-- src/leon_control_plane/store.py: `_insert_rollback_record`, which every reversible action goes through.
use leon_ai_assistant.Base.{
  Bool, true, false, ◌&&◌, ◌||◌, not, String, List, [], ◌∷◌, str_eq, any, ◌==◌,
}
use leon_ai_assistant.Base.Text.{one_of, strip}
use leon_ai_assistant.Approvals.{blank}
use leon_ai_assistant.Approvals.Outcome.{Outcome, did, require, rollback_refused, id_taken, ◌>>◌}
use leon_ai_assistant.Runs.{
  RollbackKind, cache, local_persistent, code_system, external_write, RollbackRow, Tools,
}

abbrev pub is_cache : RollbackKind → Bool
is_cache cache = true
is_cache _ = false

abbrev pub is_local_persistent : RollbackKind → Bool
is_local_persistent local_persistent = true
is_local_persistent _ = false

abbrev pub is_code_system : RollbackKind → Bool
is_code_system code_system = true
is_code_system _ = false

abbrev pub is_external_write : RollbackKind → Bool
is_external_write external_write = true
is_external_write _ = false

-- The texts as they are stored.
unfoldable pub cleaned : Tools → RollbackRow → RollbackRow
cleaned t r = record r {
  status = strip r.status;
  risk_class = strip r.risk_class;
  target_type = t.redact (strip r.target_type);
  target_ref = t.redact (strip r.target_ref);
  operation = t.redact (strip r.operation);
  summary = t.redact (strip r.summary);
  patch_snapshot = r.patch_snapshot;
}

abbrev is_empty : String → Bool
is_empty s = str_eq s ""

unfoldable pub supported : RollbackRow → Bool
supported r =
    not (
      is_empty r.target_type || is_empty r.target_ref || is_empty r.operation || is_empty r.summary)
    && not (is_cache r.kind && not r.deletion_supported)
    && not (is_local_persistent r.kind && not (r.has_before && r.has_after))
    && not (
        is_local_persistent r.kind
        && not (r.undo_supported || r.deletion_supported || r.scrub_supported))
    && not (is_code_system r.kind && (blank r.patch_snapshot || not r.has_tests))
    && not (is_external_write r.kind && not r.has_audit_details)

abbrev rollback_statuses : List String
rollback_statuses =
    "prepared" ∷ "delete_supported" ∷ "undo_supported" ∷ "scrub_supported"
    ∷ "compensation_available" ∷ "compensation_unavailable" ∷ "applied" ∷ "deleted" ∷ "scrubbed"
    ∷ "not_applicable" ∷ []

unfoldable pub insert_rollback_record :
    Tools → RollbackRow → List RollbackRow → Outcome (List RollbackRow)
unfolding cleaned supported
insert_rollback_record t r rows = do
  let c = cleaned t r
  require (one_of c.status rollback_statuses) rollback_refused
  require (one_of c.risk_class ("R1" ∷ "R2" ∷ "R3" ∷ "R4" ∷ "R5" ∷ [])) rollback_refused
  require (supported c) rollback_refused
  require (not (any (λ (x : RollbackRow). x.id == r.id) rows)) id_taken
  did (record c { patch_snapshot = t.redact c.patch_snapshot } ∷ rows)
