-- ===== src/Runs/Harmless.antt =====
-- src/leon_control_plane/store.py and src/leon_control_plane/risk_policy.py: what a run may be allowed to do.
use leon_ai_assistant.Base.{String, List}
use leon_ai_assistant.Risk.{Request, request}
use leon_ai_assistant.Runs.{Runner}
use leon_ai_assistant.Runs.Create.{action_of, gate_call}

-- The request that the policy classifies for a run.
abbrev pub run_request : Runner → List String → Request
run_request runner actions =
    request (action_of runner) (action_of runner) (gate_call runner actions).metadata
