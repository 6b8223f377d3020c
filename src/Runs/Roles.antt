-- ===== src/Runs/Roles.antt =====
-- src/leon_control_plane/agent_run_model.py: the role of a run, and what follows a review.
use leon_ai_assistant.Base.{Bool, ◌&&◌, not, String, List, [], ◌∷◌, str_eq, if◌then◌else◌}
use leon_ai_assistant.Base.Text.{contains, lower, one_of, strip}
use leon_ai_assistant.Runs.{
  ReviewStatus, pending, accepted, changes_requested, rejected, NextAction, review_run,
  task_can_move_to_review_or_done, revise_output, choose_new_plan,
}

abbrev pub supported_roles : List String
supported_roles =
    "Planner" ∷ "Research" ∷ "Manager" ∷ "Shopper" ∷ "Server Manager" ∷ "3D Model Reference Maker"
    ∷ "3D Printer Manager" ∷ "Memory" ∷ "Code/Improvement" ∷ "Review" ∷ "Tool/Connector"
    ∷ "UI Composition" ∷ "Safety/Governance" ∷ []

pub record Alias : Type 0 where
  pub marker : String
  pub role : String
  -- in EXACT_ONLY_ROLE_ALIASES
  pub exact : Bool

abbrev exact_alias : String → String → Alias
exact_alias m r = record { marker = m; role = r; exact = Bool.true }

abbrev part_alias : String → String → Alias
part_alias m r = record { marker = m; role = r; exact = Bool.false }

abbrev pub role_aliases : List Alias
role_aliases =
    part_alias "planner agent" "Planner"
    ∷ part_alias "research agent" "Research"
    ∷ exact_alias "manager" "Manager"
    ∷ exact_alias "money manager" "Manager"
    ∷ exact_alias "shopper" "Shopper"
    ∷ exact_alias "shopper agent" "Shopper"
    ∷ exact_alias "shopping agent" "Shopper"
    ∷ exact_alias "marketplace agent" "Shopper"
    ∷ exact_alias "server manager" "Server Manager"
    ∷ exact_alias "server manager agent" "Server Manager"
    ∷ exact_alias "3d model reference maker" "3D Model Reference Maker"
    ∷ exact_alias "3d reference maker" "3D Model Reference Maker"
    ∷ exact_alias "3d printer manager" "3D Printer Manager"
    ∷ exact_alias "printer manager" "3D Printer Manager"
    ∷ part_alias "memory agent" "Memory"
    ∷ part_alias "builder agent" "Code/Improvement"
    ∷ part_alias "backend agent" "Code/Improvement"
    ∷ part_alias "code agent" "Code/Improvement"
    ∷ part_alias "code/improvement" "Code/Improvement"
    ∷ part_alias "mock builder agent" "Code/Improvement"
    ∷ part_alias "review agent" "Review"
    ∷ part_alias "reviewer agent" "Review"
    ∷ part_alias "qa agent" "Review"
    ∷ part_alias "tool agent" "Tool/Connector"
    ∷ part_alias "connector agent" "Tool/Connector"
    ∷ part_alias "tool/connector" "Tool/Connector"
    ∷ part_alias "ui agent" "UI Composition"
    ∷ part_alias "frontend agent" "UI Composition"
    ∷ part_alias "ui composition" "UI Composition"
    ∷ part_alias "safety agent" "Safety/Governance"
    ∷ part_alias "security agent" "Safety/Governance"
    ∷ part_alias "governance agent" "Safety/Governance"
    ∷ part_alias "safety/governance" "Safety/Governance"
    ∷ []

-- The lookup of the whole text, and the loop over the markers.
unfoldable pub whole_alias : List Alias → String → String → String
whole_alias [] text default = default
whole_alias (a ∷ aliases) text default =
    if str_eq a.marker text then a.role else whole_alias aliases text default

unfoldable pub part_of : List Alias → String → String → String
part_of [] text default = default
part_of (a ∷ aliases) text default =
    if not a.exact && contains a.marker text then a.role else part_of aliases text default

unfoldable pub normalize_agent_run_role : String → String
unfolding whole_alias part_of
normalize_agent_run_role agent_role =
    let role = strip agent_role in
    if one_of role supported_roles
    then role
    else whole_alias role_aliases (lower role)
        (part_of role_aliases (lower role) "Code/Improvement")

unfoldable pub next_action_for_review_status : ReviewStatus → NextAction
next_action_for_review_status accepted = task_can_move_to_review_or_done
next_action_for_review_status changes_requested = revise_output
next_action_for_review_status rejected = choose_new_plan
next_action_for_review_status pending = review_run
