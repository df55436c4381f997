-- ===== src/Agent.antt =====
-- The workspaces of an agent (src/services/agentService.ts: isAgentWorkspaceMember,
-- getAgentWorkspaceIds).
pub mod Types
pub mod Registration
mod Tests
use securestore.Common.{ℕ, List, Bool, ◌&&◌, nat_beq, any, filter, map}
use securestore.Database.{Db, Membership}

unfoldable pub is_agent_workspace_member : ℕ → ℕ → Db → Bool
is_agent_workspace_member agent_id workspace_id db =
    any (λ m. nat_beq m.agent_id agent_id && nat_beq m.workspace_id workspace_id) db.memberships

unfoldable pub get_agent_workspace_ids : ℕ → Db → List ℕ
get_agent_workspace_ids agent_id db =
    map (λ m. m.workspace_id) (filter (λ m. nat_beq m.agent_id agent_id) db.memberships)
