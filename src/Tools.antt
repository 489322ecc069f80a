-- ===== src/Tools.antt =====
-- crates/boardproof-tools/src/tool.rs: the calls of tools, their outputs and their failures.
pub mod Glob
pub mod Capabilities
pub mod Grants
pub mod Registry
use uniclaw.Prelude.{ℕ, List, ◌++◌, Text, text}
use uniclaw.Receipt.{Digest}
use Capabilities.{Capability, variant_name}

pub data ApprovalPolicy : Type 0 where
  never discretionary always : ApprovalPolicy

pub record ToolManifest : Type 0 where
  pub name : Text
  pub description : Text
  pub action_kind : Text
  pub declared_capabilities : List Capability
  pub default_approval : ApprovalPolicy

pub record ToolCall : Type 0 where
  pub tool_name : Text
  pub target : Text
  pub input : List ℕ
  pub input_hash : Digest

pub record ToolMetadata : Type 0 where
  pub secrets_used : List Text

pub record ToolOutput : Type 0 where
  pub bytes : List ℕ
  pub output_hash : Digest
  pub metadata : ToolMetadata

pub data ToolError : Type 0 where
  not_found invalid_input failed : Text → ToolError
  timeout : ToolError
  capability_denied : Capability → ToolError

-- `ToolError::variant_name`
unfoldable pub error_name : ToolError → Text
error_name (not_found t) = text "not_found"
error_name (invalid_input m) = text "invalid_input"
error_name (failed m) = text "failed"
error_name timeout = text "timeout"
error_name (capability_denied c) = text "capability_denied"

-- `ToolError::message`
unfoldable pub message : ToolError → Text
unfolding variant_name
message (not_found t) = text "tool not found: " ++ t
message (invalid_input m) = m
message (failed m) = m
message timeout = text "timeout"
message (capability_denied c) = text "capability denied: " ++ variant_name c
