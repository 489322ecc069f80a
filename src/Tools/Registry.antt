-- ===== src/Tools/Registry.antt =====
-- crates/boardproof-tools/src: host.rs, the registry of tools, and noop.rs.
use uniclaw.Prelude.{
  List, [], map, Option, none, some, Result, ok, err, ◌≡◌, ◌≢◌, refl, Text, text, Map, lookup,
  insert, length, ℕ, Bool, ◌==◌, lookup-insert, lookup-insert_other,
}
use uniclaw.Receipt.Crypto.{Foreign}
use uniclaw.Tools.{ApprovalPolicy, never, ToolManifest, ToolCall, ToolOutput, ToolError, not_found}

-- The trait `Tool`
pub record Tool : Type 0 where
  pub name : Text
  pub manifest : ToolManifest
  pub approval_policy : ToolCall → ApprovalPolicy
  pub call : ToolCall → Result ToolError ToolOutput

pub record ToolHost : Type 0 where
  pub by_name : Map Tool

-- The new host, and the tool of that name that it had.
unfoldable pub register : ToolHost → Tool → Option Tool × ToolHost
register host tool =
    (lookup tool.name host.by_name, record { by_name = insert tool.name tool host.by_name })

unfoldable pub len : ToolHost → ℕ
len host = length host.by_name

unfoldable pub is_empty : ToolHost → Bool
is_empty host = length host.by_name == 0

unfoldable pub get : ToolHost → Text → Option Tool
get host name = lookup name host.by_name

unfoldable pub names : ToolHost → List Text
names host = map (λ e. e.0) host.by_name

abbrev dispatch : ToolCall → Option Tool → Result ToolError ToolOutput
dispatch c (some tool) = tool.call c
dispatch c none = err (not_found c.tool_name)

unfoldable pub call : ToolHost → ToolCall → Result ToolError ToolOutput
call host c = dispatch c (lookup c.tool_name host.by_name)

-- `NoopTool`
module _ (lib : Foreign) where
  unfoldable pub noop_tool : Tool
  noop_tool = record {
    name = text "noop";
    manifest = record {
      name = text "noop";
      description = text "Returns input bytes unchanged. For tests and empty deployments.";
      action_kind = text "tool.noop";
      declared_capabilities = [];
      default_approval = never;
    };
    approval_policy = λ c. never;
    call = λ c. ok (record {
      bytes = c.input;
      output_hash = lib.blake3 c.input;
      metadata = record { secrets_used = [] };
    });
  }

-- A call of the tool registered last under its name reaches it, and every other call what it did.
register-call :
    (host : ToolHost) (tool : Tool) (c : ToolCall)
    → (c.tool_name ≡ tool.name → call (register host tool).1 c ≡ tool.call c)
      × (c.tool_name ≢ tool.name → call (register host tool).1 c ≡ call host c)
unfolding call register
register-call host tool c = (
  λ e. rw (e, lookup-insert tool.name tool host.by_name) refl,
  λ n. rw (lookup-insert_other c.tool_name tool.name tool host.by_name n) refl,
)
