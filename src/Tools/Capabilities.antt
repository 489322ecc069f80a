-- ===== src/Tools/Capabilities.antt =====
-- `Capability` of crates/boardproof-tools/src/capability.rs.
use uniclaw.Prelude.{Bool, false, ◌||◌, List, [], ◌∷◌, ite, Text, text}
use uniclaw.Tools.Glob.{glob_match}

-- A kind of capability with its glob pattern.
pub data Capability : Type 0 where
  net_connect file_read file_write shell_exec env_read llm_query secret_read : Text → Capability

-- `core::mem::discriminant`
pub data Discriminant : Type 0 where
  net_connect file_read file_write shell_exec env_read llm_query secret_read : Discriminant

unfoldable pub Discriminant-discrete : Discrete Discriminant
Discriminant-discrete = hlevel

unfoldable pub discriminant : Capability → Discriminant
discriminant (net_connect g) = net_connect
discriminant (file_read g) = file_read
discriminant (file_write g) = file_write
discriminant (shell_exec g) = shell_exec
discriminant (env_read g) = env_read
discriminant (llm_query g) = llm_query
discriminant (secret_read g) = secret_read

unfoldable pub glob : Capability → Text
glob (net_connect g) = g
glob (file_read g) = g
glob (file_write g) = g
glob (shell_exec g) = g
glob (env_read g) = g
glob (llm_query g) = g
glob (secret_read g) = g

unfoldable pub variant_name : Capability → Text
variant_name (net_connect g) = text "net_connect"
variant_name (file_read g) = text "file_read"
variant_name (file_write g) = text "file_write"
variant_name (shell_exec g) = text "shell_exec"
variant_name (env_read g) = text "env_read"
variant_name (llm_query g) = text "llm_query"
variant_name (secret_read g) = text "secret_read"

-- The pattern of the declared capability against the text of the requested one.
unfoldable pub matches_request : Capability → Capability → Bool
unfolding Discriminant-discrete discriminant glob
matches_request declared requested =
    ite (Discriminant-discrete (discriminant declared) (discriminant requested))
      (glob_match (glob declared) (glob requested)) false

unfoldable pub is_granted_by : List Capability → Capability → Bool
is_granted_by [] requested = false
is_granted_by (d ∷ ds) requested = matches_request d requested || is_granted_by ds requested
