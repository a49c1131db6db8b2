-- ===== src/Mcp/Registry/Tests.antt =====
-- Examples for the registry.
use flashgate_mcp.Base.{ℕ}
use flashgate_mcp.Mcp.Registry.{Registry, new_registry, register}
use flashgate_mcp.Mcp.Registry.Laws.{IsConsistent, new_registry-IsConsistent, register-IsConsistent}

abbrev tools : Registry ℕ
tools = register new_registry "read_file" 1

tools-IsConsistent : IsConsistent tools
tools-IsConsistent = register-IsConsistent new_registry "read_file" 1 new_registry-IsConsistent

register-IsConsistent_example : IsConsistent (register tools "stat" 2)
register-IsConsistent_example = register-IsConsistent tools "stat" 2 tools-IsConsistent
