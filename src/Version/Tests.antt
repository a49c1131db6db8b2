-- ===== src/Version/Tests.antt =====
-- Examples for versions.
use flashgate_mcp.Base.{refl, codes}
use flashgate_mcp.Version.SemVer.Form.{HasForm, parse_sem_ver-HasForm}

parse_sem_ver-HasForm_example : HasForm (codes "1.20.3-rc.1+b") (1, 20, 3)
unfolding flashgate_mcp.Version.SemVer.parse_sem_ver flashgate_mcp.Base.trim
parse_sem_ver-HasForm_example = parse_sem_ver-HasForm (codes "1.20.3-rc.1+b") (1, 20, 3) refl
