-- ===== src/Postmortem.antt =====
-- internal/execution/postmortem/postmortem.go: the Markdown text of a postmortem.
use go_on_call_agent.Prelude.{String, List, [], ◌∷◌, str_eq, ◌<>◌, if◌then◌else◌}
use go_on_call_agent.Incident.{Incident}

-- The loop over the evidence.
unfoldable pub bullets : List String → String
bullets [] = ""
bullets (e ∷ es) = "- " <> e <> "\n" <> bullets es

unfoldable pub evidence_section : List String → String
evidence_section [] = "- 无\n"
evidence_section (e ∷ es) = bullets (e ∷ es)

-- Generate
unfoldable pub generate : Incident → String → List String → String → String
generate inc root_cause evidence resolution =
    "# Incident "
    <> inc.id
    <> "\n\n"
    <> "## Summary\n"
    <> inc.title
    <> "\n\n"
    <> (if str_eq inc.description "" then "" else "## Impact\n" <> inc.description <> "\n\n")
    <> "## Root Cause\n"
    <> root_cause
    <> "\n\n"
    <> "## Evidence\n"
    <> evidence_section evidence
    <> "\n## Resolution\n"
    <> resolution
    <> "\n\n"
    <> "## Prevention\n- 增加相关指标告警\n- 增加 readiness 检查\n- 处置后增加自动验证\n"
