-- ===== src/TargetGroups/Integrity.antt =====
-- src/target-groups/target-groups.service.ts: what refers to a group finds it, and a lineup with it.
