-- ===== src/WorkQueue/Insert/Answers.antt =====
-- packages/execution/work-queue/src/repository.ts: what insertWorkItem answers.
