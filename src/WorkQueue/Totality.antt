-- ===== src/WorkQueue/Totality.antt =====
-- packages/execution/work-queue/src/repository.ts: which calls are answered, by the constraints of the
-- table and the checks that read a row back.
