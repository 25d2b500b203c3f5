-- ===== src/Handler/Status.antt =====
-- What /check answers: the statuses of internal/handler/check.go.
