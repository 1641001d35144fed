-- ===== src/Ipc/Reconnect/Backoff.antt =====
-- `cappedDouble` of internal/ipc/reconnect.go: doubling up to a cap.
