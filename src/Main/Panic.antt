-- ===== src/Main/Panic.antt =====
-- A query that stops the driver.
use clipboard.Clipboard.{Clipboard}
