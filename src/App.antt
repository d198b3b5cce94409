-- ===== src/App.antt =====
-- cmd/svm/main.go and internal/app/app.go: the application that wires the parts.
pub mod Clients
pub mod AccessLog
pub mod Lifecycle
pub mod Server
pub mod Runs
