-- ===== src/App.antt =====
-- apps/api/app: the service behind the API (demo.py), and the resolution of approvals (main.py).
pub mod Platform
pub mod Approvals
pub mod Demo
pub mod Reports
