-- ===== src/Shop.antt =====
-- internal/controller/shop_controller.go, shop_dashboard.go and shop_alerts.go
pub mod Microservice
pub mod Names
pub mod AppEnv
pub mod Secrets
pub mod Database
pub mod Workload
pub mod Network
pub mod Children
pub mod Monitoring
pub mod Dashboard
pub mod Status
pub mod Controller
pub mod Charter
pub mod Reasons
pub mod Repeating
pub mod Quiet
pub mod Passwords
