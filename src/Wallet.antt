-- ===== src/Wallet.antt =====
-- The payout addresses of internal/wallet and the controller of internal/controller/wallet_controller.go
pub mod Address
pub mod Controller
pub mod Publishing
