-- ===== src/Staff.antt =====
-- backend/internal/staff/internal/domain: Codes (codes.go), Totp (totp.go), Email (email.go) and Name
-- (name.go), with what is proved of them in Forms, Generations, Window, Addresses and Names.
pub mod Codes
pub mod Forms
pub mod Generations
pub mod Totp
pub mod Window
pub mod Email
pub mod Addresses
pub mod Name
pub mod Names
mod Tests
mod Samples
