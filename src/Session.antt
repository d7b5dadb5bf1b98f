-- ===== src/Session.antt =====
-- The session of the mobile client (internalsdk/session_model.go).
pub mod Db
pub mod Account
pub mod Identity
pub mod SignOut
pub mod Ladders
pub mod SignIn
pub mod Values
pub mod Stored
pub mod Purchases
pub mod Paid
pub mod Ads
pub mod Shown
pub mod Apps
pub mod Access
pub mod Payment
pub mod Login
pub mod Start
pub mod Method
pub mod Invoke
pub mod Frame
pub mod Unmoved
pub mod Outside
pub mod Methods
pub mod Redeemed
pub mod Surveys
pub mod Vpn
pub mod Switching
pub mod Links
pub mod Deleted
pub mod Secrets
