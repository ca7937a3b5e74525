-- ===== src/Settings.antt =====
-- The two forms of web/src/routes/Settings.tsx that change something: the password, and the card of the
-- second factor. An answer arrives as an event for the call that is pending.
pub mod Password
pub mod TwoFactor
