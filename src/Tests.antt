-- ===== src/Tests.antt =====
-- Runs of the modelled functions, and instances of the theorems at concrete inputs.
mod Answer
mod Whole
mod Text
mod Intervals
mod Users
mod Body
mod Serve
mod Plugins
mod Update
mod Limits
mod Http
mod Server
mod Browser
mod Plan
mod Lock
