-- ===== src/Tests.antt =====
-- The theorems and the definitions at concrete inputs.
mod Concrete
mod Urls
mod Answers
mod Routes
mod Logs
mod Profiles
mod Sessions
mod Servers
mod Daemons
mod Titles
mod Services
mod Starts
mod Controls
mod Relays
mod Stamps
