-- ===== src/Examples.antt =====
-- Test data, and runs of the program on it.
mod Toy
mod Requests
mod Resolved
mod Runs
mod Choices
mod Builds
mod Installs
mod Releases
mod Compositions
mod Bench
mod Fixtures
mod Exits
mod Consoles
mod Logins
mod Cases
mod Sockets
mod Peers
