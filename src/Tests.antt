-- ===== src/Tests.antt =====
-- Runs of the program on small inputs, and the theorems at such inputs.
mod Samples
mod Encoding
mod Cookies
mod Filters
mod Requests
mod Rules
mod Commanded
mod Retrieved
mod Configured
mod Dispatched
mod Reloads
mod Loaded
mod Plugged
mod Merged
