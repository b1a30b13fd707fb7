-- ===== src/Tests.antt =====
-- Concrete instances of what the programs call, and the theorems applied to them.
mod Samples
mod Searching
mod Parsing
mod Serving
mod Requests
mod Lemmas
mod Handlers
mod Servers
mod Numbers
mod Messages
mod Coroutine
mod Conversations
mod Networks
mod Chat
mod Hopping
