-- ===== src/Tests.antt =====
-- Runs of the model on concrete inputs, and the theorems at inputs that meet their hypotheses.
mod Browser
mod Files
mod Cookies
mod Drive
mod Forms
mod Events
mod Requests
mod Engine
mod Store
mod Fetch
mod Votes
mod Nodes
mod Popups
mod Wallet
mod Payments
mod Waits
