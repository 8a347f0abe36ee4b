-- ===== src/Tests.antt =====
-- Runs of the definitions on concrete inputs, and instances of the theorems.
mod Queue
mod Bridge
mod Accounts
mod Requests
mod Sessions
mod Publishing
mod Firmware
mod Connections
mod Signing
mod Devices
mod Drive
