-- ===== src/Tests.antt =====
-- Runs of the definitions on concrete values.
mod Wire
mod Layouts
mod Bindings
mod Sessions
mod Servers
mod Clients
mod Keyboards
