-- ===== src/Examples.antt =====
-- Concrete runs: small instances of the libraries, and the theorems at them.
mod Sample
mod Keys
mod Models
mod Records
mod Dumps
mod Programs
mod Desktop
mod Stores
mod Stops
mod Windows
mod Gtk
