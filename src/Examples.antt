-- ===== src/Examples.antt =====
-- A shop with two orders, an administrator's console, rules, collections and prices: the theorems at concrete inputs.
mod Shop
mod Orders
mod Codes
mod Credits
mod Console
mod Collections
mod Prices
mod Queries
mod Settings
mod Mail
mod Payments
