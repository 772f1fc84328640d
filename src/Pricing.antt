-- ===== src/Pricing.antt =====
-- internal/service/pricing.go: the formula evaluator and the choice of a pricing rule.
pub mod Text
pub mod Values
pub mod Lexer
pub mod Parser
pub mod Grammar
pub mod LexerLaws
pub mod Printed
pub mod RoundTrip
pub mod Consumption
pub mod Fuel
pub mod Rules
pub mod Order
pub mod Choice
mod Tests
