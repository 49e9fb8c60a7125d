-- ===== src/Fraud.antt =====
-- modules/fraud: the rule language of fraud-rule.interpreter.ts and the engine of
-- fraud-rule.engine.ts.
mod Tests
mod Literals
pub mod Syntax
pub mod Interpreter
pub mod Parser
pub mod RoundTrip
pub mod Tokenizer
pub mod Printed
pub mod TextRoundTrip
pub mod ValueTexts
pub mod SourceRoundTrip
pub mod Fuel
pub mod TextFuel
pub mod Engine
