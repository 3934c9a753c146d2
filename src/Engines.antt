-- ===== src/Engines.antt =====
-- backend/src/home_compass/engines/ and common.py: what a household can pay, the verdicts on policies, the
-- choice of a loan, the scenarios and the risk of a deposit, and amounts as texts.
pub mod Floats
pub mod Money
pub mod Faults
pub mod Eligibility
pub mod Affordability
pub mod Loans
pub mod Fees
pub mod Scenario
pub mod Scenarios
pub mod Risk
pub mod Analyze
