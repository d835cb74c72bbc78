-- ===== src/Payout.antt =====
-- Payouts to hosts: orchestrator/app/hedera_payouts.py and orchestrator/app/hedera_escrow.py.
pub mod Plan
pub mod Redistribute
pub mod Amounts
pub mod Receipt
