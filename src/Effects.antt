-- ===== src/Effects.antt =====
-- What a request that succeeds does: its answer and the whole of the state that it leaves, as an
-- equation.
pub mod Fresh
pub mod Accepted
pub mod Steps
pub mod Ready
pub mod Review
pub mod Incumbent
pub mod Retire
pub mod Install
pub mod Succession
pub mod Switch
pub mod Activation
pub mod Disabled
pub mod Withdraw
pub mod Close
pub mod Disable
