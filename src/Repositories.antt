-- ===== src/Repositories.antt =====
-- backend/app/repositories: the statements of each repository, as functions of the database. A
-- `FOR UPDATE` lock only orders transactions, and is not modelled: each step reads the state that
-- the steps before it committed.
pub mod Users
pub mod RefreshTokens
pub mod EmailCodes
pub mod ResetCodes
pub mod PhoneCodes
