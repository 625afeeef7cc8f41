-- ===== src/Validator.antt =====
-- services/identity/src/modules/auth/validators: the e-mail format and the password policy.
pub mod Email
pub mod Password
