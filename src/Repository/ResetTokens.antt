-- ===== src/Repository/ResetTokens.antt =====
-- repositories/PrismaPasswordResetTokenRepository.ts.
use mathlib.Core.Option
use bankos.Prelude.{String, Option, none, some, List, ◌===◌, ok}
use bankos.Domain.Token.{PasswordResetToken, new_reset_token}
use bankos.Database.Rows.{TokenRow}
use bankos.Runtime.Packages.{Packages}
use bankos.Runtime.Action.{Action, gets, stored, database_error}

unfoldable pub token_row : PasswordResetToken → TokenRow
token_row t = record {
  token = t.token;
  user_id = t.user_id;
  is_used = t.is_used;
  expires_at = t.expires_at;
}

module _ (env : Packages) where
  unfoldable pub save : PasswordResetToken → Action (Unit {0})
  save token w =
      stored
        (env.prisma.password_reset_token.upsert (λ r. r.token === token.token)
          (λ r. record r {
            user_id = token.user_id;
            expires_at = token.expires_at;
            is_used = token.is_used;
          })
          (token_row token) w.reset_tokens)
        (λ t. record w { reset_tokens = t }) database_error w

  unfoldable pub find_by_token : String → Action (Option PasswordResetToken)
  find_by_token hashed_token = gets λ w.
      Option.map (λ (r : TokenRow). new_reset_token r.token r.user_id r.expires_at r.is_used)
        (env.prisma.password_reset_token.find_unique (λ r. r.token === hashed_token) w.reset_tokens)

  -- What the client throws is ignored: the row need not exist.
  unfoldable pub deleted_or_kept : Option (List TokenRow) → Action (Unit {0})
  deleted_or_kept none w = (ok tt, w)
  deleted_or_kept (some t) w = (ok tt, record w { reset_tokens = t })

  unfoldable pub delete : String → Action (Unit {0})
  delete hashed_token w =
      deleted_or_kept
        (env.prisma.password_reset_token.delete (λ r. r.token === hashed_token) w.reset_tokens) w
