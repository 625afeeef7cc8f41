-- ===== src/Tests/Lifecycle.antt =====
-- Runs of several requests, with a generator that draws a longer text each time.
use bankos.Prelude.{
  ℕ, zero, suc, ◌+◌, String, ◌≡◌, refl, ap, ◌⊎◌, true, false, some, List, [], ◌∷◌, first, ◌===◌,
  ===_iff, length, Bool-cases, inl, inr, ok, err, domain_error, arith,
}
use bankos.Crypto.Keys.{get_key, key_of}
use bankos.Crypto.Tokens.{verify_refresh_token, verify, verify_kid, verify_with, verify_options}
use bankos.Database.Rows.{SessionRow}
use bankos.Lifecycle.Lawful.{IsFresh}
use bankos.Lifecycle.Requests.{
  Request, login, refresh, logout, send_verification, serve_all, requests_refine,
  requests_keep_sessions, revoked_stays_refused,
}
use bankos.Lifecycle.Spec.{Evolves, revoked_row}
use bankos.Runtime.World.{World}
use bankos.Service.Refresh as Refresh
use bankos.Service.Setup.{Setup}
use bankos.Text.{codes}
use bankos.Tests.Environment.{claims, packages, session, setup, world, prisma-IsPrisma}

abbrev marks : ℕ → String
marks zero = "-"
marks (suc n) = String.◌∷◌ "-" (marks n)

length-marks : (n : ℕ) → length (codes (marks n)) ≡ n + 1
length-marks zero = refl
length-marks (suc n) = ground (arith, length-marks n)

marks_distinct : (m n : ℕ) → (marks m === marks n) ≡ true → m ≡ n
marks_distinct m n same =
    let counted = ap (λ t. length (codes t)) ((===_iff (marks m) (marks n)).0 same) in
    omega (arith, counted, length-marks m, length-marks n)

-- The code of the first character; 0 for the empty text.
abbrev head_code : List ℕ → ℕ
head_code [] = 0
head_code (c ∷ _) = c

head-marks : (n : ℕ) → head_code (codes (marks n)) ≡ 45
head-marks zero = refl
head-marks (suc n) = refl

marks_unused : (n : ℕ) → ("s1" === marks n) ≡ false
marks_unused n = elim (Bool-cases ("s1" === marks n)) [
  | inl same ↦
      let equal : 115 ≡ head_code (codes (marks n)) =
        ap (λ t. head_code (codes t)) ((===_iff "s1" (marks n)).0 same) in
      ground (arith, equal, head-marks n)
  | inr differ ↦ differ
]

abbrev marking : Setup
marking = record setup { env = record packages { random_uuid = marks } }

abbrev live : SessionRow
live = record session { is_revoked = false }

abbrev before : World
before = record world { sessions = live ∷ [] }

before-IsFresh : IsFresh marking.env before
before-IsFresh n later = rw (marks_unused n) refl

world-IsFresh : IsFresh marking.env world
world-IsFresh n later = rw (marks_unused n) refl

abbrev requests : List Request
requests =
    login (record {
      email = "ada@bank.org";
      password_raw = "right";
      ip_address = "10.0.0.3";
      user_agent = "phone";
    })
    ∷ refresh "good" "10.0.0.1" "browser"
    ∷ logout (record { access_token = "access"; refresh_token = "good" }) "10.0.0.1" "browser"
    ∷ send_verification "ada@bank.org"
    ∷ []

requests_refine_example :
    IsFresh marking.env (serve_all marking requests before)
    × Evolves before.sessions (serve_all marking requests before).sessions
requests_refine_example =
    requests_refine marking prisma-IsPrisma marks_distinct requests before before-IsFresh

requests_keep_sessions_example :
    (first (λ x. x.id === "s1") (serve_all marking requests before).sessions ≡ some live)
    ⊎ (first (λ x. x.id === "s1") (serve_all marking requests before).sessions
        ≡ some (revoked_row live))
requests_keep_sessions_example =
    requests_keep_sessions marking prisma-IsPrisma marks_distinct requests before "s1" live
      before-IsFresh refl

good_verifies :
    (v : World)
    → verify_refresh_token marking.env marking.config marking.keys "good" v
      ≡ (ok claims, record v { ticks = v.ticks + 1 })
unfolding verify_refresh_token verify verify_kid verify_with verify_options get_key key_of
good_verifies v = refl

revoked_stays_refused_example :
    Refresh.refresh marking "good" "10.0.0.2" "phone" (serve_all marking requests world) ≡ (
      err (domain_error "Session is revoked"),
      record (serve_all marking requests world) {
        ticks = (serve_all marking requests world).ticks + 1;
      },
    )
revoked_stays_refused_example =
    revoked_stays_refused marking prisma-IsPrisma marks_distinct requests "good" "10.0.0.2" "phone"
      world
      (record (serve_all marking requests world) {
        ticks = (serve_all marking requests world).ticks + 1;
      })
      claims live world-IsFresh refl (good_verifies (serve_all marking requests world))

abbrev used : World
used = serve_all marking (refresh "good" "10.0.0.1" "browser" ∷ requests) before
