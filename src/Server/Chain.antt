-- ===== src/Server/Chain.antt =====
-- What it takes to pass the middleware of internal/server/routes.go.
use lapis_archive_file_servi.Prelude.{
  some, ℕ, [], ◌∷◌, List, Bytes, true, Option, ◌≡◌, refl, subst, ◌⊎◌, inl, inr, arith, Bool-cases,
}
use lapis_archive_file_servi.Domain.{User}
use lapis_archive_file_servi.Handlers.RateLimit.{allow}
use lapis_archive_file_servi.Handlers.World.{read_clock}
use lapis_archive_file_servi.Handlers.Share.{Unlock}
use lapis_archive_file_servi.Auth.{Verifier, Passage, aborted, next, required, optional}
use lapis_archive_file_servi.Auth.Verified.{IsVerified, required-IsVerified}
use lapis_archive_file_servi.Server.Routes.{
  LimiterName, Middleware, rate_limit, optional_auth, required_auth, limit_body,
}
use lapis_archive_file_servi.Server.Serve.{
  Request, Site, Context, Verdict, stopped, passed, limiter, rate_limit_by_ip, run_one, run_chain,
}
use lapis_archive_file_servi.Server.Guards.{Limits}

module _ {O : Type 0} (req : Request) (s : Site O) where
  -- The limiter lets the address of the client through now.
  abbrev pub Admitted : LimiterName → Type 0
  Admitted name = (allow (limiter name s) req.client (read_clock s.world).0).0 ≡ true

pub Verdict-cases :
    (v : Verdict)
    → ((status : ℕ) × (message : Bytes) × (v ≡ stopped status message))
      ⊎ ((c : Context) × (v ≡ passed c))
Verdict-cases (stopped status message) = inl (status, message, refl)
Verdict-cases (passed c) = inr (c, refl)

Passage-cases :
    (p : Passage)
    → ((status : ℕ) × (message : Bytes) × (p ≡ aborted status message))
      ⊎ ((user : Option User) × (p ≡ next user))
Passage-cases (aborted status message) = inl (status, message, refl)
Passage-cases (next user) = inr (user, refl)

module _ {O : Type 0} (req : Request) where
  passing :
      (name : LimiterName) (c c₁ : Context) (s : Site O)
      → (rate_limit_by_ip name req.client c s).0 ≡ passed c₁
      → Admitted req s name
  unfolding rate_limit_by_ip
  passing name c c₁ s h =
      elim (Bool-cases (allow (limiter name s) req.client (read_clock s.world).0).0) [
        | inl e ↦ e
        | inr e ↦ let clash : ⊥ = ground arith in absurd clash
      ]

  -- a chain that has a limiter passes on what it admits
  pub chain-Admitted :
      (name : LimiterName) (chain : List Middleware) (c c₁ : Context) (s : Site O)
      → Limits name chain
      → (run_chain req chain c s).0 ≡ passed c₁
      → Admitted req s name
  unfolding run_chain run_one
  chain-Admitted name [] c c₁ s l h = absurd l
  chain-Admitted name (rate_limit n ∷ chain) c c₁ s l h =
      elim (Verdict-cases (rate_limit_by_ip n req.client c s).0) [
        | inl (status, message, e) ↦ let clash : ⊥ = ground arith in absurd clash
        | inr (c₂, e) ↦ subst (Admitted req s) l (passing n c c₂ s e)
      ]
  chain-Admitted name (optional_auth v ∷ chain) c c₁ s l h =
      elim (Passage-cases (optional v req.authorization c.user)) [
        | inl (status, message, e) ↦ let clash : ⊥ = ground arith in absurd clash
        | inr (user, e) ↦
            chain-Admitted name chain (record { user = user; body = c.body }) c₁ s l (ground arith)
      ]
  chain-Admitted name (required_auth v ∷ chain) c c₁ s l h =
      elim (Passage-cases (required v req.authorization c.user)) [
        | inl (status, message, e) ↦ let clash : ⊥ = ground arith in absurd clash
        | inr (user, e) ↦
            chain-Admitted name chain (record { user = user; body = c.body }) c₁ s l (ground arith)
      ]
  chain-Admitted name (limit_body n ∷ chain) c c₁ s l h = chain-Admitted name chain _ c₁ s l h

  -- behind the token middleware, the user is verified
  pub required-passed :
      (v : Verifier) (c c₁ : Context) (s : Site O)
      → (run_chain req (required_auth v ∷ []) c s).0 ≡ passed c₁
      → (user : User) × (c₁.user ≡ some user)
        × IsVerified v req.authorization user
        × ((run_chain req (required_auth v ∷ []) c s).1 ≡ s)
  unfolding run_chain run_one
  required-passed v c c₁ s h = elim (required-IsVerified v req.authorization c.user) [
    | inr (message, e) ↦ let clash : ⊥ = ground arith in absurd clash
    | inl (user, e, verified) ↦ (user, ground arith, verified, ground arith)
  ]

  -- behind a limit of the body, what was read of it is within the limit
  pub limited :
      (n : ℕ) (c c₁ : Context) (s : Site O) (body : Unlock)
      → (run_chain req (limit_body n ∷ []) c s).0 ≡ passed c₁
      → c₁.body.unlock ≡ some body
      → ((req.body (some n)).unlock ≡ some body) × ((run_chain req (limit_body n ∷ []) c s).1 ≡ s)
  unfolding run_chain run_one
  limited n c c₁ s body h e = (ground arith, refl)
