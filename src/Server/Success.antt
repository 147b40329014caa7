-- ===== src/Server/Success.antt =====
-- What a reply of the handlers of internal/server/routes.go is made of, and what a router is.
use lapis_archive_file_servi.Prelude.{
  ℕ, [], ◌∷◌, List, Bytes, codes, some, All, ◌≡◌, refl, subst, ◌⊎◌, inl, inr, arith,
}
use lapis_archive_file_servi.Result.{
  Error, Result-cases, ok, expired, wrong_code, invalid_slug, not_found, share_limit,
  object_not_found, no_such_upload, failed,
}
use lapis_archive_file_servi.Act.{Step}
use lapis_archive_file_servi.Domain.{User, validate_slug}
use lapis_archive_file_servi.Handlers.World.{World, Reply, success, failure, ShareStore}
use lapis_archive_file_servi.Handlers.Share
use lapis_archive_file_servi.Server.Routes.{Route}
use lapis_archive_file_servi.Server.Serve.{Request, Site, Payload, answer_as, Router, in_world}
use lapis_archive_file_servi.Handlers.Share.{Unlock, Unlocked, allow_unlock}

Reply-cases :
    {A : Type 0} (r : Reply A)
    → ((a : A) × (r ≡ success a))
      ⊎ ((status : ℕ) × (message : Bytes) × (r ≡ failure status message))
Reply-cases (success a) = inl (a, refl)
Reply-cases (failure status message) = inr (status, message, refl)

-- A success is made of what the handler returns.
pub in_world-success :
    {O A : Type 0} (f : A → Payload) (handler : Step (World O) (Reply A)) (s : Site O)
    (P : Payload → Type 0) (p : Payload)
    → (in_world f handler s).0 ≡ success p
    → ((a : A) → (handler s.world).0 ≡ success a → P (f a))
    → P p
unfolding in_world answer_as
in_world-success f handler s P p h made = elim (Reply-cases (handler s.world).0) [
  | inl (a, e) ↦ let is : f a ≡ p = ground arith in subst P is (made a e)
  | inr (status, message, e) ↦ let clash : ⊥ = ground arith in absurd clash
]

-- An error of the store is not answered by a success.
revoke_failure_fails :
    (e : Error)
    → (status : ℕ) × (message : Bytes) × (Share.revoke_failure e ≡ failure status message)
revoke_failure_fails not_found = (404, codes "Share not found", refl)
revoke_failure_fails expired = (500, codes "Could not revoke share", refl)
revoke_failure_fails wrong_code = (500, codes "Could not revoke share", refl)
revoke_failure_fails invalid_slug = (500, codes "Could not revoke share", refl)
revoke_failure_fails share_limit = (500, codes "Could not revoke share", refl)
revoke_failure_fails object_not_found = (500, codes "Could not revoke share", refl)
revoke_failure_fails no_such_upload = (500, codes "Could not revoke share", refl)
revoke_failure_fails (failed text) = (500, codes "Could not revoke share", refl)

-- A revoked share has been deleted by the store.
pub revoke_share-success :
    {O : Type 0} (store : ShareStore) (user : User) (slug answer : Bytes) (w : World O)
    → (Share.revoke_share store (some user) slug w).0 ≡ success answer
    → (slug ≡ answer) × ((store.delete slug user.id w.db).0 ≡ ok tt)
unfolding Share.revoke_share
revoke_share-success store user slug answer w h = elim (Result-cases (validate_slug slug)) [
  | inr (x, e) ↦ let clash : ⊥ = ground arith in absurd clash
  | inl (valid, e) ↦ elim (Result-cases (store.delete slug user.id w.db).0) [
    | inr (x, e₁) ↦
        let (status, message, e₂) = revoke_failure_fails x in
        let clash : ⊥ = ground arith in absurd clash
    | inl (tt, e₁) ↦ (ground arith, e₁)
  ]
]

abbrev pub Among : {A : Type 0} → A → List A → Type 0
Among r [] = ⊥
Among r (x ∷ xs) = (x ≡ r) ⊎ Among r xs

pub All-Among : {A : Type 0} (P : A → Type 0) (xs : List A) {r : A} → All P xs → Among r xs → P r
All-Among P [] h never = absurd never
All-Among P (x ∷ xs) h (inl e) = subst P e h.0
All-Among P (x ∷ xs) h (inr later) = All-Among P xs h.1 later

-- The router picks a route of the table.
abbrev pub IsRouter : {O : Type 0} → Router O → Type 0
IsRouter {O} router =
    (req : Request) (routes : List (Route O)) (r : Route O) (value : Bytes)
    → router req routes ≡ some (r, value)
    → Among r routes
