-- ===== src/Server/Permitted.antt =====
-- Which requests the routes of internal/server/routes.go let through to a handler that succeeds.
use lapis_archive_file_servi.Prelude.{
  true, [], ◌∷◌, List, Bytes, none, some, ◌≡◌, ◌∙◌, sym, ap, subst, inl, inr, arith, Option-cases,
}
use lapis_archive_file_servi.Result.{ok}
use lapis_archive_file_servi.Handlers.World.{success, ShareStore}
use lapis_archive_file_servi.Handlers.Share
use lapis_archive_file_servi.Server.Routes.{
  Deps, limit_body, max_json_bytes, upload_limit, download_limit, create_limit, Middleware,
  Endpoint, health, presign_upload, get_file, init_multipart, presign_part, multipart_status,
  complete_multipart, abort_multipart, share_maintenance, auth_unavailable, create_share, get_share,
  unlock_share, list_mine, revoke_share, Route, setup_routes,
}
use lapis_archive_file_servi.Server.Serve.{
  Request, Site, Payload, healthy, presigned, download, session, part_url, parts, completed,
  upload_aborted, created, meta, unlocked, mine, revoked, Context, passed, Router, run_chain,
  respond, run_route, serve,
}
use lapis_archive_file_servi.Handlers.Share.{Unlock, Unlocked, allow_unlock}
use lapis_archive_file_servi.Handlers.Unlock.{Opened, unlock_share-success}
use lapis_archive_file_servi.Server.Success.{
  in_world-success, revoke_share-success, All-Among, IsRouter,
}
use lapis_archive_file_servi.Server.Access.{IsUnlocked, Permitted}
use lapis_archive_file_servi.Server.Chain.{limited, Verdict-cases, chain-Admitted, required-passed}
use lapis_archive_file_servi.Server.Guards.{Guards, Guarded, setup_routes-Guarded}

-- what a request carries before any middleware
abbrev entering : Request → Context
entering req = record { user = none; body = req.body none }

module _ {O : Type 0} (req : Request) (s : Site O) (sha256 : Bytes → Bytes) (deps : Deps O) where
  -- the middleware has let the request through, and the handler succeeded
  unlock-IsUnlocked :
      (store : ShareStore) (c : Context) (slug : Bytes) (u : Unlocked)
      → deps.shares ≡ some store
      → (run_chain req (limit_body max_json_bytes ∷ []) (entering req) s).0 ≡ passed c
      → (Share.unlock_share store sha256 deps.files req.client slug c.body.unlock
          (run_chain req (limit_body max_json_bytes ∷ []) (entering req) s).1.world).0
        ≡ success u
      → IsUnlocked sha256 req s deps u
  unlock-IsUnlocked store c slug u stores h e =
      let w = (run_chain req (limit_body max_json_bytes ∷ []) (entering req) s).1.world in
      let (valid, admitted, behind) =
        unlock_share-success store sha256 deps.files req.client slug c.body.unlock w {u = u} e in
      let (body, is, opened) = behind in
      let (sent, same) = limited req max_json_bytes (entering req) c s body h is in
      record {
        store = store;
        slug = slug;
        body = body;
        stores = stores;
        valid = valid;
        sent = sent;
        admitted =
            subst (λ (x : Site O). (allow_unlock slug req.client x.world).0 ≡ true) same admitted;
        opened =
            subst
              (λ (x : Site O).
                Opened store sha256 deps.files slug body (allow_unlock slug req.client x.world).1 u)
              same opened;
      }

  respond-Permitted :
      (chain : List Middleware) (c : Context) (value : Bytes) (e : Endpoint O) (p : Payload)
      → Guards deps.verifier deps.shares chain e
      → (run_chain req chain (entering req) s).0 ≡ passed c
      → (respond sha256 deps req c value e (run_chain req chain (entering req) s).1).0 ≡ success p
      → Permitted sha256 req s deps p
  unfolding respond
  respond-Permitted chain c value health p g h k =
      in_world-success healthy _ _ (Permitted sha256 req s deps) p k (λ a e. tt)
  respond-Permitted chain c value presign_upload p g h k =
      in_world-success presigned _ _ (Permitted sha256 req s deps) p k
        (λ a e. chain-Admitted req upload_limit chain (entering req) c s g h)
  respond-Permitted chain c value get_file p g h k =
      in_world-success download _ _ (Permitted sha256 req s deps) p k
        (λ a e. chain-Admitted req download_limit chain (entering req) c s g h)
  respond-Permitted chain c value (init_multipart mp) p g h k =
      in_world-success session _ _ (Permitted sha256 req s deps) p k
        (λ a e. chain-Admitted req upload_limit chain (entering req) c s g h)
  respond-Permitted chain c value (presign_part mp) p g h k =
      in_world-success part_url _ _ (Permitted sha256 req s deps) p k
        (λ a e. chain-Admitted req upload_limit chain (entering req) c s g h)
  respond-Permitted chain c value (multipart_status mp) p g h k =
      in_world-success parts _ _ (Permitted sha256 req s deps) p k
        (λ a e. chain-Admitted req upload_limit chain (entering req) c s g h)
  respond-Permitted chain c value (complete_multipart mp) p g h k =
      in_world-success completed _ _ (Permitted sha256 req s deps) p k
        (λ a e. chain-Admitted req upload_limit chain (entering req) c s g h)
  respond-Permitted chain c value (abort_multipart mp) p g h k =
      in_world-success upload_aborted _ _ (Permitted sha256 req s deps) p k
        (λ a e. chain-Admitted req upload_limit chain (entering req) c s g h)
  respond-Permitted chain c value share_maintenance p g h k = let clash : ⊥ = cc in absurd clash
  respond-Permitted chain c value auth_unavailable p g h k = let clash : ⊥ = cc in absurd clash
  respond-Permitted chain c value (create_share store) p g h k =
      in_world-success created _ _ (Permitted sha256 req s deps) p k
        (λ a e. chain-Admitted req create_limit chain (entering req) c s g h)
  respond-Permitted chain c value (get_share store) p g h k =
      in_world-success meta _ _ (Permitted sha256 req s deps) p k (λ a e. tt)
  respond-Permitted chain c value (unlock_share store) p (stores, is) h k =
      in_world-success unlocked _ _ (Permitted sha256 req s deps) p k (λ u e.
        unlock-IsUnlocked store c value u stores
          (subst (λ x. (run_chain req x (entering req) s).0 ≡ passed c) is h)
          (subst
            (λ x.
              (Share.unlock_share store sha256 deps.files req.client value c.body.unlock
                (run_chain req x (entering req) s).1.world).0
              ≡ success u)
            is e))
  respond-Permitted chain c value (list_mine store) p (v, checks, is) h k =
      let (user, found, verified, _) =
        required-passed req v (entering req) c s
          (subst (λ x. (run_chain req x (entering req) s).0 ≡ passed c) is h) in
      in_world-success mine _ _ (Permitted sha256 req s deps) p k
        (λ a e. record { verifier = v; user = user; checks = checks; verified = verified })
  respond-Permitted chain c value (revoke_share store) p (v, checks, stores, is) h k =
      let (user, found, verified, same) =
        required-passed req v (entering req) c s
          (subst (λ x. (run_chain req x (entering req) s).0 ≡ passed c) is h) in
      let still : (run_chain req chain (entering req) s).1 ≡ s =
        ap (λ x. (run_chain req x (entering req) s).1) is ∙ same in
      in_world-success revoked _ _ (Permitted sha256 req s deps) p k (λ a e.
        let sent : (Share.revoke_share store (some user) value s.world).0 ≡ success a =
          ap (λ x. (Share.revoke_share store (some user) value x.world).0) (sym still)
          ∙ (ap
                (λ u.
                  (Share.revoke_share store u value
                    (run_chain req chain (entering req) s).1.world).0)
                (sym found)
              ∙ e) in
        let (slug, deleted) = revoke_share-success store user value a s.world sent in
        record {
          verifier = v;
          store = store;
          user = user;
          checks = checks;
          stores = stores;
          verified = verified;
          deleted = subst (λ x. (store.delete x user.id s.world.db).0 ≡ ok tt) slug deleted;
        })

  run_route-Permitted :
      (value : Bytes) (r : Route O) (p : Payload)
      → Guarded deps.verifier deps.shares r
      → (run_route sha256 deps req value r s).0 ≡ success p
      → Permitted sha256 req s deps p
  unfolding run_route
  run_route-Permitted value r p g h =
      let c₀ : Context = record { user = none; body = req.body none } in
      elim (Verdict-cases (run_chain req r.chain c₀ s).0) [
        | inl (status, message, e) ↦ let clash : ⊥ = ground arith in absurd clash
        | inr (c, e) ↦ respond-Permitted r.chain c value r.endpoint p g e (ground arith)
      ]

-- A request that succeeds has passed what its endpoint asks for: an upload or a call on a session,
-- the limiter of the uploads; a download, that of the downloads; a new share, that of the creations;
-- an unlocked share, both limiters of the attempts, with a code that the JSON library found without
-- reading past 64 KB of the body, and that opened a share that the store has; a listing of one's
-- shares, the check of its token, which names a user; and a revocation was a deletion of the share
-- by the store, for the user whom the token names. It takes that the router picks a route of the
-- table.
pub serve-Permitted :
    {O : Type 0} (sha256 : Bytes → Bytes) (deps : Deps O) (router : Router O) (req : Request)
    (s : Site O) (p : Payload)
    → IsRouter router
    → (serve sha256 deps router req s).0 ≡ success p
    → Permitted sha256 req s deps p
unfolding serve
serve-Permitted sha256 deps router req s p picks h =
    elim (Option-cases (router req (setup_routes deps))) [
      | inl e ↦ let clash : ⊥ = ground arith in absurd clash
      | inr (found, e) ↦
          run_route-Permitted req s sha256 deps found.1 found.0 p
            (All-Among (Guarded deps.verifier deps.shares) (setup_routes deps)
              (setup_routes-Guarded deps) (picks req (setup_routes deps) found.0 found.1 e))
            (ground arith)
    ]
