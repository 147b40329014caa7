-- ===== src/Server/Shutdown.antt =====
-- `Start` of internal/server/server.go: the order in which the server starts and stops its parts. What the
-- HTTP library and the signals do are parameters.
use lapis_archive_file_servi.Prelude.{
  [], ◌∷◌, ◌++◌, List, codes, Bool, true, false, not, ◌&&◌, Option, none, some, ◌≡◌, refl,
}
use lapis_archive_file_servi.Result.{Error, Result, ok, err, wrapped}
use lapis_archive_file_servi.Server.Startup.{Server, Runner}

-- what ends the wait of `Start`
pub data Ending : Type 0 where
  listen_failed : Error → Ending
  signalled : Ending

pub data Action : Type 0 where
  start_workers listen shutdown_http stop_workers wait_workers close_pool : Action

abbrev with_runner : {O : Type 0} → Action → Option (Runner O) → List Action
with_runner action none = []
with_runner action (some runner) = action ∷ []

abbrev closing : Bool → List Action
closing false = []
closing true = close_pool ∷ []

module _ {O : Type 0} (srv : Server O) where
  -- after a signal, where `shut` is what `Shutdown` returns; the wait for the workers may time out
  unfoldable pub shut_down : Result (Unit {0}) → Result (Unit {0}) × List Action
  shut_down (err e) = (err (wrapped (codes "shutting down: ") e), shutdown_http ∷ [])
  shut_down (ok done) = (
    ok tt,
    shutdown_http ∷ stop_workers ∷ (with_runner wait_workers srv.runner ++ closing srv.has_pool),
  )

  unfoldable pub until_ending : Ending → Result (Unit {0}) → Result (Unit {0}) × List Action
  until_ending (listen_failed e) shut = (err e, [])
  until_ending signalled shut = shut_down shut

  -- `Start`, where `trusted` is what `SetTrustedProxies` returns; the last action is the deferred one
  unfoldable pub start :
      Result (Unit {0}) → Ending → Result (Unit {0}) → Result (Unit {0}) × List Action
  start (err e) ending shut = (err (wrapped (codes "setting trusted proxies: ") e), [])
  start (ok done) ending shut =
      let (r, actions) = until_ending ending shut in
      (r, with_runner start_workers srv.runner ++ listen ∷ (actions ++ stop_workers ∷ []))

-- Workers are waited for only once they have been told to stop, the pool is closed only after that and
-- after the HTTP server is down, and nothing is started then. The flags say what was done before.
orderly : Bool → Bool → List Action → Bool
orderly down stopped [] = true
orderly down stopped (start_workers ∷ actions) =
    let rest = orderly down stopped actions in not down && (not stopped && rest)
orderly down stopped (listen ∷ actions) =
    let rest = orderly down stopped actions in not down && (not stopped && rest)
orderly down stopped (shutdown_http ∷ actions) = orderly true stopped actions
orderly down stopped (stop_workers ∷ actions) = orderly down true actions
orderly down stopped (wait_workers ∷ actions) =
    let rest = orderly down stopped actions in stopped && rest
orderly down stopped (close_pool ∷ actions) =
    let rest = orderly down stopped actions in down && (stopped && rest)

-- The server starts and stops its parts in order, however it ends.
start-orderly :
    {O : Type 0} (srv : Server O) (trusted : Result (Unit {0})) (ending : Ending)
    (shut : Result (Unit {0}))
    → orderly false false (start srv trusted ending shut).1 ≡ true
unfolding start until_ending shut_down orderly
start-orderly srv (err e) ending shut = refl
start-orderly srv (ok tt) ending shut = by_parts srv.runner srv.has_pool ending shut
  where
    by_parts :
        (runner : Option (Runner _)) (has_pool : Bool) (ending : Ending) (shut : Result (Unit {0}))
        → orderly false false
            (start (record srv { runner = runner; has_pool = has_pool }) (ok tt) ending shut).1
          ≡ true
    by_parts none has_pool (listen_failed e) shut = refl
    by_parts (some r) has_pool (listen_failed e) shut = refl
    by_parts none has_pool signalled (err e) = refl
    by_parts (some r) has_pool signalled (err e) = refl
    by_parts none false signalled (ok tt) = refl
    by_parts none true signalled (ok tt) = refl
    by_parts (some r) false signalled (ok tt) = refl
    by_parts (some r) true signalled (ok tt) = refl
