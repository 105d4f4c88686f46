-- ===== src/Actor/Wake/Stuck.antt =====
-- A box that died once too often stays known at the address that does not answer.
use fern.Prelude.{◌≤◌, ◌≡◌, ◌≢◌, sym, ◌∙◌, [], arith, length, equal_refl, equal_iff}
use fern.Actor.State.{Config, Actor, Turn, ok, err, crashing, Env}
use fern.Actor.Wake.{wake, wake_env, wake_down, crash_limit}
use fern.Actor.Wake.Crashes.{wakes, counted}
use fern.Actor.Changes.{wake_up, woken_up}

-- The refusal leaves the address, and a wake with no stale address takes it for up.
wake-up :
    (g : Config) (o : Turn) (a : Actor) (env : Env)
    → o.get ≡ ok env
    → a.addr ≢ []
    → ((wake g o [] a).result ≡ ok env)
      × ((wake g o [] a).effects ≡ [])
      × ((wake g o [] a).actor ≡ a)
unfolding wake wake_env
wake-up g o a env k n = ground (arith, equal_iff a.addr [])

refused-addr :
    (g : Config) (o : Turn) (a : Actor) (env : Env)
    → o.get ≡ ok env
    → a.addr ≢ []
    → crash_limit ≤ length (counted o a.addr a)
    → ((wake g o a.addr a).result ≡ err crashing) × ((wake g o a.addr a).actor.addr ≡ a.addr)
unfolding wake wake_env wake_down
refused-addr g o a env k n c = ground (arith, equal_refl a.addr)

-- A box that stopped answering at its address, for the third time within the window or later: the
-- command that says so is refused, but the actor keeps the address; so the next command that names no
-- dead address succeeds and does nothing at all, and a person's wake succeeds without asking the
-- driver to wake anything.
pub wake_up-stuck :
    (g : Config) (o next : Turn) (a : Actor) (env env' : Env)
    → o.get ≡ ok env
    → next.get ≡ ok env'
    → a.addr ≢ []
    → crash_limit ≤ length (counted o a.addr a)
    → let dead = (wake g o a.addr a).actor in
      ((wake g o a.addr a).result ≡ err crashing)
      × (dead.addr ≡ a.addr)
      × ((wake g next [] dead).result ≡ ok env')
      × ((wake g next [] dead).effects ≡ [])
      × ((wake_up g next dead).result ≡ ok tt)
      × (wakes (wake_up g next dead).effects ≡ 0)
unfolding wake_up woken_up
wake_up-stuck g o next a env env' k k' n c =
    let dead = (wake g o a.addr a).actor in
    let (r, e) = refused-addr g o a env k n c in
    let still : dead.addr ≢ [] = (λ z. n (sym e ∙ z)) in
    let tried = record dead { crashes = [] } in
    let (r', es, same) = wake-up g next tried env' k' still in
    let (w, quiet, kept) = wake-up g next dead env' k' still in
    (r, e, w, quiet, rw r', ground (arith, r', es))
