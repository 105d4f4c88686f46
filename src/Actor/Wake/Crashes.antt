-- ===== src/Actor/Wake/Crashes.antt =====
-- Boxes that keep crashing.
use fern.Prelude.{
  ℕ, suc, ◌+◌, ◌≤◌, ◌<◌, ◌≡◌, refl, sym, subst, sym, subst, Bool, ◌⊎◌, false, ◌&&◌, not, List, [],
  ◌∷◌, ◌++◌, arith, Bytes, leb, length, if◌then◌else◌, is_empty, All, equal,
}
use fern.Actor.State.{Config, Actor, Turn, Effect, Result, ok, err, crashing, Env, Error, box_of}
use fern.Actor.State
use fern.Actor.Wake.{recent, wake, wake_env, wake_down, woken, crash_limit, crash_window}

-- How often the driver is asked to wake a box.
abbrev pub wakes : List Effect → ℕ
wakes [] = 0
wakes (State.wake_box b ∷ es) = suc (wakes es)
wakes (_ ∷ es) = wakes es

-- The box is known to be up, and not at the address that does not answer.
abbrev pub is_up : Bytes → Actor → Bool
is_up stale a = not (is_empty a.addr) && not (equal a.addr stale)

-- The crashes that `wake` counts: a stale address is one more.
abbrev pub counted : Turn → Bytes → Actor → List ℕ
counted o stale a =
    if not (is_empty stale) then recent o.now (a.crashes ++ o.now ∷ []) else recent o.now a.crashes

-- The actor that `wake_down` starts from.
abbrev noted : Turn → Bytes → Actor → Actor
noted o stale a = if not (is_empty stale) then record a { crashes = a.crashes ++ o.now ∷ [] } else a

wake-eq-wake_down :
    (g : Config) (o : Turn) (stale : Bytes) (a : Actor) (env : Env)
    → o.get ≡ ok env
    → is_up stale a ≡ false
    → wake g o stale a ≡ wake_down g o (noted o stale a) env
unfolding wake wake_env
wake-eq-wake_down g o stale a env k u = rw (k, u) (ground arith)

counted-noted :
    (o : Turn) (stale : Bytes) (a : Actor)
    → recent o.now (noted o stale a).crashes ≡ counted o stale a
counted-noted o [] a = refl
counted-noted o (x ∷ s) a = refl

wake_down-refused :
    (g : Config) (o : Turn) (a : Actor) (env : Env)
    → crash_limit ≤ length (recent o.now a.crashes)
    → ((wake_down g o a env).result ≡ err crashing) × ((wake_down g o a env).effects ≡ [])
unfolding wake_down
wake_down-refused g o a env h = ground arith

wake_down-asks :
    (g : Config) (o : Turn) (a : Actor) (env : Env) (e : Error)
    → length (recent o.now a.crashes) < crash_limit
    → o.wake ≡ err e
    → (wakes (wake_down g o a env).effects ≡ 1)
      × ((wake_down g o a env).result ≡ err e)
      × ((wake_down g o a env).actor.crashes ≡ recent o.now a.crashes ++ o.done ∷ [])
unfolding wake_down woken
wake_down-asks g o a env e h f = ground arith

-- For a box whose environment is known and that is not known to be up elsewhere than at the stale
-- address: with three crashes or more within the window, the one that a stale address reports
-- counted, the wake is refused with ErrCrashing, and nothing is done.
wake-refused :
    (g : Config) (o : Turn) (stale : Bytes) (a : Actor) (env : Env)
    → o.get ≡ ok env
    → is_up stale a ≡ false
    → crash_limit ≤ length (counted o stale a)
    → ((wake g o stale a).result ≡ err crashing) × ((wake g o stale a).effects ≡ [])
wake-refused g o stale a env k u h =
    rw (wake-eq-wake_down g o stale a env k u)
      (wake_down-refused g o (noted o stale a) env (rw counted-noted h))

-- With fewer than three the driver is asked once, and a wake that fails returns the driver's error
-- and counts as one more crash.
wake-asks :
    (g : Config) (o : Turn) (stale : Bytes) (a : Actor) (env : Env) (e : Error)
    → o.get ≡ ok env
    → is_up stale a ≡ false
    → length (counted o stale a) < crash_limit
    → o.wake ≡ err e
    → (wakes (wake g o stale a).effects ≡ 1)
      × ((wake g o stale a).result ≡ err e)
      × ((wake g o stale a).actor.crashes ≡ counted o stale a ++ o.done ∷ [])
wake-asks g o stale a env e k u h f =
    rw (wake-eq-wake_down g o stale a env k u, ← counted-noted o stale a)
      (wake_down-asks g o (noted o stale a) env e (rw counted-noted h) f)

-- How many of the times are not before `t₀`.
abbrev pub since : ℕ → List ℕ → ℕ
since t [] = 0
since t (x ∷ xs) = (if leb t x then 1 else 0) + since t xs

since-append : (t : ℕ) (xs ys : List ℕ) → since t (xs ++ ys) ≡ since t xs + since t ys
since-append t [] ys = omega arith
since-append t (x ∷ xs) ys = omega (arith, since-append t xs ys)

-- None of the times from `t` on is dropped within the window.
since-recent :
    (t now : ℕ) (xs : List ℕ) → now < t + crash_window → since t (recent now xs) ≡ since t xs
unfolding recent
since-recent t now [] h = refl
since-recent t now (x ∷ xs) h = ground (arith, since-recent t now xs h)

since-le : (t : ℕ) (xs : List ℕ) → since t xs ≤ length xs
since-le t [] = omega arith
since-le t (x ∷ xs) = ground (arith, since-le t xs)

-- The wakes of a box, one after the other, each with what the world answers.
abbrev pub tries : Config → List Turn → Actor → ℕ
tries g [] a = 0
tries g (o ∷ os) a = wakes (wake g o [] a).effects + tries g os (wake g o [] a).actor

-- A turn within the window from `t` whose wake, if it is asked for, fails.
pub record FailsWithin (t : ℕ) (o : Turn) : Type 0 where
  pub from : t ≤ o.now
  pub order : o.now ≤ o.done
  pub within : o.done < t + crash_window
  pub error : Error
  pub fails : o.wake ≡ err error

-- What one try adds to the wakes that were asked for, it adds to the crashes since `t`.
abbrev Accounts : ℕ → Actor → State.Step Env → Type 0
Accounts t a s =
    (s.actor.addr ≡ [])
    × (since t s.actor.crashes ≡ since t a.crashes + wakes s.effects)
    × (wakes s.effects ≤ 1)
    × ((wakes s.effects ≡ 0) ⊎ (since t a.crashes < crash_limit))

module _ (g : Config) (t : ℕ) (o : Turn) (f : FailsWithin t o) where
  wake_down-Accounts : (a : Actor) (env : Env) → a.addr ≡ [] → Accounts t a (wake_down g o a env)
  unfolding wake_down woken
  wake_down-Accounts a env e = ground (
    arith,
    f.fails,
    since-recent t o.now a.crashes,
    since-le t (recent o.now a.crashes),
    since-append t (recent o.now a.crashes) (o.done ∷ []),
  )

  wake_env-Accounts :
      (a : Actor) (r : Result Env) → a.addr ≡ [] → Accounts t a (wake_env g o [] a r)
  unfolding wake_env
  wake_env-Accounts a (err x) e = ground arith
  wake_env-Accounts a (ok env) e =
      let down : wake_env g o [] a (ok env) ≡ wake_down g o a env = ground arith in
      subst (Accounts t a) (sym down) (wake_down-Accounts a env e)

  wake-Accounts : (a : Actor) → a.addr ≡ [] → Accounts t a (wake g o [] a)
  unfolding wake
  wake-Accounts a e = wake_env-Accounts a o.get e

tries-bound :
    (g : Config) (t : ℕ) (os : List Turn) (a : Actor)
    → All (FailsWithin t) os
    → a.addr ≡ []
    → since t a.crashes ≤ crash_limit
    → tries g os a + since t a.crashes ≤ crash_limit
tries-bound g t [] a f e h = omega arith
tries-bound g t (o ∷ os) a f e h =
    let (e', s, one, below) = wake-Accounts g t o f.0 a e in
    let rest = tries-bound g t os (wake g o [] a).actor f.1 e' (omega arith) in omega arith

-- The driver is asked at most three times to wake a box within one window, however often that is
-- tried, if it fails each time and no person asks.
pub tries-le :
    (g : Config) (t : ℕ) (os : List Turn) (a : Actor)
    → All (FailsWithin t) os
    → a.addr ≡ []
    → since t a.crashes ≡ 0
    → tries g os a ≤ crash_limit
tries-le g t os a f e z = omega (arith, tries-bound g t os a f e (omega arith))
