-- ===== src/Actor/State.antt =====
-- The state of an actor, what its handlers do to the world, and what the world answers
-- (internal/actor/actor.go, and the store's and driver's types that it names).
use fern.Prelude.{
  ℕ, ◌≡◌, refl, ◌⊎◌, inl, inr, Bool, Option, none, some, List, [], ◌++◌, Bytes, if◌then◌else◌,
}
use fern.Ids.{is_builder, is_agent_box}

pub data Error : Type 0 where
  not_found invalid_id crashing too_many_forks : Error
  failed : ℕ → Error

pub data Result {ℓ} (A : Type ℓ) : Type ℓ where
  ok : A → Result A
  err : Error → Result A

-- store.Env, less its creation time.
pub record Env : Type 0 where
  pub id : Bytes
  pub workspace : Bytes
  pub claude : Bytes
  pub git : Bytes
  pub box_token : Bytes

pub data Kind : Type 0 where
  services agent builder : Kind

-- runsc.Box
pub record Box : Type 0 where
  pub id : Bytes
  pub kind : Kind
  pub env : Env

-- Idle: durations, 0 to keep boxes awake.
pub record Idle : Type 0 where
  pub agent : ℕ
  pub human : ℕ
  pub prewake : ℕ

-- The part of Config that the handlers read. `watcher` and `woken` say that the field is not nil.
pub record Config : Type 0 where
  pub idle : Idle
  pub agents : Bool
  pub watcher : Bool
  pub woken : Bool

-- What a pre-wake's metric counts when its lease ends.
pub data LeaseEnd : Type 0 where
  used wasted : LeaseEnd

-- The store's changes that a handler asks for.
pub data Change : Type 0 where
  take_snapshot drop_snapshot swap_disk : Bytes → Change
  prune delete_env : Change

-- What a handler does outside its actor, in order.
pub data Effect : Type 0 where
  wake_box : Box → Effect
  stop_box : Bytes → Effect
  cancel : ℕ → Effect
  count_lease : LeaseEnd → Effect
  start_watch stop_watch : Effect
  announce : Bytes → Effect
  stop_agent : Effect
  delete_fork : ℕ → Effect
  change : Change → Effect

-- Commands are known by their numbers: the function that cancels command `n` is the effect
-- `cancel n`. Times are numbers, 0 the zero time; `addr` is empty while the box is not known to
-- be up; `watching` says that stopWatch is not nil; `timer` is when the idle timer fires.
pub record Actor : Type 0 where
  pub id : Bytes
  pub addr : Bytes
  pub awake : Bool
  pub execs : List ℕ
  pub jobs : List ℕ
  pub next : ℕ
  pub opened : ℕ
  pub closed : ℕ
  pub lease : ℕ
  pub prewoken : Bool
  pub timer : Option ℕ
  pub watching : Bool
  pub crashes : List ℕ

-- What the world answers while an actor handles one message: the time before the driver is
-- called and after it has answered, and what the store, the driver and other actors return. An
-- answer that is not asked for is not used.
pub record Turn : Type 0 where
  pub now : ℕ
  pub done : ℕ
  pub get : Result Env
  pub wake : Result Bytes
  pub sleep : Option Error
  pub room : Bool
  pub has_snapshot : Result Bool
  pub envs : Result (List Bytes)
  pub agent_stopped : Option Error
  pub fork_deleted : ℕ → Option Error
  pub changed : Change → Option Error

-- What a handler returns: the actor, what it did, and its result.
pub record Step {ℓ} (A : Type ℓ) : Type ℓ where
  pub actor : Actor
  pub effects : List Effect
  pub result : Result A

module _ {ℓ} {A : Type ℓ} where
  abbrev pub step : Actor → List Effect → Result A → Step A
  step a es r = record { actor = a; effects = es; result = r }

  abbrev pub prepend : List Effect → Step A → Step A
  prepend es s = record s { effects = es ++ s.effects }

module _ {ℓ κ} {A : Type ℓ} {B : Type κ} where
  abbrev pub resume : Actor → List Effect → Result A → (Actor → A → Step B) → Step B
  resume a es (ok v) f = prepend es (f a v)
  resume a es (err e) f = step a es (err e)

  -- `if err != nil { return err }`, then the rest of the handler.
  abbrev pub and_then : Step A → (Actor → A → Step B) → Step B
  and_then s f = resume s.actor s.effects s.result f

-- The error that a call returned, if any.
abbrev pub result_of : Option Error → Result (Unit {0})
result_of none = ok tt
result_of (some e) = err e

-- boxOf: what each box runs and gets.
unfoldable pub box_of : Config → Bytes → Env → Box
unfolding is_builder is_agent_box
box_of g id env =
    if is_builder id
    then record { id = id; kind = builder; env = record env { claude = [] } }
    else if is_agent_box id
    then record { id = id; kind = agent; env = env }
    else if g.agents
    then record { id = id; kind = services; env = record env { claude = [] } }
    else record { id = id; kind = services; env = env }

pub Result-cases {ℓ} :
    {A : Type ℓ} (r : Result A) → ((v : A) × (r ≡ ok v)) ⊎ ((e : Error) × (r ≡ err e))
Result-cases (ok v) = inl (v, refl)
Result-cases (err e) = inr (e, refl)
