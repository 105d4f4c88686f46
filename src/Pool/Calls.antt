-- ===== src/Pool/Calls.antt =====
-- What holds when a sequence of calls ends, in a result, an error or a crash.
use fern.Prelude.{List, [], ◌∷◌}
use fern.Pool.Disk.{
  Fault, io, Fate, goes, fails, dies, World, done, failed, died, Outcome, Io, look, go_on, read_on,
}

-- `Q` holds of the result and of the world that is left, or else `S` of that world.
pub data After {ℓ} {A : Type ℓ} (Q : A → World → Type 0) (S : World → Type 0)
    : Outcome A → Type ℓ where
  result : (a : A) (w : World) → Q a w → After Q S (done a w)
  error : (e : Fault) (w : World) → S w → After Q S (failed e w)
  crash : (w : World) → S w → After Q S (died w)

pub After-bind {ℓ κ} :
    {A : Type ℓ} {B : Type κ} {Q : A → World → Type 0} {R : B → World → Type 0} {S : World → Type 0}
    (o : Outcome A) (f : A → Io B)
    → After Q S o
    → ((a : A) (v : World) → Q a v → After R S (f a v))
    → After R S (go_on o f)
After-bind (done a w) f (result _ _ h) k = k a w h
After-bind (failed e w) f (error _ _ h) k = error e w h
After-bind (died w) f (crash _ h) k = crash w h

pub After-weaken {ℓ} :
    {A : Type ℓ} {Q R : A → World → Type 0} {S T : World → Type 0} (o : Outcome A)
    → ((a : A) (w : World) → Q a w → R a w)
    → ((w : World) → S w → T w)
    → After Q S o
    → After R T o
After-weaken (done a w) f g (result _ _ h) = result a w (f a w h)
After-weaken (failed e w) f g (error _ _ h) = error e w (g w h)
After-weaken (died w) f g (crash _ h) = crash w (g w h)

pub look-After {ℓ} :
    {A : Type ℓ} {Q : A → World → Type 0} {S : World → Type 0} (f : World → A) (w : World)
    → ((fs : List Fate) → Q (f w) (record w { fates = fs }))
    → ((fs : List Fate) → S (record w { fates = fs }))
    → After Q S (look f w)
unfolding look
look-After {Q = Q} {S = S} f w q s = reads w.fates
  where
    reads : (fs : List Fate) → After Q S (read_on f w fs)
    reads [] = result (f w) w (q w.fates)
    reads (goes ∷ fs) = result (f w) (record w { fates = fs }) (q fs)
    reads (fails gone e ∷ fs) = error (io e) (record w { fates = fs }) (s fs)
    reads (dies gone ∷ fs) = crash (record w { fates = fs }) (s fs)
