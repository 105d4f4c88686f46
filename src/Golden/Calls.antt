-- ===== src/Golden/Calls.antt =====
-- A build's calls, from one stage of the builder to the next.
use fern.Prelude.{
  ℕ, ◌≡◌, refl, sym, subst, inl, inr, Bool, Bool-cases, true, false, ◌&&◌, Option, none, some, List,
  [], ◌∷◌, Bytes, arith, All,
}
use fern.Golden.{
  Work, copied, used, half, stripped, Builder, written, How, goes, fails, dies, Fate, Outcome, done,
  failed, died, Io, by_box, from_option, caught, ended, call, go_on, all_done,
}

-- `Q` holds of the result and of what is left, or else `E` of that.
pub data After {A : Type 0} (Q : A → Builder → Type 0) (E : Builder → Type 0)
    : Outcome A → Type 0 where
  result : (a : A) (b : Builder) (fs : List Fate) → Q a b → After Q E (done a b fs)
  error : (b : Builder) (fs : List Fate) → E b → After Q E (failed b fs)
  crash : (b : Builder) → E b → After Q E (died b)

pub After-bind :
    {A B : Type 0} {Q : A → Builder → Type 0} {R : B → Builder → Type 0} {E : Builder → Type 0}
    (o : Outcome A) (f : A → Io B)
    → After Q E o
    → ((a : A) (b : Builder) (fs : List Fate) → Q a b → After R E (f a b fs))
    → After R E (go_on o f)
After-bind (done a b fs) f (result _ _ _ h) k = k a b fs h
After-bind (failed b fs) f (error _ _ h) k = error b fs h
After-bind (died b) f (crash _ h) k = crash b h

pub After-caught :
    {A : Type 0} {Q : A → Builder → Type 0} {R : Option A → Builder → Type 0}
    {E F : Builder → Type 0} (o : Outcome A)
    → After Q E o
    → ((a : A) (b : Builder) → Q a b → R (some a) b)
    → ((b : Builder) → E b → R none b)
    → ((b : Builder) → E b → F b)
    → After R F (caught o)
After-caught (done a b fs) (result _ _ _ h) q e c = result (some a) b fs (q a b h)
After-caught (failed b fs) (error _ _ h) q e c = result none b fs (e b h)
After-caught (died b) (crash _ h) q e c = crash b (c b h)

pub After-weaken :
    {A : Type 0} {Q : A → Builder → Type 0} {E F : Builder → Type 0} (o : Outcome A)
    → ((b : Builder) → E b → F b)
    → After Q E o
    → After Q F o
After-weaken (done a b fs) e (result _ _ _ h) = result a b fs h
After-weaken (failed b fs) e (error _ _ h) = error b fs (e b h)
After-weaken (died b) e (crash _ h) = crash b (e b h)

-- A snapshot is of a checkout's key, and of a workspace whose box was stopped and that was stripped.
abbrev pub AreGolden : (Work → Option Bytes) → List (Bytes × Work) → Type 0
AreGolden key ss = All (λ p. (c : ℕ) × (key (copied c) ≡ some p.0) × (p.1 ≡ stripped c)) ss

-- The stages: of the workspace, the list and whether the box runs.
abbrev pub Any : Work → Option ℕ → Bool → Type 0
Any w l up = Unit

abbrev pub IsDown : Work → Option ℕ → Bool → Type 0
IsDown w l up = up ≡ false

abbrev pub IsListed : ℕ → Work → Option ℕ → Bool → Type 0
IsListed c w l up = (up ≡ false) × (l ≡ some c)

abbrev pub IsCopied : ℕ → Work → Option ℕ → Bool → Type 0
IsCopied c w l up = (up ≡ false) × (l ≡ some c) × (w ≡ copied c)

abbrev pub IsUsed : ℕ → Work → Option ℕ → Bool → Type 0
IsUsed c w l up = (l ≡ some c) × (w ≡ used c)

abbrev pub IsStopped : ℕ → Work → Option ℕ → Bool → Type 0
IsStopped c w l up = (up ≡ false) × (l ≡ some c) × (w ≡ used c)

abbrev pub IsHalf : ℕ → Work → Option ℕ → Bool → Type 0
IsHalf c w l up = (up ≡ false) × (w ≡ half c)

abbrev pub IsStripped : ℕ → Work → Option ℕ → Bool → Type 0
IsStripped c w l up = (up ≡ false) × (w ≡ stripped c)

module _ (key : Work → Option Bytes) where
  abbrev pub IsGolden : Builder → Type 0
  IsGolden b = AreGolden key b.snaps

  abbrev pub Stage : (Work → Option ℕ → Bool → Type 0) → Builder → Type 0
  Stage P b = IsGolden b × P b.work b.listed b.up

  -- A call, from a stage that the box's writes keep.
  pub call-After :
      {A : Type 0} {Q : A → Builder → Type 0} {E : Builder → Type 0}
      (P : Work → Option ℕ → Bool → Type 0) (f : Builder → Option A × Builder)
      → ((w : Work) (l : Option ℕ) → P w l true → P (written w) l true)
      → (b : Builder) (fs : List Fate) → Stage P b
      → ((v : Builder) → Stage P v → E v × E (f v).1 × ((a : A) → (f v).0 ≡ some a → Q a (f v).1))
      → After Q E (call f b fs)
  unfolding call
  call-After {A} {Q} {E} P f kept b fs h k = at fs
    where
      given :
          (o : Option A) (v : Builder) (gs : List Fate)
          → E v
          → ((a : A) → o ≡ some a → Q a v)
          → After Q E (from_option o v gs)
      given none v gs g q = error v gs g
      given (some a) v gs g q = result a v gs (q a refl)

      ends : (w : How) (v : Builder) (gs : List Fate) → Stage P v → After Q E (ended f w v gs)
      ends goes v gs i = given (f v).0 (f v).1 gs (k v i).1 (k v i).2
      ends (fails true) v gs i = error (f v).1 gs (k v i).1
      ends (fails false) v gs i = error v gs (k v i).0
      ends (dies true) v gs i = crash (f v).1 (k v i).1
      ends (dies false) v gs i = crash v (k v i).0

      there : (x : Bool) → Stage P (by_box x b)
      there x = elim (Bool-cases (b.up && x)) [
        | inl y ↦
            let up : b.up ≡ true = ground (arith, y) in
            let q : P b.work b.listed true = subst (P b.work b.listed) up h.1 in
            rw y (h.0, subst (P (written b.work) b.listed) (sym up) (kept b.work b.listed q))
        | inr n ↦ rw n h
      ]

      at : (gs : List Fate) → After Q E (call f b gs)
      at [] = ends goes b [] h
      at (x ∷ gs) = ends x.how (by_box x.writes b) gs (there x.writes)

  -- A call that is about the builder only, from one stage to the next.
  pub step-After :
      (P R : Work → Option ℕ → Bool → Type 0) (f : Builder → Builder)
      → ((w : Work) (l : Option ℕ) → P w l true → P (written w) l true)
      → ((v : Builder) → Stage P v → Stage R (f v))
      → (b : Builder) (fs : List Fate) → Stage P b
      → After (λ _ v. Stage R v) IsGolden (call (λ v. all_done (f v)) b fs)
  step-After P R f kept r b fs h =
      call-After P (λ v. all_done (f v)) kept b fs h λ v i. (i.0, (r v i).0, λ _ _. r v i)
