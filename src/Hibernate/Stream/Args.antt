-- ===== src/Hibernate/Stream/Args.antt =====
-- The arguments that a restarted Claude gets.
use fern.Prelude.{
  ◌≡◌, refl, ap, Bool, true, false, not, ◌&&◌, none, Option, List, [], ◌∷◌, ◌++◌, Bytes, codes,
  equal, All, append-nil, ◌⊎◌, inl, inr, some, Option-cases, Bool-cases, ◌∙◌,
}
use fern.Sets.{value_of}
use fern.Hibernate.Stream.{session_flags, cut_name, without_session, resume_args}

-- The argument is none of the flags that pick or fork a session.
abbrev pub IsOther : Bytes → Type 0
IsOther a = value_of (cut_name a).0 session_flags ≡ none

without_session-IsOther : (skip : Bool) (as_ : List Bytes) → All IsOther (without_session skip as_)
unfolding without_session
without_session-IsOther skip [] = tt
without_session-IsOther true (a ∷ as_) = without_session-IsOther false as_
without_session-IsOther false (a ∷ as_) =
    elim (Option-cases (value_of (cut_name a).0 session_flags)) [
      | inl e ↦ rw (e, without_session) (e, without_session-IsOther false as_)
      | inr (takes, e) ↦
          rw (e, without_session) (without_session-IsOther (takes && not (cut_name a).1) as_)
    ]

-- What is no such flag stays.
without_session-others :
    (xs ys : List Bytes)
    → All IsOther xs
    → without_session false (xs ++ ys) ≡ xs ++ without_session false ys
unfolding without_session
without_session-others [] ys h = refl
without_session-others (x ∷ xs) ys h =
    rw (h.0, without_session) (ap (◌∷◌ x) (without_session-others xs ys h.1))

resume_flag : (session : Bytes) → without_session false ((codes "--resume=" ++ session) ∷ []) ≡ []
unfolding without_session cut_name value_of equal
resume_flag session = refl

-- The flag's value is the argument after it.
abbrev pub TakesNext : Bytes → Type 0
TakesNext a = (value_of (cut_name a).0 session_flags ≡ some true) × ((cut_name a).1 ≡ false)

-- A session flag that is one argument: it takes no value, or has it behind a "=".
abbrev pub IsAlone : Bytes → Type 0
IsAlone a =
    (value_of (cut_name a).0 session_flags ≡ some false)
    ⊎ ((value_of (cut_name a).0 session_flags ≡ some true) × ((cut_name a).1 ≡ true))

-- What a command line is made of
pub data Piece : Type 0 where
  other alone : Bytes → Piece
  valued : Bytes → Bytes → Piece

abbrev pub IsPiece : Piece → Type 0
IsPiece (other a) = IsOther a
IsPiece (alone a) = IsAlone a
IsPiece (valued a value) = TakesNext a

abbrev pub printed : List Piece → List Bytes
printed [] = []
printed (other a ∷ ps) = a ∷ printed ps
printed (alone a ∷ ps) = a ∷ printed ps
printed (valued a value ∷ ps) = a ∷ value ∷ printed ps

abbrev pub others : List Piece → List Bytes
others [] = []
others (other a ∷ ps) = a ∷ others ps
others (alone a ∷ ps) = others ps
others (valued a value ∷ ps) = others ps

-- The end of a command line: nothing, or a flag without the value that it takes
abbrev pub IsEnd : Option Bytes → Type 0
IsEnd none = Unit
IsEnd (some a) = TakesNext a

abbrev pub ended : Option Bytes → List Bytes
ended none = []
ended (some a) = a ∷ []

-- The arguments are these pieces and this end, and `kept` are the pieces that are no session flags.
abbrev IsRead : List Bytes → List Bytes → Type 0
IsRead as_ kept =
    (ps : List Piece) × (end : Option Bytes) × (as_ ≡ printed ps ++ ended end)
    × All IsPiece ps
    × IsEnd end
    × (kept ≡ others ps)

abbrev Shape : Bytes → Type 0
Shape a = IsOther a ⊎ (IsAlone a ⊎ TakesNext a)

Shape-cases : (a : Bytes) → Shape a
Shape-cases a = elim (Option-cases (value_of (cut_name a).0 session_flags)) [
  | inl e ↦ inl e
  | inr (takes, e) ↦ inr (flag takes e)
]
  where
    flag :
        (takes : Bool)
        → value_of (cut_name a).0 session_flags ≡ some takes
        → IsAlone a ⊎ TakesNext a
    flag false e = inl (inl e)
    flag true e = elim (Bool-cases (cut_name a).1) [ inl y ↦ inl (inr (e, y)) | inr n ↦ inr (e, n) ]

without_session-other :
    (a : Bytes) (as_ : List Bytes)
    → IsOther a
    → without_session false (a ∷ as_) ≡ a ∷ without_session false as_
unfolding without_session
without_session-other a as_ h = rw (h, without_session) refl

without_session-alone :
    (a : Bytes) (as_ : List Bytes)
    → IsAlone a
    → without_session false (a ∷ as_) ≡ without_session false as_
unfolding without_session
without_session-alone a as_ (inl e) = rw (e, without_session) refl
without_session-alone a as_ (inr (e, y)) = rw (e, without_session, y) refl

without_session-valued :
    (a value : Bytes) (as_ : List Bytes)
    → TakesNext a
    → without_session false (a ∷ value ∷ as_) ≡ without_session false as_
unfolding without_session
without_session-valued a value as_ (e, n) = rw (e, without_session, n, without_session) refl

without_session-unfinished : (a : Bytes) → TakesNext a → without_session false (a ∷ []) ≡ []
unfolding without_session
without_session-unfinished a (e, n) = rw (e, without_session) refl

with_other :
    (a : Bytes) (as_ : List Bytes)
    → IsOther a
    → IsRead as_ (without_session false as_)
    → IsRead (a ∷ as_) (without_session false (a ∷ as_))
with_other a as_ h (ps, end, e, k, u, r) =
    (other a ∷ ps, end, ap (◌∷◌ a) e, (h, k), u, without_session-other a as_ h ∙ ap (◌∷◌ a) r)

with_alone :
    (a : Bytes) (as_ : List Bytes)
    → IsAlone a
    → IsRead as_ (without_session false as_)
    → IsRead (a ∷ as_) (without_session false (a ∷ as_))
with_alone a as_ h (ps, end, e, k, u, r) =
    (alone a ∷ ps, end, ap (◌∷◌ a) e, (h, k), u, without_session-alone a as_ h ∙ r)

with_valued :
    (a value : Bytes) (as_ : List Bytes)
    → TakesNext a
    → IsRead as_ (without_session false as_)
    → IsRead (a ∷ value ∷ as_) (without_session false (a ∷ value ∷ as_))
with_valued a value as_ h (ps, end, e, k, u, r) = (
  valued a value ∷ ps,
  end,
  ap (λ t. a ∷ value ∷ t) e,
  (h, k),
  u,
  without_session-valued a value as_ h ∙ r,
)

without_session-IsRead : (as_ : List Bytes) → IsRead as_ (without_session false as_)
unfolding without_session
without_session-IsRead [] = ([], none, refl, tt, tt, refl)
without_session-IsRead (a ∷ []) = elim (Shape-cases a) [
  | inl h ↦ with_other a [] h ([], none, refl, tt, tt, refl)
  | inr (inl h) ↦ with_alone a [] h ([], none, refl, tt, tt, refl)
  | inr (inr h) ↦ ([], some a, refl, tt, h, without_session-unfinished a h)
]
without_session-IsRead (a ∷ b ∷ as_) =
    let after_next = without_session-IsRead as_ in
    let after = without_session-IsRead (b ∷ as_) in
    elim (Shape-cases a) [
      | inl h ↦ with_other a (b ∷ as_) h after
      | inr (inl h) ↦ with_alone a (b ∷ as_) h after
      | inr (inr h) ↦ with_valued a b as_ h after_next
    ]

-- The arguments after the command are, in order, pieces: a session flag that takes a value, not
-- written behind a "=", with the argument after it, any other session flag, or an argument that is
-- none; at the end there may be a flag whose value is missing. A restarted Claude gets the command,
-- the arguments that are no session flags and no values of one, all of them and in the same order, and
-- the session to resume. A Claude that is restarted from these gets the same with its own session.
pub resume_args-resume_args :
    (a : Bytes) (as_ : List Bytes) (first second : Bytes)
    → (ps : List Piece) × (end : Option Bytes) × (as_ ≡ printed ps ++ ended end)
      × All IsPiece ps
      × IsEnd end
      × (resume_args (a ∷ as_) first ≡ a ∷ (others ps ++ (codes "--resume=" ++ first) ∷ []))
      × (resume_args (resume_args (a ∷ as_) first) second ≡ resume_args (a ∷ as_) second)
unfolding resume_args
resume_args-resume_args a as_ first second =
    let kept = without_session false as_ in
    let (ps, end, e, k, u, r) = without_session-IsRead as_ in
    (
      ps,
      end,
      e,
      k,
      u,
      ap (λ xs. a ∷ (xs ++ (codes "--resume=" ++ first) ∷ [])) r,
      rw
          (
            without_session-others kept ((codes "--resume=" ++ first) ∷ [])
                (without_session-IsOther false as_),
            resume_flag first,
            append-nil kept,
          )
          refl,
    )
