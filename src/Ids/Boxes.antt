-- ===== src/Ids/Boxes.antt =====
-- The two boxes of an environment have names that never meet.
use fern.Prelude.{
  ◌≡◌, subst, true, false, [], ◌∷◌, ◌++◌, arith, Bytes, ◌==◌, All, inl, inr, Bool-cases,
}
use fern.Text.{trim_suffix, has_suffix-append, has_suffix_sound, trim_suffix-append}
use fern.Ids.{label_end, env_id_pattern, agent_suffix, agent_box, is_agent_box, env_of_box}

-- A label has no dot.
label_end-no_dot : (s : Bytes) → label_end s ≡ true → All (λ c. (c == b'.') ≡ false) s
unfolding label_end
label_end-no_dot [] h = tt
label_end-no_dot (c ∷ []) h = ground arith
label_end-no_dot (c ∷ d ∷ cs) h = ground (arith, label_end-no_dot (d ∷ cs))

env_id-no_dot : (s : Bytes) → env_id_pattern s ≡ true → All (λ c. (c == b'.') ≡ false) s
unfolding env_id_pattern
env_id-no_dot [] h = tt
env_id-no_dot (c ∷ []) h = ground arith
env_id-no_dot (c ∷ d ∷ cs) h = ground (arith, label_end-no_dot (d ∷ cs))

no_dot-append : (s : Bytes) → All (λ c. (c == b'.') ≡ false) (s ++ agent_suffix) → ⊥
no_dot-append [] h = ground arith
no_dot-append (c ∷ s) h = no_dot-append s h.1

pub env_id-not_agent_box : (id : Bytes) → env_id_pattern id ≡ true → is_agent_box id ≡ false
env_id-not_agent_box id h = elim (Bool-cases (is_agent_box id)) [
  | inr n ↦ n
  | inl y ↦
      let e = has_suffix_sound id agent_suffix (unfold is_agent_box in y) in
      absurd (no_dot-append _ (subst (All (λ c. (c == b'.') ≡ false)) e (env_id-no_dot id h)))
]

env_of_box_own : (box : Bytes) → is_agent_box box ≡ false → env_of_box box ≡ box
unfolding env_of_box is_agent_box trim_suffix
env_of_box_own box h = rw h

-- For an ID that CheckEnvID accepts: its agent box is one and its own box is not, and EnvOfBox
-- takes both back to the ID.
box_names :
    (id : Bytes)
    → env_id_pattern id ≡ true
    → (is_agent_box (agent_box id) ≡ true)
      × (is_agent_box id ≡ false)
      × (env_of_box (agent_box id) ≡ id)
      × (env_of_box id ≡ id)
box_names id h =
    let own = env_id-not_agent_box id h in
    (
      unfold is_agent_box agent_box in has_suffix-append id agent_suffix,
      own,
      unfold env_of_box agent_box in trim_suffix-append id agent_suffix,
      env_of_box_own id own,
    )
