-- ===== src/Policy/Sorting.antt =====
-- What sorting the policies leaves as it was.
use memeloop_token_center_mi.Common.{
  ◌≡◌, refl, ◌∙◌, ◌⊎◌, inl, inr, Bool, true, false, ◌||◌, List, [], ◌∷◌, map, Text, text_eq,
  text_eq_sym, contains, if◌then◌else◌, All, Any, arith, Bool-cases,
}
use memeloop_token_center_mi.Routes.Sorting.{IsDistinct}
use memeloop_token_center_mi.Policy.Parse.{NativePolicy}
use memeloop_token_center_mi.Policy.Plan.{insert_policy, sort_policies}

module _ (before : Text → Text → Bool) (P : NativePolicy → Type 0) where
  pick_either :
      (b : Bool) (p q : NativePolicy) (qs r : List NativePolicy)
      → (Any P r → P p ⊎ Any P qs)
      → Any P (if b then q ∷ r else p ∷ q ∷ qs)
      → P p ⊎ Any P (q ∷ qs)
  pick_either true p q qs r k (inl h) = inr (inl h)
  pick_either true p q qs r k (inr h) = elim (k h) [ inl x ↦ inl x | inr y ↦ inr (inr y) ]
  pick_either false p q qs r k h = h

  pick_both :
      (b : Bool) (p q : NativePolicy) (qs r : List NativePolicy)
      → (All P r → P p × All P qs)
      → All P (if b then q ∷ r else p ∷ q ∷ qs)
      → P p × All P (q ∷ qs)
  pick_both true p q qs r k (x, h) = let (y, z) = k h in (y, (x, z))
  pick_both false p q qs r k h = h

  insert_policy-Any :
      (p : NativePolicy) (ps : List NativePolicy)
      → Any P (insert_policy before p ps)
      → P p ⊎ Any P ps
  unfolding insert_policy
  insert_policy-Any p [] h = h
  insert_policy-Any p (q ∷ qs) h =
      pick_either (before q.key_hash p.key_hash) p q qs (insert_policy before p qs)
        (insert_policy-Any p qs) h

  pub sort_policies-Any : (ps : List NativePolicy) → Any P (sort_policies before ps) → Any P ps
  unfolding sort_policies
  sort_policies-Any [] h = h
  sort_policies-Any (p ∷ ps) h = elim (insert_policy-Any p (sort_policies before ps) h) [
    | inl k ↦ inl k
    | inr k ↦ inr (sort_policies-Any ps k)
  ]

  insert_policy-All :
      (p : NativePolicy) (ps : List NativePolicy)
      → All P (insert_policy before p ps)
      → P p × All P ps
  unfolding insert_policy
  insert_policy-All p [] h = h
  insert_policy-All p (q ∷ qs) h =
      pick_both (before q.key_hash p.key_hash) p q qs (insert_policy before p qs)
        (insert_policy-All p qs) h

  pub sort_policies-All : (ps : List NativePolicy) → All P (sort_policies before ps) → All P ps
  unfolding sort_policies
  sort_policies-All [] h = h
  sort_policies-All (p ∷ ps) h =
      let (k, rest) = insert_policy-All p (sort_policies before ps) h in
      (k, sort_policies-All ps rest)

module _ (before : Text → Text → Bool) (name : NativePolicy → Text) where
  contains-insert_policy :
      (t : Text) (p : NativePolicy) (ps : List NativePolicy)
      → contains t (map name (insert_policy before p ps))
        ≡ (text_eq t (name p) || contains t (map name ps))
  unfolding insert_policy
  contains-insert_policy t p [] = refl
  contains-insert_policy t p (q ∷ qs) = ground (arith, contains-insert_policy t p qs)

  contains-sort_policies :
      (t : Text) (ps : List NativePolicy)
      → contains t (map name (sort_policies before ps)) ≡ contains t (map name ps)
  unfolding sort_policies
  contains-sort_policies t [] = refl
  contains-sort_policies t (p ∷ ps) =
      ground
        (arith, contains-insert_policy t p (sort_policies before ps), contains-sort_policies t ps)

  insert_policy-IsDistinct :
      (p : NativePolicy) (ps : List NativePolicy)
      → contains (name p) (map name ps) ≡ false
      → IsDistinct (map name ps)
      → IsDistinct (map name (insert_policy before p ps))
  unfolding insert_policy
  insert_policy-IsDistinct p [] h k = (refl, tt)
  insert_policy-IsDistinct p (q ∷ qs) h (n, k) = elim (Bool-cases (before q.key_hash p.key_hash)) [
    | inl later ↦
        rw (insert_policy, later)
          (
            ground
                (arith, contains-insert_policy (name q) p qs, text_eq_sym (name q) (name p), h, n),
            insert_policy-IsDistinct p qs (ground (arith, h)) k,
          )
    | inr here ↦ rw (insert_policy, here) (h, (n, k))
  ]

  pub sort_policies-IsDistinct :
      (ps : List NativePolicy)
      → IsDistinct (map name ps)
      → IsDistinct (map name (sort_policies before ps))
  unfolding sort_policies
  sort_policies-IsDistinct [] h = tt
  sort_policies-IsDistinct (p ∷ ps) (n, h) =
      insert_policy-IsDistinct p (sort_policies before ps) (contains-sort_policies (name p) ps ∙ n)
        (sort_policies-IsDistinct ps h)
