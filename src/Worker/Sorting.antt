-- ===== src/Worker/Sorting.antt =====
-- The order of the positional arguments.
use mathlib.Core.List.{Perm}
use mathlib.Core.List.Perm
use workflow_spec.Prelude.{
  ℕ, ◌≡◌, String, false, List, [], ◌∷◌, arith, ltb, ltb→lt, All, All-imp, if-both,
}
use workflow_spec.Worker.Bindings.{insert_by_index, sort_by_index}

-- No slot has an index above a later one's.
abbrev pub Ascending : List (ℕ × String) → Type 0
Ascending [] = Unit
Ascending (s ∷ ss) = All (λ (t : ℕ × String). ltb t.0 s.0 ≡ false) ss × Ascending ss

insert-Perm : (s : ℕ × String) (ss : List (ℕ × String)) → Perm (insert_by_index s ss) (s ∷ ss)
unfolding insert_by_index
insert-Perm s [] = Perm.refl (s ∷ [])
insert-Perm s (t ∷ ts) =
    if-both (λ ss. Perm ss (s ∷ t ∷ ts)) (ltb t.0 s.0) _ _
      (λ before. Perm.trans (Perm.cons t (insert-Perm s ts)) (Perm.swap s t ts))
      (λ behind. Perm.refl (s ∷ t ∷ ts))

pub sort_by_index-Perm : (ss : List (ℕ × String)) → Perm (sort_by_index ss) ss
unfolding sort_by_index
sort_by_index-Perm [] = Perm.refl []
sort_by_index-Perm (s ∷ ss) =
    Perm.trans (insert-Perm s (sort_by_index ss)) (Perm.cons s (sort_by_index-Perm ss))

module _ {ℓ} (P : ℕ × String → Type ℓ) where
  insert-All :
      (s : ℕ × String) (ss : List (ℕ × String)) → P s → All P ss → All P (insert_by_index s ss)
  unfolding insert_by_index
  insert-All s [] h hs = (h, tt)
  insert-All s (t ∷ ts) h hs =
      if-both (All P) (ltb t.0 s.0) _ _ (λ before. (hs.0, insert-All s ts h hs.1))
        (λ behind. (h, hs))

  pub sort_by_index-All : (ss : List (ℕ × String)) → All P ss → All P (sort_by_index ss)
  unfolding sort_by_index
  sort_by_index-All [] hs = tt
  sort_by_index-All (s ∷ ss) hs = insert-All s (sort_by_index ss) hs.0 (sort_by_index-All ss hs.1)

insert-Ascending :
    (s : ℕ × String) (ss : List (ℕ × String)) → Ascending ss → Ascending (insert_by_index s ss)
unfolding insert_by_index
insert-Ascending s [] h = (tt, tt)
insert-Ascending s (t ∷ ts) h =
    if-both Ascending (ltb t.0 s.0) _ _
      (λ before. (
        insert-All (λ u. ltb u.0 t.0 ≡ false) s ts (ground (arith, before, ltb→lt t.0 s.0)) h.0,
        insert-Ascending s ts h.1,
      ))
      (λ behind. (
        (
          behind,
          All-imp (λ u. ltb u.0 t.0 ≡ false) (λ u. ltb u.0 s.0 ≡ false) ts
              (λ u later. ground (arith, behind, later)) h.0,
        ),
        h,
      ))

pub sort_by_index-Ascending : (ss : List (ℕ × String)) → Ascending (sort_by_index ss)
unfolding sort_by_index
sort_by_index-Ascending [] = tt
sort_by_index-Ascending (s ∷ ss) =
    insert-Ascending s (sort_by_index ss) (sort_by_index-Ascending ss)
