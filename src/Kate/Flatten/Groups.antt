-- ===== src/Kate/Flatten/Groups.antt =====
-- The groups of a block's extrinsics: nothing lost, in order, each application once.
use avail_core.Base.{
  ℕ, ◌≤◌, ◌<◌, ◌≡◌, refl, ap, ap₂, sym, ◌∙◌, arith, List, [], ◌∷◌, ◌++◌, append_assoc, append-nil,
  Option, none, some, All, Bool-cases, inl, inr, ltb, ◌==◌, if◌then◌else◌, ltb→lt, ltb-false→le,
  ==_iff,
}
use avail_core.DataLookup.{AppId}
use avail_core.DataLookup.Layout.{IsAfter}
use avail_core.Kate.Flatten.{
  AppExtrinsic, Groups, insert_by_id, sort_by_id, group_push, app_extrinsics_group_by_app_id,
}
use mathlib.Core.List.{foldl}

abbrev with_id : AppId → List (List ℕ) → List AppExtrinsic
with_id id [] = []
with_id id (d ∷ ds) = record { app_id = id; bytes = d } ∷ with_id id ds

-- The extrinsics of all groups, in order.
abbrev pub ungroup : Groups → List AppExtrinsic
ungroup [] = []
ungroup ((id, ds) ∷ gs) = with_id id ds ++ ungroup gs

-- The ids of the groups ascend strictly.
abbrev pub AscendingGroups : Option AppId → Groups → Type 0
AscendingGroups p [] = Unit
AscendingGroups p ((id, ds) ∷ gs) = IsAfter p id × AscendingGroups (some id) gs

abbrev AtMost : ℕ → Groups → Type 0
AtMost n [] = Unit
AtMost n ((id, ds) ∷ gs) = (id ≤ n) × AtMost n gs

-- Sorted by id.
abbrev pub IsSorted : List AppExtrinsic → Type 0
IsSorted [] = Unit
IsSorted (e ∷ es) = All (λ x. e.app_id ≤ x.app_id) es × IsSorted es

with_id-append :
    (id : AppId) (ds es : List (List ℕ)) → with_id id (ds ++ es) ≡ with_id id ds ++ with_id id es
with_id-append id [] es = refl
with_id-append id (d ∷ ds) es =
    ap (λ t. record { app_id = id; bytes = d } ∷ t) (with_id-append id ds es)

ungroup-group_push :
    (gs : Groups) (e : AppExtrinsic) → ungroup (group_push gs e) ≡ ungroup gs ++ (e ∷ [])
unfolding group_push
ungroup-group_push [] e = refl
ungroup-group_push ((id, ds) ∷ []) e = elim (Bool-cases (e.app_id == id)) [
  | inl t ↦
      let same : e.app_id ≡ id = (==_iff _ _).0 t in
      rw t (
        ap (λ z. z ++ []) (with_id-append id ds (e.bytes ∷ []))
        ∙ append-nil _
        ∙ ap₂ (λ a b. a ++ (record { app_id = b; bytes = e.bytes } ∷ []))
            (sym (append-nil (with_id id ds))) (sym same))
  | inr t ↦ rw t (ap (λ z. z ++ (e ∷ [])) (sym (append-nil (with_id id ds))))
]
ungroup-group_push ((id, ds) ∷ g ∷ rest) e =
    ap (λ t. with_id id ds ++ t) (ungroup-group_push (g ∷ rest) e)
    ∙ sym (append_assoc (with_id id ds) (ungroup (g ∷ rest)) (e ∷ []))

group_fold :
    (gs : Groups) (es : List AppExtrinsic) → ungroup (foldl group_push gs es) ≡ ungroup gs ++ es
group_fold gs [] = sym (append-nil (ungroup gs))
group_fold gs (e ∷ es) =
    group_fold (group_push gs e) es
    ∙ ap (λ t. t ++ es) (ungroup-group_push gs e)
    ∙ append_assoc (ungroup gs) (e ∷ []) es

group_push-AtMost :
    (gs : Groups) (e : AppExtrinsic) → AtMost e.app_id gs → AtMost e.app_id (group_push gs e)
unfolding group_push
group_push-AtMost [] e h = omega arith
group_push-AtMost ((id, ds) ∷ []) e h = ground arith
group_push-AtMost ((id, ds) ∷ g ∷ rest) e (h, k) = (h, group_push-AtMost (g ∷ rest) e k)

group_push-Ascending :
    (p : Option AppId) (gs : Groups) (e : AppExtrinsic)
    → IsAfter p e.app_id
    → AtMost e.app_id gs
    → AscendingGroups p gs
    → AscendingGroups p (group_push gs e)
unfolding group_push
group_push-Ascending p [] e l h a = (l, tt)
group_push-Ascending p ((id, ds) ∷ []) e l h (ai, ar) = elim (Bool-cases (e.app_id == id)) [
  | inl t ↦ rw t (ai, tt)
  | inr t ↦ rw t (ai, (ground (arith, t), tt))
]
group_push-Ascending p ((id, ds) ∷ (i2, ds2) ∷ rest) e l (h, (h2, k)) (ai, (a2, ar)) =
    (ai, group_push-Ascending (some id) ((i2, ds2) ∷ rest) e (omega arith) (h2, k) (a2, ar))

AtMost-trans : (m n : ℕ) (gs : Groups) → m ≤ n → AtMost m gs → AtMost n gs
AtMost-trans m n [] l h = tt
AtMost-trans m n ((id, ds) ∷ gs) l (h, k) = (omega arith, AtMost-trans m n gs l k)

fold-Ascending :
    (gs : Groups) (es : List AppExtrinsic)
    → AscendingGroups none gs
    → All (λ e. AtMost e.app_id gs) es
    → IsSorted es
    → AscendingGroups none (foldl group_push gs es)
fold-Ascending gs [] a b s = a
fold-Ascending gs (e ∷ es) a (b, bs) (s, ss) =
    fold-Ascending (group_push gs e) es (group_push-Ascending none gs e tt b a) (later es s) ss
  where
    later :
        (xs : List AppExtrinsic)
        → All (λ x. e.app_id ≤ x.app_id) xs
        → All (λ x. AtMost x.app_id (group_push gs e)) xs
    later [] k = tt
    later (x ∷ xs) (k, ks) =
        (AtMost-trans e.app_id x.app_id (group_push gs e) k (group_push-AtMost gs e b), later xs ks)

All-insert :
    (P : AppExtrinsic → Type 0) (e : AppExtrinsic) (xs : List AppExtrinsic)
    → P e
    → All P xs
    → All P (insert_by_id e xs)
All-insert P e [] p a = (p, tt)
All-insert P e (x ∷ xs) p (a, rs) = elim (Bool-cases (ltb e.app_id x.app_id)) [
  | inl t ↦ rw t (p, (a, rs))
  | inr t ↦ rw t (a, All-insert P e xs p rs)
]

All-le :
    (m n : ℕ) (xs : List AppExtrinsic)
    → m ≤ n
    → All (λ x. n ≤ x.app_id) xs
    → All (λ x. m ≤ x.app_id) xs
All-le m n [] l a = tt
All-le m n (x ∷ xs) l (a, rs) = (omega arith, All-le m n xs l rs)

insert_by_id-IsSorted :
    (e : AppExtrinsic) (xs : List AppExtrinsic) → IsSorted xs → IsSorted (insert_by_id e xs)
insert_by_id-IsSorted e [] s = (tt, tt)
insert_by_id-IsSorted e (x ∷ xs) (s, ss) = elim (Bool-cases (ltb e.app_id x.app_id)) [
  | inl t ↦
      let l : e.app_id < x.app_id = ltb→lt _ _ t in
      rw t (((omega arith, All-le e.app_id x.app_id xs (omega arith) s), (s, ss)))
  | inr t ↦
      let l : x.app_id ≤ e.app_id = ltb-false→le _ _ t in
      rw t (All-insert (λ y. x.app_id ≤ y.app_id) e xs l s, insert_by_id-IsSorted e xs ss)
]

fold-IsSorted :
    (acc es : List AppExtrinsic)
    → IsSorted acc
    → IsSorted (foldl (λ sorted e. insert_by_id e sorted) acc es)
fold-IsSorted acc [] s = s
fold-IsSorted acc (e ∷ es) s = fold-IsSorted (insert_by_id e acc) es (insert_by_id-IsSorted e acc s)

-- The extrinsics of one application, in order.
abbrev pub submitted_by : AppId → List AppExtrinsic → List AppExtrinsic
submitted_by a [] = []
submitted_by a (e ∷ es) = let rest = submitted_by a es in if e.app_id == a then e ∷ rest else rest

submitted_by-All :
    (a : AppId) (xs : List AppExtrinsic) → All (λ x. a < x.app_id) xs → submitted_by a xs ≡ []
submitted_by-All a [] h = refl
submitted_by-All a (x ∷ xs) (h, hs) = ground (arith, submitted_by-All a xs hs)

All-lt :
    (m n : ℕ) (xs : List AppExtrinsic)
    → m < n
    → All (λ x. n ≤ x.app_id) xs
    → All (λ x. m < x.app_id) xs
All-lt m n [] l a = tt
All-lt m n (x ∷ xs) l (a, rs) = (omega arith, All-lt m n xs l rs)

-- Inserting behind the equals keeps the order within each application.
submitted_by-insert :
    (a : AppId) (e : AppExtrinsic) (xs : List AppExtrinsic)
    → IsSorted xs
    → submitted_by a (insert_by_id e xs) ≡ submitted_by a xs ++ submitted_by a (e ∷ [])
submitted_by-insert a e [] s = refl
submitted_by-insert a e (x ∷ xs) (s, ss) = elim (Bool-cases (ltb e.app_id x.app_id)) [
  | inl t ↦
      let l : e.app_id < x.app_id = ltb→lt _ _ t in
      elim (Bool-cases (e.app_id == a)) [
        | inl u ↦
            let same : e.app_id ≡ a = (==_iff _ _).0 u in
            let gone : submitted_by a (x ∷ xs) ≡ [] =
              submitted_by-All a (x ∷ xs) (omega arith, All-lt a x.app_id xs (omega arith) s) in
            rw t (rw u (ap (λ z. e ∷ z) gone ∙ ap (λ z. z ++ (e ∷ [])) (sym gone)))
        | inr u ↦ rw t (rw u (sym (append-nil (submitted_by a (x ∷ xs)))))
      ]
  | inr t ↦ elim (Bool-cases (x.app_id == a)) [
    | inl u ↦ rw t (rw u (ap (λ z. x ∷ z) (submitted_by-insert a e xs ss)))
    | inr u ↦ rw t (rw u (submitted_by-insert a e xs ss))
  ]
]

submitted_by-append :
    (a : AppId) (xs ys : List AppExtrinsic)
    → submitted_by a (xs ++ ys) ≡ submitted_by a xs ++ submitted_by a ys
submitted_by-append a [] ys = refl
submitted_by-append a (x ∷ xs) ys = elim (Bool-cases (x.app_id == a)) [
  | inl t ↦ rw t (ap (λ z. x ∷ z) (submitted_by-append a xs ys))
  | inr t ↦ rw t (submitted_by-append a xs ys)
]

submitted_by-fold :
    (a : AppId) (acc es : List AppExtrinsic)
    → IsSorted acc
    → submitted_by a (foldl (λ sorted e. insert_by_id e sorted) acc es)
      ≡ submitted_by a acc ++ submitted_by a es
submitted_by-fold a acc [] s = sym (append-nil (submitted_by a acc))
submitted_by-fold a acc (e ∷ es) s =
    submitted_by-fold a (insert_by_id e acc) es (insert_by_id-IsSorted e acc s)
    ∙ ap (λ z. z ++ submitted_by a es) (submitted_by-insert a e acc s)
    ∙ append_assoc (submitted_by a acc) (submitted_by a (e ∷ [])) (submitted_by a es)
    ∙ ap (λ z. submitted_by a acc ++ z) (sym (submitted_by-append a (e ∷ []) es))

All-AtMost : (es : List AppExtrinsic) → All (λ e. AtMost e.app_id []) es
All-AtMost [] = tt
All-AtMost (e ∷ es) = (tt, All-AtMost es)

-- Sorting the extrinsics and grouping them gives groups whose ids ascend strictly, one for each
-- application, and the groups hold the submitted extrinsics of every application, each once, in the
-- order of submission.
pub group_sorted :
    (es : List AppExtrinsic)
    → AscendingGroups none (app_extrinsics_group_by_app_id (sort_by_id es))
      × ((a : AppId)
          → submitted_by a (ungroup (app_extrinsics_group_by_app_id (sort_by_id es)))
            ≡ submitted_by a es)
unfolding sort_by_id app_extrinsics_group_by_app_id
group_sorted es = (
  fold-Ascending [] (sort_by_id es) tt (All-AtMost (sort_by_id es)) (fold-IsSorted [] es tt),
  λ a. ap (submitted_by a) (group_fold [] (sort_by_id es)) ∙ submitted_by-fold a [] es tt,
)
