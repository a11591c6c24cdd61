-- ===== src/Storage/Purging.antt =====
-- What the deletion of a run's artifacts leaves in the store (`purge_run` of
-- backend/utils/storage.py).
use autonomous_ai_analyst.Base.{
  String, List, [], ◌∷◌, ◌++◌, true, false, not, Option, none, some, ◌==◌, ◌≡◌, ◌⊎◌, refl, sym,
  subst, inl, inr, arith, eq_iff, ==→eq, Bool-cases, All, All-select, map, delete_where,
}
use autonomous_ai_analyst.Text.{elem, ◌+++◌}
use autonomous_ai_analyst.Storage.Files.{
  add_suffix, File, Bucket, Store, Place, lies_at, exists_at, locked_at, removable, remove_key,
  purge_place, purge_places, purge_run, run_artifact_paths, place, add_suffixes, artifact_suffixes,
}

-- A file at this place that is still there is one whose `unlink` raises.
abbrev pub OnlyLocked : List File → Place → Type 0
OnlyLocked files p = (exists_at p files ≡ false) ⊎ (locked_at p files ≡ true)

exists-delete :
    (p : Place) (files : List File) → exists_at p (delete_where (lies_at p) files) ≡ false
exists-delete p [] = refl
exists-delete p (f ∷ fs) = ground (arith, exists-delete p fs)

exists-delete_other :
    (p q : Place) (files : List File)
    → exists_at q files ≡ false
    → exists_at q (delete_where (lies_at p) files) ≡ false
exists-delete_other p q [] e = refl
exists-delete_other p q (f ∷ fs) e = ground (arith, exists-delete_other p q fs)

locked-delete :
    (p q : Place) (files : List File)
    → locked_at p files ≡ false
    → locked_at q files ≡ true
    → locked_at q (delete_where (lies_at p) files) ≡ true
locked-delete p q [] e l = l
locked-delete p q (f ∷ fs) e l = ground (arith, locked-delete p q fs)

-- The bucket has no object under this key, or cannot be reached.
abbrev pub IsUnmirrored : String → Option Bucket → Type 0
IsUnmirrored key none = Unit
IsUnmirrored key (some b) = (b.reachable ≡ false) ⊎ All (λ k. (k == key) ≡ false) b.keys

abbrev pub IsPurged : Store → Place → Type 0
IsPurged s p = OnlyLocked s.files p × IsUnmirrored p.key s.bucket

place-OnlyLocked : (p : Place) (s : Store) → OnlyLocked (purge_place p s).files p
place-OnlyLocked p s = elim (Bool-cases (exists_at p s.files)) [
  | inr absent ↦ inl (ground (arith))
  | inl present ↦ elim (Bool-cases (locked_at p s.files)) [
    | inl locked ↦ inr (ground (arith))
    | inr free ↦ inl (ground (arith, exists-delete p s.files))
  ]
]

keep-OnlyLocked :
    (p q : Place) (s : Store) → OnlyLocked s.files q → OnlyLocked (purge_place p s).files q
keep-OnlyLocked p q s h = elim (Bool-cases (removable p s.files)) [
  | inr stays ↦ rw stays h
  | inl goes ↦ rw goes (elim h [
    | inl absent ↦ inl (exists-delete_other p q s.files absent)
    | inr locked ↦ inr (locked-delete p q s.files (ground (arith)) locked)
  ])
]

deleted-keys :
    (key : String) (keys : List String)
    → All (λ k. (k == key) ≡ false) (delete_where (λ k. k == key) keys)
deleted-keys key [] = tt
deleted-keys key (k ∷ keys) = ground (arith, deleted-keys key keys)

key-IsUnmirrored : (key : String) (b : Option Bucket) → IsUnmirrored key (remove_key key b)
key-IsUnmirrored key none = tt
key-IsUnmirrored key (some b) = elim (Bool-cases b.reachable) [
  | inr off ↦ subst (IsUnmirrored key) (sym (out_of_reach off)) (inl off)
  | inl on ↦ subst (IsUnmirrored key) (sym (within_reach on)) (inr (deleted-keys key b.keys))
]
  where
    out_of_reach : b.reachable ≡ false → remove_key key (some b) ≡ some b
    out_of_reach off = ground (arith)

    within_reach :
        b.reachable ≡ true
        → remove_key key (some b) ≡ some (record b { keys = delete_where (λ k. k == key) b.keys })
    within_reach on = ground (arith)

keep-IsUnmirrored :
    (key other : String) (b : Option Bucket)
    → IsUnmirrored other b
    → IsUnmirrored other (remove_key key b)
keep-IsUnmirrored key other none h = tt
keep-IsUnmirrored key other (some b) h = elim (Bool-cases b.reachable) [
  | inr off ↦ subst (IsUnmirrored other) (sym (out_of_reach off)) h
  | inl on ↦ subst (IsUnmirrored other) (sym (within_reach on)) (elim h [
    | inl off ↦ inl off
    | inr free ↦ inr (All-select (λ k. (k == other) ≡ false) (λ k. not (k == key)) b.keys free)
  ])
]
  where
    out_of_reach : b.reachable ≡ false → remove_key key (some b) ≡ some b
    out_of_reach off = ground (arith)

    within_reach :
        b.reachable ≡ true
        → remove_key key (some b) ≡ some (record b { keys = delete_where (λ k. k == key) b.keys })
    within_reach on = ground (arith)

pub purge-keep :
    (q : Place) (ps : List Place) (s : Store) → IsPurged s q → IsPurged (purge_places ps s).0 q
unfolding purge_places
purge-keep q [] s h = h
purge-keep q (p ∷ ps) s h =
    purge-keep q ps (purge_place p s)
      (keep-OnlyLocked p q s h.0, keep-IsUnmirrored p.key q.key s.bucket h.1)

purge-All : (ps : List Place) (s : Store) → All (IsPurged (purge_places ps s).0) ps
unfolding purge_places
purge-All [] s = tt
purge-All (p ∷ ps) s = (
  purge-keep p ps (purge_place p s) (place-OnlyLocked p s, key-IsUnmirrored p.key s.bucket),
  purge-All ps (purge_place p s),
)

elem-append : (x : String) (xs ys : List String) → elem x xs ≡ true → elem x (xs ++ ys) ≡ true
elem-append x [] ys e = cc
elem-append x (y ∷ xs) ys e = ground (arith, elem-append x xs ys)

elem-last : (x : String) (xs : List String) → elem x (xs ++ x ∷ []) ≡ true
elem-last x [] = ground (arith, eq_iff x x)
elem-last x (y ∷ xs) = ground (arith, elem-last x xs)

add_suffix-new : (x : String) (xs : List String) → elem x (add_suffix x xs) ≡ true
add_suffix-new x xs = ground (arith, elem-last x xs)

add_suffix-old :
    (x y : String) (xs : List String) → elem x xs ≡ true → elem x (add_suffix y xs) ≡ true
add_suffix-old x y xs e = ground (arith, elem-append x xs (y ∷ []))

add_suffixes-old :
    (x : String) (extra xs : List String) → elem x xs ≡ true → elem x (add_suffixes extra xs) ≡ true
add_suffixes-old x [] xs e = e
add_suffixes-old x (y ∷ extra) xs e =
    add_suffixes-old x extra (add_suffix (y +++ ".sig") (add_suffix y xs))
      (add_suffix-old x (y +++ ".sig") (add_suffix y xs) (add_suffix-old x y xs e))

-- Each extra suffix is among the suffixes, with its signature's.
add_suffixes-new :
    (extra xs : List String)
    → All
        (λ x.
          (elem x (add_suffixes extra xs) ≡ true)
          × (elem (x +++ ".sig") (add_suffixes extra xs) ≡ true))
        extra
add_suffixes-new [] xs = tt
add_suffixes-new (y ∷ extra) xs =
    let sig = y +++ ".sig" in
    let one = add_suffix y xs in
    (
      (
        add_suffixes-old y extra (add_suffix sig one)
            (add_suffix-old y sig one (add_suffix-new y xs)),
        add_suffixes-old sig extra (add_suffix sig one) (add_suffix-new sig one),
      ),
      add_suffixes-new extra (add_suffix sig one),
    )

elem-All :
    (P : Place → Type 0) (run_key x : String) (xs : List String)
    → elem x xs ≡ true
    → All P (map (place run_key) xs)
    → P (place run_key x)
elem-All P run_key x [] e h = cc
elem-All P run_key x (y ∷ xs) e h = elim (Bool-cases (y == x)) [
  | inl hit ↦ subst (λ t. P (place run_key t)) (==→eq y x hit) h.0
  | inr miss ↦ elem-All P run_key x xs (ground (arith)) h.1
]

extra-purged :
    (P : Place → Type 0) (run_key : String) (all extra : List String)
    → All P (map (place run_key) all)
    → All (λ x. (elem x all ≡ true) × (elem (x +++ ".sig") all ≡ true)) extra
    → All (λ x. P (place run_key x) × P (place run_key (x +++ ".sig"))) extra
extra-purged P run_key all [] h e = tt
extra-purged P run_key all (x ∷ extra) h e = (
  (elem-All P run_key x all e.0.0 h, elem-All P run_key (x +++ ".sig") all e.0.1 h),
  extra-purged P run_key all extra h e.1,
)

base-purged :
    (P : Place → Type 0) (run_key : String) (all xs : List String)
    → All P (map (place run_key) all)
    → All (λ x. elem x all ≡ true) xs
    → All (λ x. P (place run_key x)) xs
base-purged P run_key all [] h e = tt
base-purged P run_key all (x ∷ xs) h e =
    (elem-All P run_key x all e.0 h, base-purged P run_key all xs h e.1)

-- After the deletion of a run's artifacts none of them is left: not the metadata, the snapshot, the
-- model and its signature, nor any extra model bundle and its signature. What can stay is a local file
-- that cannot be unlinked, and an object in a bucket that is out of reach.
pub purge_run_complete :
    (run_key : String) (extra_model_suffixes : List String) (s : Store)
    → All
        (λ x. IsPurged (purge_run run_key extra_model_suffixes s).0 (place run_key x))
        artifact_suffixes
      × All
          (λ x.
            IsPurged (purge_run run_key extra_model_suffixes s).0 (place run_key x)
            × IsPurged (purge_run run_key extra_model_suffixes s).0 (place run_key (x +++ ".sig")))
          extra_model_suffixes
unfolding purge_run run_artifact_paths
purge_run_complete run_key extra s =
    let all = add_suffixes extra artifact_suffixes in
    let old = λ (x : String) (e : elem x artifact_suffixes ≡ true).
      add_suffixes-old x extra artifact_suffixes e in
    let done = purge-All (map (place run_key) all) s in
    let P : Place → Type 0 = IsPurged (purge_places (map (place run_key) all) s).0 in
    (
      base-purged P run_key all artifact_suffixes done (
        old ".json" refl,
        (old "_data.csv" refl, (old "_model.pkl" refl, (old "_model.pkl.sig" refl, tt))),
      ),
      extra-purged P run_key all extra done (add_suffixes-new extra artifact_suffixes),
    )
