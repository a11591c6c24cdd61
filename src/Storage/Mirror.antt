-- ===== src/Storage/Mirror.antt =====
-- `ensure_local` of backend/utils/storage.py, by which another machine gets a published run's files.
-- `size_of` is the size of the file that a key's download writes.
use autonomous_ai_analyst.Base.{
  ℕ, String, List, [], ◌∷◌, ◌++◌, true, false, ◌&&◌, none, some, ◌==◌, ◌≡◌, ◌⊎◌, refl, inl, inr,
  Bool-cases, arith, eq_iff, if◌then◌else◌, All, delete_where,
}
use autonomous_ai_analyst.Text.{elem}
use autonomous_ai_analyst.Storage.Files.{
  Root, metadata_dir, model_dir, File, Bucket, Store, Place, exists_at, run_artifact_paths,
  put_place, publish_places, publish_run, same_root,
}

module _ (size_of : String → ℕ) where
  abbrev pub downloaded : Place → File
  downloaded p = record { root = p.root; name = p.key; size = size_of p.key; locked = false }

  -- A download that fails leaves the files as they are.
  abbrev pub fetch_place : Place → Bucket → List File → List File
  fetch_place p b files =
      if exists_at p files
      then files
      else if b.reachable && elem p.key b.keys
      then files ++ downloaded p ∷ []
      else files

  abbrev pub fetch_places : List Place → Bucket → List File → List File
  fetch_places [] b files = files
  fetch_places (p ∷ ps) b files = fetch_places ps b (fetch_place p b files)

  unfoldable pub ensure_local : String → List String → Store → Store
  ensure_local run_key extra_model_suffixes s = elim s.bucket [
    | none ↦ s
    | some b ↦ record s {
      files = fetch_places (run_artifact_paths run_key extra_model_suffixes) b s.files;
    }
  ]

elem_rest :
    (k j : String) (keys : List String)
    → elem k keys ≡ true
    → elem k (j ∷ delete_where (λ i. i == j) keys) ≡ true
elem_rest k j [] h = cc
elem_rest k j (i ∷ keys) h = ground (arith, elem_rest k j keys, eq_iff i k, eq_iff i j, eq_iff j k)

put_place-keeps :
    (k : String) (p : Place) (files : List File) (b : Bucket)
    → elem k b.keys ≡ true
    → elem k (put_place p files b).0.keys ≡ true
put_place-keeps k p files b h = ground (arith, elem_rest k p.key b.keys)

put_place-reachable :
    (p : Place) (files : List File) (b : Bucket) → (put_place p files b).0.reachable ≡ b.reachable
put_place-reachable p files b = ground arith

put_place-puts :
    (p : Place) (files : List File) (b : Bucket)
    → b.reachable ≡ true
    → exists_at p files ≡ true
    → elem p.key (put_place p files b).0.keys ≡ true
put_place-puts p files b h k = ground (arith, eq_iff p.key p.key)

publish_places-keeps :
    (k : String) (ps : List Place) (files : List File) (b : Bucket)
    → elem k b.keys ≡ true
    → elem k (publish_places ps files b).0.keys ≡ true
unfolding publish_places
publish_places-keeps k [] files b h = h
publish_places-keeps k (p ∷ ps) files b h =
    publish_places-keeps k ps files (put_place p files b).0 (put_place-keeps k p files b h)

publish_places-reachable :
    (ps : List Place) (files : List File) (b : Bucket)
    → b.reachable ≡ true
    → (publish_places ps files b).0.reachable ≡ true
unfolding publish_places
publish_places-reachable [] files b h = h
publish_places-reachable (p ∷ ps) files b h =
    publish_places-reachable ps files (put_place p files b).0 (rw (put_place-reachable p files b) h)

-- Every file that is there is in the bucket afterwards.
publish_places-puts :
    (ps : List Place) (files : List File) (b : Bucket)
    → b.reachable ≡ true
    → All (λ p. exists_at p files ≡ true → elem p.key (publish_places ps files b).0.keys ≡ true) ps
unfolding publish_places
publish_places-puts [] files b h = tt
publish_places-puts (p ∷ ps) files b h = (
  λ there.
      publish_places-keeps p.key ps files (put_place p files b).0
        (put_place-puts p files b h there),
  publish_places-puts ps files (put_place p files b).0 (rw (put_place-reachable p files b) h),
)

pub exists_at-append :
    (p : Place) (xs ys : List File) → exists_at p xs ≡ true → exists_at p (xs ++ ys) ≡ true
exists_at-append p [] ys h = cc
exists_at-append p (x ∷ xs) ys h = ground (arith, exists_at-append p xs ys)

pub same_root-same : (r : Root) → same_root r r ≡ true
same_root-same metadata_dir = refl
same_root-same model_dir = refl

-- What is there is mirrored, and what is mirrored is fetched.
All-there_after :
    (Q R : Place → Type 0) (files : List File) (ps : List Place)
    → All (λ p. exists_at p files ≡ true → Q p) ps
    → All (λ p. Q p → R p) ps
    → All (λ p. (exists_at p files ≡ false) ⊎ R p) ps
All-there_after Q R files [] h k = tt
All-there_after Q R files (p ∷ ps) h k = (
  elim (Bool-cases (exists_at p files)) [
    | inl there ↦ inr (k.0 (h.0 there))
    | inr absent ↦ inl absent
  ],
  All-there_after Q R files ps h.1 k.1,
)

module _ (size_of : String → ℕ) where
  pub exists_at-downloaded :
      (p : Place) (xs : List File) → exists_at p (xs ++ downloaded size_of p ∷ []) ≡ true
  exists_at-downloaded p [] = ground (arith, same_root-same p.root, eq_iff p.key p.key)
  exists_at-downloaded p (x ∷ xs) = ground (arith, exists_at-downloaded p xs)

  fetch_place-keeps :
      (q p : Place) (b : Bucket) (files : List File)
      → exists_at q files ≡ true
      → exists_at q (fetch_place size_of p b files) ≡ true
  fetch_place-keeps q p b files h =
      ground (arith, exists_at-append q files (downloaded size_of p ∷ []))

  fetch_place-gets :
      (p : Place) (b : Bucket) (files : List File)
      → b.reachable ≡ true
      → elem p.key b.keys ≡ true
      → exists_at p (fetch_place size_of p b files) ≡ true
  fetch_place-gets p b files h k = ground (arith, exists_at-downloaded p files)

  fetch_places-keeps :
      (q : Place) (ps : List Place) (b : Bucket) (files : List File)
      → exists_at q files ≡ true
      → exists_at q (fetch_places size_of ps b files) ≡ true
  fetch_places-keeps q [] b files h = h
  fetch_places-keeps q (p ∷ ps) b files h =
      fetch_places-keeps q ps b (fetch_place size_of p b files) (fetch_place-keeps q p b files h)

  fetch_places-gets :
      (ps : List Place) (b : Bucket) (files : List File)
      → b.reachable ≡ true
      → All
          (λ p. elem p.key b.keys ≡ true → exists_at p (fetch_places size_of ps b files) ≡ true)
          ps
  fetch_places-gets [] b files h = tt
  fetch_places-gets (p ∷ ps) b files h = (
    λ k. fetch_places-keeps p ps b (fetch_place size_of p b files) (fetch_place-gets p b files h k),
    fetch_places-gets ps b (fetch_place size_of p b files) h,
  )

  -- With a bucket in reach, every artifact of a run that is there on the machine that publishes it is
  -- there on any other machine after `ensure_local`.
  pub ensure_local-publish_run :
      (run_key : String) (extra : List String) (files others : List File) (b : Bucket)
      → b.reachable ≡ true
      → let published = publish_run run_key extra (record { files = files; bucket = some b }) in
        let fetched = ensure_local size_of run_key extra (record published.0 { files = others }) in
        All
          (λ p. (exists_at p files ≡ false) ⊎ (exists_at p fetched.files ≡ true))
          (run_artifact_paths run_key extra)
  unfolding publish_run ensure_local
  ensure_local-publish_run run_key extra files others b h =
      let ps = run_artifact_paths run_key extra in
      let b' = (publish_places ps files b).0 in
      All-there_after _ _ files ps (publish_places-puts ps files b h)
        (fetch_places-gets ps b' others (publish_places-reachable ps files b h))
