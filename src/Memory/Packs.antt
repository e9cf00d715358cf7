-- ===== src/Memory/Packs.antt =====
-- What a pack of evidence holds, and when it may be answered from.
use nestfleet.Prelude.{
  eq_iff, get_or, ◌≤◌, ℕ, suc, ◌+◌, String, List, [], ◌∷◌, ◌++◌, Option, none, some, Bool, true,
  ◌&&◌, keep, find, take, map, length, Has, Has-take, Has-keep, Has-keep_test, str_eq, ◌≡◌, refl,
  ap, ◌⊎◌, inl, inr, arith, Option-cases,
}
use nestfleet.Memory.Double.{Double}
use nestfleet.Memory.Sources.{tier_number, t4}
use nestfleet.Memory.Chunks.{public, internal, ChunkRow, RetrievalRequest, EvidenceChunk}
use nestfleet.Memory.Retrieval.{tier_summary_of}
use nestfleet.Memory.Search.{
  SearchEngine, Candidate, is_searched, push, entry_of, meta_of, fused_score, candidates_of,
  chunk_ids, hybrid_search,
}

find-Has : {A : Type 0} (p : A → Bool) (xs : List A) (a : A) → find p xs ≡ some a → Has a xs
find-Has p [] a h = cc
find-Has p (x ∷ xs) a h = grind (arith, find-Has p xs a)

pub Has-map :
    {A B : Type 0} (f : A → B) (xs : List A) (b : B)
    → Has b (map f xs)
    → (a : A) × Has a xs × (f a ≡ b)
Has-map f [] b h = absurd h
Has-map f (x ∷ xs) b (inl e) = (x, inl refl, e)
Has-map f (x ∷ xs) b (inr h) = let (a, i, e) = Has-map f xs b h in (a, inr i, e)

module _ {W : Type 0} where
  entry_of-Has :
      (id : String) (k j : ℕ) (rows : List (ChunkRow W)) (r : ChunkRow W)
      → entry_of id k rows ≡ some (r, j)
      → Has r rows
  unfolding entry_of
  entry_of-Has id k j [] r h = cc
  entry_of-Has id k j (x ∷ rows) r h = grind (arith, entry_of-Has id (suc k) j rows r)

  push-Has :
      (m : Option (ChunkRow W)) (y : W) (cs : List (Candidate W)) (r : ChunkRow W) (x : W)
      → Has (r, x) (push m y cs)
      → (m ≡ some r) ⊎ Has (r, x) cs
  push-Has none y cs r x h = inr h
  push-Has (some q) y cs r x (inl e) = inl (ap (λ c. some c.0) e)
  push-Has (some q) y cs r x (inr h) = inr h

  meta_of-Has :
      (id : String) (v t : List (ChunkRow W)) (r : ChunkRow W)
      → meta_of id v t ≡ some r
      → Has r v ⊎ Has r t
  meta_of-Has id v t r h = elim (Option-cases (entry_of id 1 v)) [
    | inl e ↦ grind (arith, find-Has (λ r. str_eq r.chunk_id id) t r)
    | inr ((q, j), e) ↦ grind (arith, entry_of-Has id 1 j v q)
  ]

module _ {W : Type 0} ⦃d : Double W⦄ where
  candidates_of-Has :
      (ids : List String) (v t : List (ChunkRow W)) (r : ChunkRow W) (x : W)
      → Has (r, x) (candidates_of ids v t)
      → Has r v ⊎ Has r t
  unfolding candidates_of
  candidates_of-Has [] v t r x h = absurd h
  candidates_of-Has (id ∷ ids) v t r x h =
      elim (push-Has (meta_of id v t) (fused_score id v t) (candidates_of ids v t) r x h) [
        | inl e ↦ meta_of-Has id v t r e
        | inr i ↦ candidates_of-Has ids v t r x i
      ]

  pub tier_summary_of-length :
      (cs : List (EvidenceChunk W))
      → (tier_summary_of cs).count1
          + (tier_summary_of cs).count2
          + (tier_summary_of cs).count3
          + (tier_summary_of cs).count4
        ≡ length cs
  unfolding tier_summary_of
  tier_summary_of-length [] = refl
  tier_summary_of-length (c ∷ cs) = grind (arith, tier_summary_of-length cs)

  -- The two orders of the engine are of the rows that they are given.
  abbrev pub IsOrder : SearchEngine W → Type 0
  IsOrder engine =
      ((rows : List (ChunkRow W)) (r : ChunkRow W) → Has r (engine.by_vector rows) → Has r rows)
      × ((rows : List (ChunkRow W)) (r : ChunkRow W)
          → Has r (engine.by_text_rank rows)
          → Has r rows)

  -- A row of the table: of the product, for an audience that the request may see, and of its tiers.
  abbrev pub IsFound : RetrievalRequest → List (ChunkRow W) → ChunkRow W → Type 0
  IsFound request table r =
      Has r table
      × (r.product_id ≡ request.product_id)
      × ((request.audience ≡ internal) ⊎ (r.audience ≡ public))
      × (tier_number r.tier ≤ tier_number (get_or request.min_tier t4))

  is_searched-IsFound :
      (request : RetrievalRequest) (table : List (ChunkRow W)) (r : ChunkRow W)
      → Has r table
      → is_searched request r ≡ true
      → IsFound request table r
  unfolding is_searched
  is_searched-IsFound request table r h e =
      (h, grind (arith, eq_iff r.product_id request.product_id), ground arith, ground arith)

  module _ (engine : SearchEngine W) (orders : IsOrder engine) (request : RetrievalRequest)
      (table : List (ChunkRow W)) where
    pub hybrid_search-IsFound :
        (k : ℕ) (r : ChunkRow W) (x : W)
        → Has (r, x) (hybrid_search engine request k table)
        → IsFound request table r
    unfolding hybrid_search
    hybrid_search-IsFound k r x h =
        let near = keep (is_searched request) table in
        let named = keep (λ q. is_searched request q && engine.hits q) table in
        let v = take k (engine.by_vector near) in
        let t = take k (engine.by_text_rank named) in
        elim (candidates_of-Has (chunk_ids (v ++ t)) v t r x h) [
          | inl i ↦
              let i' = orders.0 near r (Has-take k (engine.by_vector near) r i) in
              is_searched-IsFound request table r (Has-keep (is_searched request) table r i')
                (Has-keep_test (is_searched request) table r i')
          | inr i ↦
              let i' = orders.1 named r (Has-take k (engine.by_text_rank named) r i) in
              is_searched-IsFound request table r (Has-keep _ table r i')
                (both (is_searched request r) (engine.hits r) (Has-keep_test _ table r i'))
        ]
      where
        both : (a b : Bool) → (a && b) ≡ true → a ≡ true
        both a b e = ground arith
