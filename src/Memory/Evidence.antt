-- ===== src/Memory/Evidence.antt =====
-- The packs that `retrieve` returns: from which rows, how many, and when they may be answered from.
use nestfleet.Prelude.{
  subst, ◌∙◌, ℕ, zero, suc, String, ◌+◌, ◌≤◌, List, [], ◌∷◌, Option, none, some, true, false, any,
  find, take, map, length, length-take-le, Has, Has-take, Has-keep, Has-keep_test, Has-sort_with,
  get_or, ◌≡◌, refl, sym, ap, arith, is_some,
}
use nestfleet.Memory.Double.{Double}
use nestfleet.Memory.Sources.{t2, tier_le}
use nestfleet.Memory.Chunks.{
  ChunkRow, RetrievalRequest, EvidenceChunk, EvidencePack, RetrievalAction,
}
use nestfleet.Memory.Retrieval.{
  rerank_candidates, of_version, apply_version_filter, evidence_of, tier_summary_of,
  assemble_evidence_pack, build_abstain_pack, evaluate_abstain, retrieve, retrieve_from,
  default_top_n, default_top_k, composite, is_stale, is_answer, min_tier_for_action, pack_of,
}
use nestfleet.Memory.Search.{SearchEngine, Candidate, hybrid_search}
use nestfleet.Memory.Packs.{
  IsOrder, IsFound, hybrid_search-IsFound, tier_summary_of-length, Has-map,
}
use nestfleet.System.{truthy}

length-map : {A B : Type 0} (f : A → B) (xs : List A) → length (map f xs) ≡ length xs
length-map f [] = refl
length-map f (x ∷ xs) = omega (arith, length-map f xs)

take-nil : {A : Type 0} (n : ℕ) → take {A = A} n [] ≡ []
take-nil zero = refl
take-nil (suc n) = refl

module _ {W : Type 0} ⦃d : Double W⦄ where
  rerank_candidates-Has :
      (cs : List (Candidate W)) (r : ChunkRow W) (x : W)
      → Has (r, x) (rerank_candidates cs)
      → (y : W) × Has (r, y) cs
  unfolding rerank_candidates
  rerank_candidates-Has cs r x h =
      let ((q, y), i, e) =
        Has-map composite cs (r, x) (Has-sort_with _ (r, x) (map composite cs) h) in
      (y, rw (sym (ap (λ c. c.0) e)) i)

  apply_version_filter-Has :
      (v : Option String) (cs : List (Candidate W)) (r : ChunkRow W) (x : W)
      → Has (r, x) (apply_version_filter v cs)
      → Has (r, x) cs × (of_version (truthy v) r ≡ true)
  unfolding apply_version_filter
  apply_version_filter-Has v cs r x h = (
    Has-keep (λ c. of_version (truthy v) c.0) cs (r, x) h,
    Has-keep_test (λ c. of_version (truthy v) c.0) cs (r, x) h,
  )

  pack_of-chunks :
      (request : RetrievalRequest) (top : List (EvidenceChunk W))
      → ((pack_of request top).chunks ≡ top)
        × ((pack_of request top).tier_summary ≡ tier_summary_of top)
  unfolding pack_of build_abstain_pack tier_summary_of
  pack_of-chunks request [] = (refl, refl)
  pack_of-chunks request (c ∷ top) = (refl, refl)

  -- What an answer may rest on: a chunk of the tier that the action asks for, no conflict, and a
  -- best chunk of the first two tiers that is not stale.
  abbrev pub IsAnswerable : RetrievalAction → List (EvidenceChunk W) → Type 0
  IsAnswerable action top =
      (any (λ c. tier_le c.tier (min_tier_for_action action)) top ≡ true)
      × (any (λ c. c.conflict_flag) top ≡ false)
      × (is_stale (find (λ c. tier_le c.tier t2) top) ≡ false)

  evaluate_abstain-IsAnswerable :
      (request : RetrievalRequest) (action : RetrievalAction) (top : List (EvidenceChunk W))
      → request.action_type ≡ some action
      → is_answer action ≡ true
      → evaluate_abstain request top ≡ none
      → IsAnswerable action top
  unfolding evaluate_abstain
  evaluate_abstain-IsAnswerable request action top e a h = grind arith

  pack_of-IsAnswerable :
      (request : RetrievalRequest) (action : RetrievalAction) (top : List (EvidenceChunk W))
      → request.action_type ≡ some action
      → is_answer action ≡ true
      → (pack_of request top).abstain ≡ false
      → IsAnswerable action top
  unfolding pack_of build_abstain_pack
  pack_of-IsAnswerable request action [] e a h = cc
  pack_of-IsAnswerable request action (c ∷ top) e a h =
      evaluate_abstain-IsAnswerable request action (c ∷ top) e a
        (is_some-false (evaluate_abstain request (c ∷ top)) h)
    where
      is_some-false : {A : Type 0} (o : Option A) → is_some o ≡ false → o ≡ none
      is_some-false none e = refl
      is_some-false (some a) e = cc

  module _ (engine : SearchEngine W) (orders : IsOrder engine) (request : RetrievalRequest)
      (table : List (ChunkRow W)) where
    abbrev pack : EvidencePack W
    pack = retrieve engine table request

    abbrev pub IsKept : ChunkRow W → Type 0
    IsKept r = IsFound request table r × (of_version (truthy request.product_version) r ≡ true)

    -- The pack is built from candidates that the search found.
    retrieve-pack :
        (cs : List (Candidate W)) × (pack
          ≡ pack_of request (map evidence_of (take (get_or request.top_n default_top_n) cs)))
        × ((r : ChunkRow W) (x : W) → Has (r, x) cs → IsKept r)
    unfolding retrieve retrieve_from assemble_evidence_pack pack_of
    retrieve-pack =
        go (hybrid_search engine request (get_or request.top_k default_top_k) table)
          (hybrid_search-IsFound engine orders request table (get_or request.top_k default_top_k))
      where
        go :
            (found : List (Candidate W))
            → ((r : ChunkRow W) (x : W) → Has (r, x) found → IsFound request table r)
            → (cs : List (Candidate W)) × (retrieve_from found request
                ≡ pack_of request (map evidence_of (take (get_or request.top_n default_top_n) cs)))
              × ((r : ChunkRow W) (x : W) → Has (r, x) cs → IsKept r)
        go [] from =
            ([], rw (take-nil (get_or request.top_n default_top_n)) refl, λ r x h. absurd h)
        go (c ∷ found) from = (
          apply_version_filter request.product_version (rerank_candidates (c ∷ found)),
          refl,
          λ r x h.
              let v = request.product_version in
              let (i, matches) = apply_version_filter-Has v (rerank_candidates (c ∷ found)) r x h in
              let (y, j) = rerank_candidates-Has (c ∷ found) r x i in (from r y j, matches),
        )

    -- Where the two orders of the search are of the rows that they are given, each chunk of a pack
    -- of evidence is a stored row of the product and of the tiers asked for, is public or asked
    -- for internally, and passes the version filter.
    pub retrieve-IsKept :
        (e : EvidenceChunk W)
        → Has e pack.chunks
        → (r : ChunkRow W) × (x : W) × IsKept r × (evidence_of (r, x) ≡ e)
    retrieve-IsKept e h =
        let (cs, is, kept) = retrieve-pack in
        let n = get_or request.top_n default_top_n in
        let top = map evidence_of (take n cs) in
        let ((r, x), i, same) =
          Has-map evidence_of (take n cs) e
            (subst (Has e) (ap (λ p. p.chunks) is ∙ (pack_of-chunks request top).0) h) in
        (r, x, kept r x (Has-take n cs (r, x) i), same)

    -- Where the orders of the search are of the rows that they are given, a pack has at most as
    -- many chunks as are asked for, five where nothing is, and its counts by tier add up to them.
    pub retrieve-bounds :
        (length pack.chunks ≤ get_or request.top_n default_top_n)
        × (pack.tier_summary.count1 + pack.tier_summary.count2 + pack.tier_summary.count3
              + pack.tier_summary.count4
            ≡ length pack.chunks)
    retrieve-bounds =
        let (cs, is, kept) = retrieve-pack in
        let n = get_or request.top_n default_top_n in
        let top = map evidence_of (take n cs) in
        rw (is, (pack_of-chunks request top).0, (pack_of-chunks request top).1)
          (
            omega (arith, length-map evidence_of (take n cs), length-take-le n cs),
            tier_summary_of-length top,
          )

    -- Where the orders of the search are of the rows that they are given and a pack for an
    -- automatic reply or an outage does not abstain, it has a chunk of the tier that the action
    -- asks for and no conflict, and its best chunk of the first two tiers is not stale.
    pub retrieve-IsAnswerable :
        (action : RetrievalAction)
        → request.action_type ≡ some action
        → is_answer action ≡ true
        → pack.abstain ≡ false
        → IsAnswerable action pack.chunks
    retrieve-IsAnswerable action e a h =
        let (cs, is, kept) = retrieve-pack in
        let top = map evidence_of (take (get_or request.top_n default_top_n) cs) in
        rw (is, (pack_of-chunks request top).0)
          (pack_of-IsAnswerable request action top e a (sym (ap (λ p. p.abstain) is) ∙ h))
