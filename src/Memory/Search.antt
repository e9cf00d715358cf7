-- ===== src/Memory/Search.antt =====
-- src/memory/retrieval/retrieval-service.ts: the two searches and their fusion.
use nestfleet.Prelude.{
  ℕ, suc, String, List, [], ◌∷◌, ◌++◌, Option, none, some, Bool, true, false, not, ◌&&◌, keep, find,
  take, includes, get_or, or_else, str_eq, if◌then◌else◌, Comparable, of_discrete,
}
use nestfleet.Memory.Double.{Double}
use nestfleet.Memory.Sources.{t4, tier_le}
use nestfleet.Memory.Chunks.{Audience, public, internal, ContentType, ChunkRow, RetrievalRequest}

unfoldable pub content_type_discrete : Discrete ContentType
content_type_discrete = hlevel

instance unfoldable pub by_content_type : Comparable ContentType
unfolding content_type_discrete
by_content_type = of_discrete content_type_discrete

-- Postgres: the order by distance to the query's embedding, the order by text rank, and which rows
-- the text search hits.
pub record SearchEngine (W : Type 0) : Type 0 where
  pub by_vector : List (ChunkRow W) → List (ChunkRow W)
  pub by_text_rank : List (ChunkRow W) → List (ChunkRow W)
  pub hits : ChunkRow W → Bool

-- Internal callers see both audiences.
abbrev pub sees : Audience → Audience → Bool
sees internal audience = true
sees public public = true
sees public internal = false

-- No list and an empty one restrict nothing.
abbrev pub of_content : Option (List ContentType) → ContentType → Bool
of_content none c = true
of_content (some []) c = true
of_content (some (x ∷ xs)) c = includes (x ∷ xs) c

-- A candidate is a row with its score: `vectorScore`, which `textScore` is a copy of.
abbrev pub Candidate : Type 0 → Type 0
Candidate W = ChunkRow W × W

module _ {W : Type 0} where
  -- The `WHERE` of both searches.
  unfoldable pub is_searched : RetrievalRequest → ChunkRow W → Bool
  is_searched request r =
      str_eq r.product_id request.product_id
      && tier_le r.tier (get_or request.min_tier t4)
      && sees request.audience r.audience
      && of_content request.content_types r.content_type

  -- The row and the rank that a `Map` holds under an id: those of the last row that has it.
  unfoldable pub entry_of : String → ℕ → List (ChunkRow W) → Option (ChunkRow W × ℕ)
  entry_of id rank [] = none
  entry_of id rank (r ∷ rows) =
      or_else (entry_of id (suc rank) rows) (if str_eq r.chunk_id id then some (r, rank) else none)

  -- The members of the `Set`, in the order of their first occurrence.
  unfoldable pub chunk_ids : List (ChunkRow W) → List String
  chunk_ids [] = []
  chunk_ids (r ∷ rows) = r.chunk_id ∷ keep (λ id. not (str_eq id r.chunk_id)) (chunk_ids rows)

  abbrev pub row_part : Option (ChunkRow W × ℕ) → Option (ChunkRow W)
  row_part none = none
  row_part (some (r, _)) = some r

  -- `vEntry?.row ?? textResults.find(…)!`
  abbrev pub meta_of : String → List (ChunkRow W) → List (ChunkRow W) → Option (ChunkRow W)
  meta_of id vector_rows text_rows =
      or_else (row_part (entry_of id 1 vector_rows)) (find (λ r. str_eq r.chunk_id id) text_rows)

  abbrev pub push : Option (ChunkRow W) → W → List (Candidate W) → List (Candidate W)
  push none score cs = cs
  push (some r) score cs = (r, score) ∷ cs

module _ {W : Type 0} ⦃d : Double W⦄ where
  abbrev rrf : W → Option (ChunkRow W × ℕ) → W
  rrf weight none = d.decimal 0 1
  rrf weight (some (_, rank)) = d.over weight (d.plus (d.decimal 60 1) (d.decimal rank 1))

  unfoldable pub fused_score : String → List (ChunkRow W) → List (ChunkRow W) → W
  unfolding entry_of
  fused_score id vector_rows text_rows =
      d.plus (rrf (d.decimal 7 10) (entry_of id 1 vector_rows))
        (rrf (d.decimal 3 10) (entry_of id 1 text_rows))

  -- Every id stands in one of the lists, so that none is left out.
  unfoldable pub candidates_of :
      List String → List (ChunkRow W) → List (ChunkRow W) → List (Candidate W)
  unfolding fused_score
  candidates_of [] vector_rows text_rows = []
  candidates_of (id ∷ ids) vector_rows text_rows =
      push (meta_of id vector_rows text_rows) (fused_score id vector_rows text_rows)
        (candidates_of ids vector_rows text_rows)

  unfoldable pub hybrid_search :
      SearchEngine W → RetrievalRequest → ℕ → List (ChunkRow W) → List (Candidate W)
  unfolding is_searched candidates_of chunk_ids
  hybrid_search engine request top_k table =
      let vector_rows = take top_k (engine.by_vector (keep (is_searched request) table)) in
      let text_rows =
        take top_k
          (engine.by_text_rank (keep (λ r. is_searched request r && engine.hits r) table)) in
      candidates_of (chunk_ids (vector_rows ++ text_rows)) vector_rows text_rows
