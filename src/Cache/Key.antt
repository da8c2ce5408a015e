-- ===== src/Cache/Key.antt =====
-- The global cache key of src/cache/manifest.rs. `digest` stands for `digest_str`, and
-- nothing is assumed of it.
use apg.Prelude.{Bool, true, ◌&&◌, ◌≡◌, ◌↔◌, ◌++◌, arith, ◌==◌, ==_iff, nat_eq, list_eq}
use apg.Text.{Text, codes}

pub record CacheKey : Type 0 where
  pub binary_version : Text
  pub jsonl_schema : Text
  pub projection : Text
  pub config : Text

-- `CacheKey::matches`
unfoldable pub matches : CacheKey → CacheKey → Bool
matches k l =
    k.binary_version == l.binary_version
    && k.jsonl_schema == l.jsonl_schema
    && k.projection == l.projection
    && k.config == l.config

-- `CacheKey::token`
unfoldable pub token : (Text → Text) → CacheKey → Text
token digest k = digest (
    k.binary_version
    ++ codes "|"
    ++ k.jsonl_schema
    ++ codes "|"
    ++ k.projection
    ++ codes "|"
    ++ k.config)

pub matches_iff : (k l : CacheKey) → (matches k l ≡ true) ↔ (k ≡ l)
unfolding matches
matches_iff k l = ground (
  arith,
  ==_iff k.binary_version l.binary_version,
  ==_iff k.jsonl_schema l.jsonl_schema,
  ==_iff k.projection l.projection,
  ==_iff k.config l.config,
)
